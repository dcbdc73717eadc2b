-- ===== src/Server/Entry/Registered.antt =====
-- Functions that are registered through RpcServiceEntry, and the helper that they find:
-- deric_rpc/rpc/server/include/rpc_service_entry.h.
use deric_rpc.Prelude.{
  ℕ, ℤ, ◌≡◌, refl, true, false, Bytes, Option, some, arith, success, contains, lookup, insert,
  bytes_equality, Option-cases, inl, inr,
}
use deric_rpc.Common.{ComponentState, created, initialized, started}
use deric_rpc.Os.{Kernel}
use deric_rpc.Io.Events.{IoModule, add_io_member}
use deric_rpc.Io.Server.{TcpIoServer, new_tcp_io_server}
use deric_rpc.Io.Server
use deric_rpc.Function.{FunctionHelper, ServiceFunction, set_serialer}
use deric_rpc.Server.Service.{Service}
use deric_rpc.Server.Service
use deric_rpc.Server.Registry.Methods.{register_method_fresh, lookup-insert_self}
use deric_rpc.Server.Entry.{
  WithHelper, ServiceEntry, GetValue, kernel, init, start, register_method, locked,
}

module _ {W : Type 0} (os : Kernel W) where
  pub start_server-helper :
      (entry : ℕ) (t t' : TcpIoServer) (m m' : IoModule) (w w' : WithHelper W) (res : ℤ)
      → Server.start (kernel os) entry t m w ≡ some (res, t', m', w')
      → w'.func_helper ≡ w.func_helper
  unfolding Server.start add_io_member
  start_server-helper entry t t' m m' w w' res e = ground (arith, e)

pub locked-helper :
    {W : Type 0} (exec : FunctionHelper → ServiceFunction (WithHelper W)) (h : FunctionHelper)
    (request result_string : Bytes) (w : WithHelper W)
    → w.func_helper ≡ some h
    → locked exec request result_string w ≡ exec h request result_string w
unfolding locked
locked-helper exec h request result_string w helper = ground (arith, helper)

-- The entry's service is in the state `st` and has the function `f` under the name.
pub record Has {W : Type 0} (st : ComponentState) (name : Bytes)
    (f : ServiceFunction (WithHelper W)) (e : ServiceEntry W) : Type 0 where
  pub service : Service (WithHelper W)
  pub owned : e.service_impl ≡ some service
  pub state : service.state ≡ st
  pub found : lookup name service.functions ≡ some f

-- Both parts of the process have their serialer.
pub record CanPack {W : Type 0} (e : ServiceEntry W) (w : WithHelper W) : Type 0 where
  pub service : Service (WithHelper W)
  pub owned : e.service_impl ≡ some service
  pub serialer : service.has_serialer ≡ true
  pub helper : w.func_helper ≡ some (record { has_serialer = true })

module _ {W : Type 0} (name : Bytes) (exec : FunctionHelper → ServiceFunction (WithHelper W)) where
  pub register_method-Has :
      (st : ComponentState) (e e' : ServiceEntry W) (s : Service (WithHelper W))
      (h : FunctionHelper) (w : WithHelper W) (res : ℤ)
      → e.service_impl ≡ some s
      → s.state ≡ st
      → contains name s.functions ≡ false
      → w.func_helper ≡ some h
      → register_method exec name e w ≡ (res, e')
      → (res ≡ success) × Has st name (locked exec) e'
  unfolding register_method
  register_method-Has st e e' s h w res owned state free helper stored =
      let s' = record s { functions = insert name (locked exec) s.functions } in
      let added = register_method_fresh name (locked exec) s free in
      let after : e' ≡ record e { service_impl = some s' } =
        ground (arith, stored, owned, helper, added) in
      (
        ground (arith, stored, owned, helper, added),
        record {
          service = s';
          owned = ground (arith, after);
          state = state;
          found = lookup-insert_self name (locked exec) s;
        },
      )

  module _ (f : ServiceFunction (WithHelper W)) where
    pub init-Has :
        (stoi : Bytes → Option ℤ) (uninitialized : ℤ) (get_value : GetValue) (self : ℕ)
        (e e' : ServiceEntry W) (w w' : WithHelper W)
        → Has created name f e
        → init stoi uninitialized get_value self e w ≡ some (some success, e', w')
        → Has initialized name f e' × CanPack e' w'
    unfolding init set_serialer Service.init Server.init new_tcp_io_server
    init-Has stoi uninitialized get_value self e e' w w' h done =
        elim (Option-cases e'.service_impl) [
          | inl gone ↦ absurd (ground (arith, done, gone, h.owned))
          | inr (s, owned) ↦ (
            record {
              service = s;
              owned = owned;
              state = ground (arith, done, owned, h.owned, h.state);
              found = ground (arith, done, owned, h.owned, h.state, h.found);
            },
            record {
              service = s;
              owned = owned;
              serialer = ground (arith, done, owned, h.owned, h.state);
              helper = ground (arith, done, h.owned);
            },
          )
        ]

    pub start-Has :
        (os : Kernel W) (entry : ℕ) (e e' : ServiceEntry W) (m m' : IoModule) (w w' : WithHelper W)
        → Has initialized name f e
        → CanPack e w
        → start os entry e m w ≡ some (success, e', m', w')
        → Has started name f e' × CanPack e' w'
    unfolding start Service.start
    start-Has os entry e e' m m' w w' h c done = elim (Option-cases h.service.io_server) [
      | inl none_yet ↦ absurd (ground (arith, done, h.owned, h.state, none_yet))
      | inr (t, ready) ↦ elim (Option-cases (Server.start (kernel os) entry t m w)) [
        | inl gone ↦ absurd (ground (arith, done, h.owned, h.state, ready, gone))
        | inr ((r, t', m₁, w₁), began) ↦
            let s = record h.service { io_server = some t'; state = started } in
            let after : (e' ≡ record e { service_impl = some s }) × (w' ≡ w₁) =
              ground (arith, done, h.owned, h.state, ready, began) in
            let kept = start_server-helper os entry t t' m m₁ w w₁ r began in
            (
              record { service = s; owned = ground (arith, after); state = refl; found = h.found },
              record {
                service = s;
                owned = ground (arith, after);
                serialer = ground (arith, c.serialer, c.owned, h.owned);
                helper = ground (arith, after, kept, c.helper);
              },
            )
      ]
    ]
