-- ===== src/Server/Entry.antt =====
-- RpcServiceEntry: deric_rpc/rpc/server/src/rpc_service_entry.cpp and its header. A function that is
-- registered holds a weak pointer to the entry's helper, so the helper is a cell that lives beside
-- the world.
pub mod Configured
pub mod Registered
use deric_rpc.Prelude.{
  ℕ, Bool, true, false, Bytes, [], ◌∷◌, Option, none, some, ◌>>=◌, ℤ, failure, is_neg,
  if◌then◌else◌,
}
use deric_rpc.Os.{Kernel, lift_kernel}
use deric_rpc.Io.Events.{IoModule}
use deric_rpc.Function.{FunctionHelper, ServiceFunction, set_serialer}
use deric_rpc.Server.Service.{Service, ServiceConfig, new_service}
use deric_rpc.Server.Service
use deric_rpc.Server.Registry

-- `func_helper` is the helper that `m_funcHelper` owns, `none` once it is gone.
pub record WithHelper (W : Type 0) : Type 0 where
  pub func_helper : Option FunctionHelper
  pub world : W

-- `service_impl` is what `m_serviceImpl` points to.
pub record ServiceEntry (W : Type 0) : Type 0 where
  pub service_name : Bytes
  pub service_impl : Option (Service (WithHelper W))

-- `ConfigInterface::getValue`, from a key and the value before.
abbrev pub GetValue : Type 0
GetValue = Bytes → Bytes → ℤ × Bytes

abbrev pub ip_key : Bytes
ip_key = b'I' ∷ b'P' ∷ []

abbrev pub port_key : Bytes
port_key = b'P' ∷ b'o' ∷ b'r' ∷ b't' ∷ []

module _ {W : Type 0} where
  -- The entry, and the world with its new helper.
  unfoldable pub new_service_entry : Bytes → W → ServiceEntry W × WithHelper W
  new_service_entry service_name w = (
    record { service_name = service_name; service_impl = some (new_service service_name) },
    record { func_helper = some (record { has_serialer = false }); world = w },
  )

  -- The system, for calls that carry the helper along.
  abbrev pub kernel : Kernel W → Kernel (WithHelper W)
  kernel = lift_kernel (λ w. w.world) (λ v w. record w { world = v })

  abbrev put_impl : ServiceEntry W → Service (WithHelper W) → ServiceEntry W
  put_impl e s = record e { service_impl = some s }

  -- From the call of the service's `init` on.
  init_service :
      ℕ → ServiceConfig → Service (WithHelper W) → ServiceEntry W → Option ℤ × ServiceEntry W
  init_service self config s e =
      let (res, s') = Service.init self config s in (some res, put_impl e s')

  -- From the reading of the configuration on. `stoi` throws where it gives no number.
  -- `uninitialized` is what the member `maxConnectionNumber` holds, which is not set.
  configure :
      (Bytes → Option ℤ)
      → ℤ
      → GetValue
      → ℕ
      → Service (WithHelper W)
      → ServiceEntry W
      → Option ℤ × ServiceEntry W
  unfolding init_service
  configure stoi uninitialized get_value self s e =
      let (ip_res, ip) = get_value ip_key [] in
      if is_neg ip_res
      then (some failure, e)
      else let (port_res, port) = get_value port_key [] in
        if is_neg port_res then (some failure, e) else elim (stoi port) [
          | none ↦ (none, e)
          | some number ↦
              init_service self
                (record {
                  service_ip = ip;
                  service_port = number;
                  max_connection_number = uninitialized;
                  has_serialer = true;
                })
                s e
        ]

  -- `self` is the number of the service object. The result is `none` where `std::stoi` throws; the
  -- call itself has no outcome where the helper is null.
  unfoldable pub init :
      (Bytes → Option ℤ)
      → ℤ
      → GetValue
      → ℕ
      → ServiceEntry W
      → WithHelper W
      → Option (Option ℤ × ServiceEntry W × WithHelper W)
  unfolding configure
  init stoi uninitialized get_value self e w = elim e.service_impl [
    | none ↦ some (some failure, e, w)
    | some s ↦ do
      helper ← w.func_helper
      let (res, helper') = set_serialer true helper
      let w' = record w { func_helper = some helper' }
      let (res', e') = configure stoi uninitialized get_value self s e
      if is_neg res then some (some res, e, w') else some (res', e', w')
  ]

  module _ (os : Kernel W) where
    put_result :
        ServiceEntry W
        → ℤ × Service (WithHelper W) × IoModule × WithHelper W
        → ℤ × ServiceEntry W × IoModule × WithHelper W
    put_result e (res, s, m, w) = (res, put_impl e s, m, w)

    unfoldable pub de_init :
        ServiceEntry W
        → IoModule
        → WithHelper W
        → Option (ℤ × ServiceEntry W × IoModule × WithHelper W)
    unfolding put_result
    de_init e m w = elim e.service_impl [
      | none ↦ some (failure, e, m, w)
      | some s ↦ do r ← Service.de_init (kernel os) s m w; some (put_result e r)
    ]

    -- `entry` is the object that the server makes for the event module.
    unfoldable pub start :
        ℕ
        → ServiceEntry W
        → IoModule
        → WithHelper W
        → Option (ℤ × ServiceEntry W × IoModule × WithHelper W)
    unfolding put_result
    start entry e m w = elim e.service_impl [
      | none ↦ some (failure, e, m, w)
      | some s ↦ do r ← Service.start (kernel os) entry s m w; some (put_result e r)
    ]

    unfoldable pub stop :
        ServiceEntry W
        → IoModule
        → WithHelper W
        → Option (ℤ × ServiceEntry W × IoModule × WithHelper W)
    unfolding put_result
    stop e m w = elim e.service_impl [
      | none ↦ some (failure, e, m, w)
      | some s ↦ do r ← Service.stop (kernel os) s m w; some (put_result e r)
    ]

  unfoldable pub register_method_impl :
      Bytes → ServiceFunction (WithHelper W) → ServiceEntry W → ℤ × ServiceEntry W
  register_method_impl func_name func e = elim e.service_impl [
    | none ↦ (failure, e)
    | some s ↦ let (res, s') = Registry.register_method func_name func s in (res, put_impl e s')
  ]

  unfoldable pub unregister_method : Bytes → ServiceEntry W → ℤ × ServiceEntry W
  unregister_method func_name e = elim e.service_impl [
    | none ↦ (failure, e)
    | some s ↦ let (res, s') = Registry.unregister_method func_name s in (res, put_impl e s')
  ]

  -- The function that `registerMethod` stores. It finds the helper when it is called.
  unfoldable pub locked :
      (FunctionHelper → ServiceFunction (WithHelper W)) → ServiceFunction (WithHelper W)
  locked exec request result_string w = elim w.func_helper [
    | none ↦ (failure, result_string, w)
    | some helper ↦ exec helper request result_string w
  ]

  -- `registerMethod` in its two forms: `exec` is FunctionHelper's `exec` with the function, and with
  -- the object where there is one.
  unfoldable pub register_method :
      (FunctionHelper → ServiceFunction (WithHelper W))
      → Bytes
      → ServiceEntry W
      → WithHelper W
      → ℤ × ServiceEntry W
  unfolding register_method_impl
  register_method exec func_name e w = elim w.func_helper [
    | none ↦ (failure, e)
    | some _ ↦ register_method_impl func_name (locked exec) e
  ]
