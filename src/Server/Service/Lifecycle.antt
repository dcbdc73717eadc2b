-- ===== src/Server/Service/Lifecycle.antt =====
-- Sequences of calls of RpcServiceImpl's `init`, `deInit`, `start` and `stop`:
-- deric_rpc/rpc/server/src/rpc_service_impl.cpp.
use deric_rpc.Prelude.{
  ℕ, ℤ, failure, false, List, [], ◌∷◌, ◌≡◌, ◌≢◌, inl, inr, refl, Option, none, some, arith,
  Option-cases, ◌>>=◌,
}
use deric_rpc.Common.{created, initialized, started}
use deric_rpc.Os.{Kernel}
use deric_rpc.Io.Events.{IoModule}
use deric_rpc.Io.Server.{TcpIoServer, TcpIoServerConfig, new_tcp_io_server}
use deric_rpc.Io.Server
use deric_rpc.Io.Server.Lifecycle.{start_outcome, stop_outcome}
use deric_rpc.Server.Service.{Service, ServiceConfig, init, de_init, start, stop, stop_clients}

-- A call, with the arguments that it takes besides the service.
pub data Request : Type 0 where
  inits : ℕ → ServiceConfig → Request
  de_inits : Request
  starts : ℕ → Request
  stops : Request

module _ {W : Type 0} (os : Kernel W) where
  abbrev attach : ℤ × Service W → IoModule → W → ℤ × Service W × IoModule × W
  attach (res, s) m w = (res, s, m, w)

  unfoldable pub call : Request → Service W → IoModule → W → Option (ℤ × Service W × IoModule × W)
  call (inits self config) s m w = some (attach (init self config s) m w)
  call de_inits s m w = de_init os s m w
  call (starts entry) s m w = start os entry s m w
  call stops s m w = stop os s m w

  -- The results of a sequence of calls, each on what the one before left.
  unfoldable pub run :
      List Request → Service W → IoModule → W → Option (List ℤ × Service W × IoModule × W)
  run [] s m w = some ([], s, m, w)
  run (r ∷ rs) s m w = do
    (res, s₁, m₁, w₁) ← call r s m w
    (results, s₂, m₂, w₂) ← run rs s₁ m₁ w₁
    some (res ∷ results, s₂, m₂, w₂)

  abbrev pub AllFail : List ℤ → Type 0
  AllFail [] = Unit {0}
  AllFail (res ∷ results) = (res ≡ failure) × AllFail results

  -- Initialized with no server: what `stop` makes of a service that was never initialized.
  abbrev pub IsStuck : Service W → Type 0
  IsStuck s = (s.state ≡ initialized) × (s.io_server ≡ none)

  call-IsStuck :
      (r : Request) (s : Service W) (m : IoModule) (w : W)
      → IsStuck s
      → (s' : Service W) × (call r s m w ≡ some (failure, s', m, w)) × IsStuck s'
  unfolding call init de_init start stop
  call-IsStuck (inits self config) s m w h = (s, ground arith, h)
  call-IsStuck de_inits s m w h = (record s { has_serialer = false }, ground arith, h)
  call-IsStuck (starts entry) s m w h = (s, ground arith, h)
  call-IsStuck stops s m w h = (record s { state = initialized }, ground arith, ground arith)

  run-IsStuck :
      (rs : List Request) (s : Service W) (m : IoModule) (w : W)
      → IsStuck s
      → (results : List ℤ) × (s' : Service W) × (run rs s m w ≡ some (results, s', m, w))
        × AllFail results
  unfolding run
  run-IsStuck [] s m w h = ([], s, refl, tt)
  run-IsStuck (r ∷ rs) s m w h =
      let (s₁, called, h₁) = call-IsStuck r s m w h in
      let (results, s₂, ran, fails) = run-IsStuck rs s₁ m w h₁ in
      (failure ∷ results, s₂, ground (arith, called, ran), (refl, fails))

  -- A service whose `stop` is called before its first `init` is lost: that call fails, and so does
  -- every later call of `init`, `deInit`, `start` and `stop`, in whichever order, and none of them
  -- reaches the event module or the system.
  pub stop_before_init_is_lost :
      (rs : List Request) (s : Service W) (m : IoModule) (w : W)
      → s.state ≡ created
      → s.io_server ≡ none
      → (results : List ℤ) × (s' : Service W) × (run (stops ∷ rs) s m w ≡ some (results, s', m, w))
        × AllFail results
  unfolding run call stop
  stop_before_init_is_lost rs s m w st no_server =
      let s₁ = record s { state = initialized } in
      let (results, s₂, ran, fails) = run-IsStuck rs s₁ m w (refl, no_server) in
      (failure ∷ results, s₂, ground (arith, ran), (refl, fails))

  -- The service and its server are in step: there is no server, or it is in the service's state.
  pub data IsValid (s : Service W) : Type 0 where
    unborn : s.state ≡ created → s.io_server ≡ none → IsValid s
    ready :
        (t : TcpIoServer)
        → s.state ≡ initialized
        → s.io_server ≡ some t
        → t.state ≡ initialized
        → IsValid s
    serving :
        (t : TcpIoServer) → s.state ≡ started → s.io_server ≡ some t → t.state ≡ started → IsValid s

  init-IsValid :
      (self : ℕ) (config : ServiceConfig) (s s' : Service W) (res : ℤ)
      → IsValid s
      → init self config s ≡ (res, s')
      → IsValid s'
  unfolding init new_tcp_io_server Server.init
  init-IsValid self config s s' res (unborn st no_server) e =
      let c : TcpIoServerConfig = record {
        ip = config.service_ip;
        port = config.service_port;
        max_connection_number = config.max_connection_number;
        server_client = some self;
      } in
      ready (Server.init c new_tcp_io_server).1 (ground arith) (ground arith) refl
  init-IsValid self config s s' res (ready t st server ts) e =
      ready t (ground arith) (ground arith) ts
  init-IsValid self config s s' res (serving t st server ts) e =
      serving t (ground arith) (ground arith) ts

  start-IsValid :
      (entry : ℕ) (s s' : Service W) (m m' : IoModule) (w w' : W) (res : ℤ)
      → IsValid s
      → start os entry s m w ≡ some (res, s', m', w')
      → IsValid s'
  unfolding start
  start-IsValid entry s s' m m' w w' res (unborn st no_server) e =
      unborn (ground arith) (ground arith)
  start-IsValid entry s s' m m' w w' res (ready t st server ts) e =
      elim (Option-cases (Server.start os entry t m w)) [
        | inl gone ↦ absurd (ground (arith, gone))
        | inr ((r, t', m₁, w₁), began) ↦ elim (start_outcome os entry t t' m m₁ w w₁ r ts began) [
          | inl (ok, ts', _, _) ↦ serving t' (ground (arith, began, ok)) (ground (arith, began)) ts'
          | inr (bad, ts') ↦ ready t' (ground (arith, began, bad)) (ground (arith, began)) ts'
        ]
      ]
  start-IsValid entry s s' m m' w w' res (serving t st server ts) e =
      serving t (ground arith) (ground arith) ts

  stop-IsValid :
      (s s' : Service W) (m m' : IoModule) (w w' : W) (res : ℤ)
      → IsValid s
      → s.state ≢ created
      → stop os s m w ≡ some (res, s', m', w')
      → IsValid s'
  unfolding stop
  stop-IsValid s s' m m' w w' res (unborn st no_server) ne e = absurd (ne st)
  stop-IsValid s s' m m' w w' res (ready t st server ts) ne e =
      ready t (ground arith) (ground arith) ts
  stop-IsValid s s' m m' w w' res (serving t st server ts) ne e =
      elim (Option-cases (stop_clients os s.clients m w)) [
        | inl gone ↦ absurd (ground (arith, gone))
        | inr ((m₁, w₁), cleared) ↦ elim (Option-cases (Server.stop os t m₁ w₁)) [
          | inl gone ↦ absurd (ground (arith, gone, cleared))
          | inr ((r, t', m₂, w₂), ended) ↦
              let (_, t'_eq, _) = stop_outcome os t t' m₁ m₂ w₁ w₂ r ts ended in
              ready t' (ground (arith, cleared, ended)) (ground (arith, cleared, ended))
                (ground (arith, t'_eq))
        ]
      ]

  de_init-IsValid :
      (s s' : Service W) (m m' : IoModule) (w w' : W) (res : ℤ)
      → IsValid s
      → de_init os s m w ≡ some (res, s', m', w')
      → IsValid s'
  unfolding de_init Server.de_init
  de_init-IsValid s s' m m' w w' res (unborn st no_server) e = unborn (ground arith) (ground arith)
  de_init-IsValid s s' m m' w w' res (ready t st server ts) e = unborn (ground arith) (ground arith)
  de_init-IsValid s s' m m' w w' res (serving t st server ts) e =
      serving t (ground arith) (ground arith) ts

  -- Every call that returns keeps the service and its server in step, but a `stop` of a service that
  -- is not set up, before its first `init` or behind a `deInit`.
  pub call-IsValid :
      (r : Request) (s s' : Service W) (m m' : IoModule) (w w' : W) (res : ℤ)
      → IsValid s
      → (r ≡ stops → s.state ≢ created)
      → call r s m w ≡ some (res, s', m', w')
      → IsValid s'
  unfolding call
  call-IsValid (inits self config) s s' m m' w w' res v ok e =
      init-IsValid self config s s' res v (ground arith)
  call-IsValid de_inits s s' m m' w w' res v ok e = de_init-IsValid s s' m m' w w' res v e
  call-IsValid (starts entry) s s' m m' w w' res v ok e = start-IsValid entry s s' m m' w w' res v e
  call-IsValid stops s s' m m' w w' res v ok e = stop-IsValid s s' m m' w w' res v (ok refl) e
