-- ===== src/Rpc/Available.antt =====
-- A service that goes on answering: any rounds of `IoModule::waitThreadFunc`, of
-- deric_rpc/io/src/io_module.cpp, and then a call by a client that is still listed.
use deric_rpc.Prelude.{Bool, List, false, nat_equality, int_equality}
use deric_rpc.Os.{Kernel}
use deric_rpc.Io.Events.{IoModule}
use deric_rpc.Io.Events.Loop.{EpollEvent, Pending, wait_loop}
use deric_rpc.Serial.{Msgpack, catch_all}
use deric_rpc.Server.Service.{Service}
use deric_rpc.Server.Host.{Host, kernel, host_members}
use deric_rpc.Server.InStep.{InStep}
use deric_rpc.Server.InStep.Guarded.{Guarded}

module _ (mp : Msgpack) {V : Type 0} (os : Kernel V) where
  -- Behind any rounds of the event loop; `m` and `σ` stand in where the loop comes to no result.
  abbrev pub behind_rounds :
      List (List EpollEvent) → Pending → IoModule → Host V → Bool × IoModule × Host V
  behind_rounds rounds p m σ =
      catch_all (wait_loop (kernel os) (host_members mp os) rounds p m σ) (false, m, σ)
