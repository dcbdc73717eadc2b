-- ===== src/Tests/Strands.antt =====
-- A client whose service has ended the connection.
use deric_rpc.Prelude.{[], ◌∷◌, replicate, ◌≡◌, refl, false, some}
use deric_rpc.Os.{Kernel, received}
use deric_rpc.Io.Events.Loop.{wait_loop}
use deric_rpc.Client.Host.{ClientHost, kernel, client_members}
use deric_rpc.Rpc.Dropped.{IsStranded, wait_loop_strands_client}
use deric_rpc.Tests.Frames.{connection}
use deric_rpc.Tests.Hosts.{client_host, calling, impl, one_client, input, input-IsReadable, pending}
use deric_rpc.Tests.Machine.{Machine, machine}
use deric_rpc.Tests.Packer.{packer}

-- A machine whose streams have ended.
abbrev silent : Kernel Machine
silent = record machine { recv = λ fd n w. (received [], w) }

wait_loop_strands_client_example :
    (σ' : ClientHost Machine) × (wait_loop
        (kernel silent)
        (client_members packer silent)
        (replicate 3 (input ∷ []))
        pending
        one_client
        (client_host [])
      ≡ some (false, one_client, σ'))
    × IsStranded silent 5 one_client 1 2 impl 3 (client_host []) σ'
wait_loop_strands_client_example =
    wait_loop_strands_client packer silent 5 (λ w. refl) 1 2 impl input input-IsReadable one_client
      2 pending connection (client_host []) (calling []) refl refl
