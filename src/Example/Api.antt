-- ===== src/Example/Api.antt =====
-- The names that the two programs share: example/server/api/deric_test_service_api.h.
use deric_rpc.Prelude.{Bytes, [], ◌∷◌, ◌++◌}

abbrev pub rpc_service_deric_test : Bytes
rpc_service_deric_test =
    b'r' ∷ b'p' ∷ b'c' ∷ b'.' ∷ b's' ∷ b'e' ∷ b'r' ∷ b'v' ∷ b'i' ∷ b'c' ∷ b'e' ∷ b'.' ∷ b'd' ∷ b'e'
    ∷ b'r' ∷ b'i' ∷ b'c' ∷ b'.' ∷ b't' ∷ b'e' ∷ b's' ∷ b't' ∷ []

abbrev pub rpc_service_deric_test_hello : Bytes
rpc_service_deric_test_hello =
    rpc_service_deric_test ++ (b'.' ∷ b'h' ∷ b'e' ∷ b'l' ∷ b'l' ∷ b'o' ∷ [])

abbrev pub rpc_service_deric_test_add : Bytes
rpc_service_deric_test_add = rpc_service_deric_test ++ (b'.' ∷ b'a' ∷ b'd' ∷ b'd' ∷ [])

abbrev pub rpc_service_deric_test_minor : Bytes
rpc_service_deric_test_minor =
    rpc_service_deric_test ++ (b'.' ∷ b'm' ∷ b'i' ∷ b'n' ∷ b'o' ∷ b'r' ∷ [])
