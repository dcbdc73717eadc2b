-- ===== src/Server/Entry/Configured.antt =====
-- `RpcServiceEntry::init` and the configuration that it reads: deric_rpc/rpc/server/src/rpc_service_entry.cpp.
use deric_rpc.Prelude.{
  ℕ, ◌≡◌, ◌⊎◌, refl, true, Bytes, List, [], Option, some, arith, ℤ, success, failure, Dict,
  bytes_equality,
}
use deric_rpc.Common.{created, initialized}
use deric_rpc.Config.{get_value}
use deric_rpc.Config
use deric_rpc.Config.File.{Entry, AllPlain, render, first_value, get_value-init}
use deric_rpc.Io.Server.{TcpIoServer, TcpIoServerConfig, new_tcp_io_server}
use deric_rpc.Io.Server
use deric_rpc.Function.{FunctionHelper, set_serialer}
use deric_rpc.Server.Service.{Service}
use deric_rpc.Server.Service
use deric_rpc.Server.Entry.{WithHelper, ServiceEntry, ip_key, port_key, init}

module _ {W : Type 0} (stoi : Bytes → Option ℤ) (uninitialized : ℤ) (self : ℕ) where
  -- A service entry is set up from a file of plain entries that give it an address and a port: the
  -- file is read, `init` succeeds, and the service, its server with that address and port, and the
  -- helper, with its serialer, are ready. The table of functions stays. The service was never
  -- initialized, the entry has its service and its helper, and `std::stoi` reads the port.
  pub init-file :
      (es : List Entry) (ip port : Bytes) (number : ℤ) (h : FunctionHelper)
      (s : Service (WithHelper W)) (e : ServiceEntry W) (w : WithHelper W)
      → AllPlain es
      → first_value ip_key [] es ≡ (success, ip)
      → first_value port_key [] es ≡ (success, port)
      → stoi port ≡ some number
      → e.service_impl ≡ some s
      → s.state ≡ created
      → w.func_helper ≡ some h
      → (items : Dict Bytes Bytes) × (s' : Service (WithHelper W)) × (t : TcpIoServer)
        × (Config.init (some (render es)) [] ≡ some (success, items))
        × (init stoi uninitialized (λ key val. get_value key val items) self e w
            ≡ some (
              some success,
              record e { service_impl = some s' },
              record w { func_helper = some (record { has_serialer = true }) },
            ))
        × (s'.state ≡ initialized)
        × (s'.has_serialer ≡ true)
        × (s'.functions ≡ s.functions)
        × (s'.io_server ≡ some t)
        × (t.state ≡ initialized)
        × (t.ip ≡ ip)
        × (t.port ≡ number)
        × (t.client ≡ some self)
  unfolding init set_serialer Service.init Server.init new_tcp_io_server
  init-file es ip port number h s e w plain has_ip has_port reads has st helper =
      let (items, file, got_ip) = get_value-init es ip_key [] plain in
      let (items', file', got_port) = get_value-init es port_key [] plain in
      let same : items' ≡ items = ground (arith, file, file') in
      let config : TcpIoServerConfig = record {
        ip = ip;
        port = number;
        max_connection_number = uninitialized;
        server_client = some self;
      } in
      let t = (Server.init config new_tcp_io_server).1 in
      (
        items,
        record s { has_serialer = true; io_server = some t; state = initialized },
        t,
        file,
        ground (arith, got_ip, got_port, has_ip, has_port, reads, has, st, helper, same),
        refl,
        refl,
        refl,
        refl,
        refl,
        refl,
        refl,
        refl,
      )

  -- Without an address or a port `init` fails: the service stays as it was, and the helper has its
  -- serialer all the same. The entry has its service and its helper.
  pub init-file_without :
      (es : List Entry) (h : FunctionHelper) (s : Service (WithHelper W)) (e : ServiceEntry W)
      (w : WithHelper W)
      → AllPlain es
      → (first_value ip_key [] es ≡ (failure, [])) ⊎ (first_value port_key [] es ≡ (failure, []))
      → e.service_impl ≡ some s
      → w.func_helper ≡ some h
      → (items : Dict Bytes Bytes) × (Config.init (some (render es)) [] ≡ some (success, items))
        × (init stoi uninitialized (λ key val. get_value key val items) self e w
            ≡ some
                (some failure, e, record w { func_helper = some (record { has_serialer = true }) }))
  unfolding init set_serialer
  init-file_without es h s e w plain lacks has helper =
      let (items, file, got_ip) = get_value-init es ip_key [] plain in
      let (items', file', got_port) = get_value-init es port_key [] plain in
      let same : items' ≡ items = ground (arith, file, file') in
      (items, file, ground (arith, got_ip, got_port, lacks, has, helper, same))
