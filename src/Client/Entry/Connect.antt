-- ===== src/Client/Entry/Connect.antt =====
-- `RpcClientEntry::connect` of deric_rpc/rpc/client/src/rpc_client_entry.cpp. The service book is
-- what opening it gives, `none` where it cannot be opened; a line of it that is read outside its
-- string gives `none`.
use deric_rpc.Prelude.{
  ℕ, ℤ, is_neg, failure, success, Bytes, [], ◌∷◌, ◌++◌, ◌≡◌, ◌⊎◌, Option, none, some, ◌>>=◌, arith,
  List, Dict, if◌then◌else◌,
}
use deric_rpc.Common.{Call, returns, throws, hangs}
use deric_rpc.Os.{Kernel}
use deric_rpc.Io.Connection.{IoClients}
use deric_rpc.Io.Events.{IoModule}
use deric_rpc.Config.{get_value}
use deric_rpc.Config
use deric_rpc.Config.File.{Entry, AllPlain, render, first_value, get_value-init}
use deric_rpc.Client.Impl.{ClientImpl, ClientConnectionConfig}
use deric_rpc.Client.Impl
use deric_rpc.Client.Entry.{ClientEntry}

abbrev pub ip_key : Bytes → Bytes
ip_key service_name = service_name ++ (b'_' ∷ b'I' ∷ b'P' ∷ [])

abbrev pub port_key : Bytes → Bytes
port_key service_name = service_name ++ (b'_' ∷ b'P' ∷ b'o' ∷ b'r' ∷ b't' ∷ [])

module _ {W : Type 0} (os : Kernel W) (clients : IoClients W) (stoi : Bytes → Option ℤ) where
  -- Behind the call of RpcClientImpl's `connect`.
  abbrev pub connected :
      ClientEntry → Call (ℤ × ClientImpl × IoModule × W) → Call (ℤ × ClientEntry × IoModule × W)
  connected c throws = throws
  connected c hangs = hangs
  connected c (returns (res, impl, m, w)) =
      returns (if is_neg res then failure else success, record c { client_impl = some impl }, m, w)

  -- With the items of the service book.
  connect_by :
      Dict Bytes Bytes
      → Bytes
      → ℕ
      → ℕ
      → ClientImpl
      → ClientEntry
      → IoModule
      → W
      → Call (ℤ × ClientEntry × IoModule × W)
  connect_by items service_name self object impl c m w =
      let (got_ip, ip) = get_value (ip_key service_name) [] items in
      let (got_port, port) = get_value (port_key service_name) [] items in
      if is_neg got_ip
      then returns (failure, c, m, w)
      else if is_neg got_port
      then returns (failure, c, m, w)
      else connected c (
          Impl.connect os clients stoi (record { service_ip = ip; service_port = port }) self object
            impl m w)

  unfoldable pub connect :
      (Bytes → Option Bytes)
      → Bytes
      → ℕ
      → ℕ
      → ClientEntry
      → IoModule
      → W
      → Option (Call (ℤ × ClientEntry × IoModule × W))
  unfolding connect_by
  connect open_file service_name self object c m w = elim c.client_impl [
    | none ↦ some (returns (failure, c, m, w))
    | some impl ↦ do
      (res, items) ← Config.init (open_file c.service_book) []
      some (
          if is_neg res
          then returns (failure, c, m, w)
          else connect_by items service_name self object impl c m w)
  ]

  module _ (open_file : Bytes → Option Bytes) (service_name : Bytes) (self object : ℕ)
      (es : List Entry) (impl : ClientImpl) (c : ClientEntry) (m : IoModule) (w : W) where
    -- A service is connected to under the address and the port that the first lines for its two keys
    -- in the service book give, for a book of plain entries.
    pub connect_reads_book :
        (ip port : Bytes)
        → AllPlain es
        → open_file c.service_book ≡ some (render es)
        → c.client_impl ≡ some impl
        → first_value (ip_key service_name) [] es ≡ (success, ip)
        → first_value (port_key service_name) [] es ≡ (success, port)
        → connect open_file service_name self object c m w
          ≡ some (
              connected c (
                Impl.connect os clients stoi
                  (record { service_ip = ip; service_port = port })
                  self
                  object
                  impl
                  m
                  w))
    unfolding connect
    connect_reads_book ip port plain opened has_impl has_ip has_port =
        let (items, read, got_ip) = get_value-init es (ip_key service_name) [] plain in
        let (items₂, read₂, got_port) = get_value-init es (port_key service_name) [] plain in
        ground (arith, opened, has_impl, read, read₂, got_ip, got_port, has_ip, has_port)

    -- A service that the service book, a file of plain entries, has no line for under one of its
    -- two keys is not connected to: the call fails, and the client, the event module and the
    -- system are as they were.
    pub connect_unlisted :
        AllPlain es
        → open_file c.service_book ≡ some (render es)
        → c.client_impl ≡ some impl
        → (first_value (ip_key service_name) [] es ≡ (failure, []))
          ⊎ (first_value (port_key service_name) [] es ≡ (failure, []))
        → connect open_file service_name self object c m w ≡ some (returns (failure, c, m, w))
    unfolding connect
    connect_unlisted plain opened has_impl missing =
        let (items, read, got_ip) = get_value-init es (ip_key service_name) [] plain in
        let (items₂, read₂, got_port) = get_value-init es (port_key service_name) [] plain in
        ground (arith, opened, has_impl, read, read₂, got_ip, got_port, missing)
