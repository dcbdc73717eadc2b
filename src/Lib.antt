-- ===== src/Lib.antt =====
-- Models and proofs for deric_rpc, a library for remote calls over TCP.
--
-- A service registers functions under names (RpcServiceImpl, with FunctionHelper around each
-- function) and listens on a socket (TcpIoServer); each accepted connection has a client entry
-- (RpcServiceClientEntry) and a TcpIoConnection. A client (RpcClientEntry over RpcClientImpl) has a
-- TcpIoConnection of its own, sends a request and waits for the reply with its message id. One
-- thread per process runs IoModule, which waits on epoll and calls the registered members when their
-- descriptors are readable. Messages are packed by msgpack (RpcSerialer) and framed by a header of
-- five bytes. DericProcess starts and ends IoModule; RpcConfig reads the settings.
--
-- The files, and the code that they model:
--   Prelude     numbers, bytes and association lists, with their lemmas; no code of the library
--   Common      deric_rpc/common/component_public.h, and enumerations of deric_rpc/io/include
--   Os          the system calls, as the fields of a record
--   Wire        deric_rpc/common/message_public.h, and TcpHeader_s of tcp_io_connection.h
--   Io          deric_rpc/io: Connection is TcpIoConnection, Events is IoModule with its thread in
--               Events.Loop, Server is TcpIoServer
--   Serial      deric_rpc/serial/rpc_serialer.h
--   Function    deric_rpc/function/function_helper.h
--   Server      deric_rpc/rpc/server: Service is the life of RpcServiceImpl, Registry its functions
--               and its dispatch, Client and Handlers are RpcServiceClientEntry, Accept is
--               TcpIoServer::onConnectRequest, Entry is RpcServiceEntry, Host is a process with one
--               service; Linked is how its clients and connections belong together, and
--               InStep how they belong to the members of the event module, with
--               InStep.Guarded for the mutex of the members and the descriptors in use, and
--               InStep.Returning for what makes the rounds of the loop come to a result
--   Client      deric_rpc/rpc/client: Impl is RpcClientImpl, Entry is RpcClientEntry, whose wait for
--               a reply is Entry.Waiting, that of several callers Entry.Waiting.Crowd, whose
--               `connect` is Entry.Connect and whose `invokeWithResultSync` is Entry.Sync; Host is a process with one client
--   Rpc         a request and its reply, through client, service and function: Call for the messages,
--               Round and Delivery from one event to the bytes that are sent or stored, Remote for
--               the whole call, Exchange for several in turn, Closing, HangUp and Dropped for the end
--               of a connection, Isolation for what one client can change, Available for a request
--               behind any rounds of the loop, Setup for the way from RpcServiceEntry's first call
--               to the first request, Sync for the caller that waits, Spurious for one that is woken
--               without a reply
--   Config      deric_rpc/config/src/rpc_config.cpp
--   Process     deric_rpc/process/src/deric_process.cpp and deric_process_entry.cpp
--   Example     example/server/server.cpp and example/client/client.cpp, their main functions, with
--               what they use of std::cout in Console
--   Tests       concrete systems, packers and inputs
--
-- A class is a record of its fields, and a method a function from the object, and from the other
-- state that it reaches, to its result and the new state. Function names are those of the source in
-- snake_case, and a helper is named for the part of a method that it stands for. An `int` is a
-- whole number, and a conversion from a size to `int` is written out with its wrap-around. A pointer
-- to bytes is an optional list of bytes, where a null pointer is `none`. A weak pointer is the number
-- of an object, with a test whether the object lives.
--
-- Two files put the objects of a process together, so that the event thread reaches them by their
-- numbers. In Server.Host object 0 is the TcpIoServerEntry and object n + 1 the TcpIoConnection of
-- client n, which its client entry holds; in Client.Host a connection has the number that it was
-- made with. A connection that calls its client is passed along, since its client may stop it, and
-- is written back behind the call. Ids of clients are 32 bits wide and wrap around.
--
-- The result `none` of a model is never a result of the code: in Wire, Io.Connection, Client.Entry
-- and Config it is an access outside a buffer or an overflow, as in Server.Handlers where it sends,
-- and in Io.Events, Io.Server and the rest of Server a call that waits for a mutex which no thread
-- unlocks. `init` of Server.Entry gives `none` where its helper is null, and the two Host files pass
-- on what they get. The two forms of `connect` of a client tell a result, an exception and a wait
-- for a mutex apart.
--
-- The system calls, msgpack and `std::stoi` are not code of the library, and are parameters. What a
-- theorem uses of them is a hypothesis: `Delivers` says that `recv` with MSG_WAITALL gives the bytes
-- asked for if they are there, `RoundTrips` that a packed value is unpacked again, `Descriptors`
-- that a new descriptor is not one in use, which only its `close` ends, and `GivesAtMost` that
-- `recv` gives no more than so many bytes at once. Tests has an instance of each.
--
-- Methods run one at a time, with the locks that they take free at their start; where a mutex stays
-- locked at the end the state says so. The event loop takes what epoll reports as a list of rounds,
-- and is still waiting when the list ends. The threads of calls that wait are steps of a
-- relation, from one point without locks to the next: in Waiting.Step one caller and the event
-- thread, in Waiting.Crowd any number of callers. A wakeup without `notify_one`, which the standard
-- allows, is a step of both where their type `Spurious` has a value; QuietReach leaves it out. Loops
-- are structural recursions, and need no fuel but for the ten digits of an `int`. The counter of
-- message ids is a natural number, and theorems about it bound it by the largest `int`.
--
-- A connection object of a service has the number of its client's id, so once ids have wrapped around
-- onto a client that is still listed, the model takes the two connections for one.
--
-- A function that is registered through RpcServiceEntry finds the entry's FunctionHelper by a weak
-- pointer, so in Server.Entry the helper is a cell beside the world of the functions.
--
-- In Example a main function is a chain of the library's calls. What the event thread does meanwhile
-- is a parameter of the client's waits, and is left out between the calls of the server's main. Sums
-- of `int` wrap around there, where C++ leaves an overflow undefined; ten digits are enough for one.
--
-- Not modelled: log messages and destructors.
mod Prelude
pub mod Wire
pub mod Common
pub mod Example
pub mod Os
pub mod Io
pub mod Serial
pub mod Function
pub mod Server
pub mod Client
pub mod Rpc
mod Tests
pub mod Config
pub mod Process
