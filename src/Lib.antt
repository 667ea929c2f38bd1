-- ===== src/Lib.antt =====
-- A model of the core of a transport game server, in C++: timers, connections and their line protocol,
-- thread pools, calls of methods over them, a server and a client that use these, the registry of clients,
-- two small vector libraries, and the lengths of branches.
--
-- The parts, and how they go together. `src/core/TimerMaster` keeps timers in a wheel of four vectors and
-- calls `Expired` of each when its time has come; the timers are connections, whose `Expired` is a
-- heartbeat. A `Connection` (`src/core/network`) owns a `RawConnection`, which reads and writes its socket
-- with asynchronous operations; it writes out of two `SharedConstBuffers` that change places, and hands
-- what it reads to a `ProtobufDecoder`; a `ProtobufConnection` calls the peer's methods, and its own
-- service's, by such messages. The operations complete on the threads of an `IOServicePool`, which runs on
-- a `ThreadPool` over a `PCQueue`; a `Notifier` lets a thread wait for others, as the `Server` waits for
-- its channels when it stops. The calls of `src/server/network/RpcServiceClients.hpp` register clients and
-- their viewports in the game's container.
--
-- The files.
--   Base, with Base/Lists, Base/Sums, Base/Members, Base/Tests: names and lemmas that the others share.
--   Timer: TimerMaster.hpp, TimerMaster.cpp and Timer.hpp. `internal_add_timer`, `cascade_timers`,
--     `update` and `register` are `InternalAddTimer`, `CascadeTimers`, `Update` and `Register`; a round of the
--     loop in `Update` is `round`. The state is the clock and, for each
--     of the 4 times 256 lists, its slots. Place and Count are about finding and counting slots, Insert,
--     Cascade, Chain and Advance follow a slot through one round, Round and Update state what comes of it;
--     Alone: a wheel with one timer; Destroy: the destructor.
--   Wire: RawProtobufConnection.hpp and .cpp (`EncodeMessage`, `ProtobufDecoder`), Buffer.hpp,
--     proto/meta.proto and `RawConnectionImpl::Decode` of RawConnection.hpp. Feed: the loop over a read as
--     a function of its bytes; Stream and RoundTrip: reading back what was encoded; Bounds: the decoder's
--     buffer; World: what the handler of the messages keeps.
--   Buffers: src/core/SharedConstBuffers.hpp, and in Consume its queue of bytes.
--   Raw: Connection.hpp, RawConnection.hpp and RawConnection.cpp. A connection and its protocol half are
--     one record; every completion of an operation and every call is an `Event`, and `step` is its handler.
--     State: the record, its locks and buffers; Handlers: locks and outstanding operations; Closing: what a
--     closing connection does; Stream: the bytes from `PushData` to the socket; Heartbeat, Silence and Beats:
--     the heartbeats; Gone, Telling and Told: what is left of a closed connection, and its listeners; Word: the
--     status as its bits; Like and Open: what a call on an open connection, and on a closing one, comes to.
--   Methods: the serving side of a call, RegisterService, Handle, HandleService and CallServiceMethodDone
--     of ProtobufConnection.cpp, over Raw. Register: the table of handlers; Answer: the response; Serving
--     and Reading: the decoder's loop with these handlers, as one event of the connection; Late: services that
--     run their closure later.
--   Rpc: the calling side, `CallMethod`, `Handle` and the destructor of RawProtobufConnection.cpp,
--     `CallMethod` of ProtobufConnection.cpp, and the `RpcController` of Connection.hpp. Fresh: the search
--     for an identify; Times and Once: closures; Sending, Reply, Failing and RoundTrip: a call from one side
--     to the other and back; Exchange, Matching and Batch: several calls at once; Life, with Calling, Hearing,
--     Progress and Ended: all that may happen to a client that calls.
--   Threads: PCQueue.hpp, ThreadPool.hpp and Notifier.hpp of src/core/thread, with Pool and Notify.
--   Services: src/core/network/IOServicePool.hpp and .cpp, with Robin.
--   Server: src/server/network/Server.hpp and Server.cpp (`HandleAccept`, `ConnectionClosed`, `Stop`), with
--     Channels.
--   Acceptors: the rest of Server.hpp and Server.cpp, `Listen`, `AcceptorHandler`, `ReleaseAcceptor` and
--     the whole of `Stop`. Listening and Events: what may happen to a server that listens; Release: what is
--     freed.
--   ClientConnection: src/core/network/ClientConnection.hpp and .cpp, with Connect, and Silent for its timer.
--   Refs: src/core/Atomic.hpp, its operations in any interleaving, with Counting.
--   Clients: src/core/ConcurrentContainer.hpp and .cpp, Client.hpp, ViewPort.hpp and Clients.hpp of
--     src/server, and src/server/network/RpcServiceClients.hpp, with Registry.
--   Vector: src/core/TwoDVector.hpp, with Order and Distance.
--   Coordinate: src/core/Coordinate.hpp, with Axes.
--   Branch: Branch, Track and Node of src/core/model, with Len.
--   Programs: `main` of src/server/main.cpp and `User::DoRequest` of src/client/ClientMain.cpp, over the other
--     models. Serving: the server's side; Meeting and Ending: the client's request.
--   The Tests beside a part run its definitions and apply its theorems at concrete inputs.
--
-- Numbers, bounds and fuel. `int` and `size_t` are natural numbers, and a theorem says where it relies on a
-- bound; the comparison with the 64 bits of `upper` in `InternalAddTimer`, and the client's id as an `int`
-- and a `uint32`, have their wrap-around written out. `cascade_timers` has one round for each slot of the
-- list it empties and one for the last test, `decode_bytes` one for each byte of the read, `update` one for
-- each tick of the clock up to its argument, `fresh_identify` one for each call that waits and one more;
-- that they do not run out is proved. `none`, `spins`, `throws`, `undefined` and `terminated` are failures
-- of the code, such as a failed `CHECK`, not of the model.
--
-- Parameters. What the code calls outside the repository is an argument of the model: the protobuf runtime
-- and `lexical_cast` (`Codec`, with `IsCodec`), the timers' virtual methods (`Timers`), what `Handle` does
-- with a message, what other threads do while a connection holds no lock (`meanwhile`, with `IsOthers`, and
-- `IsThorough` and `IsCaller` where they may close it as this thread would),
-- the number type of a vector (`Numeric`, with `IsOrdered`), `double` arithmetic (`Measure`), the hash of a
-- method's name, a service (`Service`), and what `protoc` generates from general.proto (`Messages`, with
-- `IsMessages`, for numbers that `uint32` holds).
--
-- Not modelled: the entities of src/core/model that only have fields, hashing, logging,
-- `testLua`, and destructors that only check. Of the parts above: the socket options of `InitSocket`, the time
-- limit of a join, the type conversions of the protobuf classes, the loop of `InternalRun`, and a `Register` in the
-- gaps where `Update` has released its mutex: `Update` is one step. An exception of the decoder ends the process,
-- since nothing catches it; there a read has no result, and the theorems about whole reads suppose that no length
-- brings one about.
pub mod Base
pub mod Timer
pub mod Wire
pub mod Buffers
pub mod Raw
pub mod Methods
pub mod Rpc
pub mod Threads
pub mod Services
pub mod Server
pub mod Acceptors
pub mod ClientConnection
pub mod Clients
pub mod Refs
pub mod Vector
pub mod Coordinate
pub mod Branch
pub mod Programs
