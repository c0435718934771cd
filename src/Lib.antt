-- ===== src/Lib.antt =====
-- A SOCKS5 proxy (libevent, C++): a client connects, greets, logs in with a name and a password, and
-- asks for a TCP stream to an address; the proxy connects there and moves bytes both ways.
--
-- The parts and the files that model them. The sources are under src/ of the repository.
--   Base: shared names; Base/Buffer: vectors of bytes with checked reads and writes. An operation of
--     a coder is an Outcome: `ok`, `refused` (return false), `bad_variant` (std::get throws) or
--     `out_of_bounds` (what C++ leaves undefined).
--   Types, Types/Codes: SocksTypes.h, SocksCommon.cpp.
--   Decoder (SocksDecoder.cpp), Encoder (SocksEncoder.cpp): the `decode` and `encode` overloads, one
--     function each. Wire: the byte formats, written down apart from both; Wire/Prefixes: where
--     a message ends. RoundTrip: both together.
--   StateMachine (StateMachine.cpp): the conversation with a client. Its methods are functions on an
--     arbitrary world, in which the owner that they call may call back. StateMachine/Recorder puts it
--     beside an owner that records its calls.
--   Tracker (InConnTracker.cpp) owns the machine and sends what it answers. Proxy (TcpStreamProxy.cpp,
--     DirectedProxyConnection.cpp) moves the bytes; Proxy/Ending: its two sockets. Session
--     (Session.cpp) owns both: its world is the session itself, with a trace of what it makes other
--     objects do, newest first, and a flag `dangling` for a use of the session after it was deleted.
--     Session/Fragments: messages that TCP cuts up or joins; Session/Replies: what the client receives;
--     Session/Destruction: how often it is deleted; Session/Origins: which events its effects come from;
--     Session/Reaching: from a command to libevent.
--   Split (libratel/StringUtils.cpp), Accounts (SocksLoginPassAuthorizer.cpp): the file of logins;
--     Accounts/Logins/Table: its map without the order of the list that stands for it.
--   SocketAddress (Event/EventSocketCommon.cpp): addresses of sockets. Socket
--     (Event/EventSocketConnected.cpp): a connection of the event loop; Socket/Plain: its variant in
--     Event/EventSocket.cpp. Manager (SessionMng.cpp, Event/EventTcpServer.cpp): the sessions and the
--     connections in their maps; Manager/Independence and Manager/Serving: one session among others;
--     Manager/Protection: every session.
--   Program (main.cpp, LoggerAdapter.cpp): the arguments, and the levels and sinks of the log.
--     SignalListener (Event/EventSignalListener.cpp): the events of signal numbers.
--   Maps: std::unordered_map as an association list, with its laws.
--   What follows is of libratel, and the proxy does not use it.
--   Memory (libratel/MemReader.cpp, MemWriter.cpp, Serialization.cpp): cursors over memory.
--   Optional (libratel/Optional.h): the union and the flag of an optional, and its comparisons.
--     Optional/Lifetimes: two of them and what is done with them.
--   Queue (libratel/ConcurrentQueue.h): a queue with waiting threads. Each stretch of code under the
--     mutex is an action, and any list of actions an interleaving.
--   Signals (libratel/NQSignals/Private/SignalConnectionStorage.h, SignalCallback.h, SignalHash.h):
--     which slots are connected to which signal; Signals/Links sets it against a map. Signals/Object
--     (NQSignals/NQObject.h): objects that connect, emit and go away. Signals/Handler
--     (NQSignals/Private/SignalHandler.cpp): the loop that calls signals; Signals/Handler/Threads: that
--     loop in a thread of its own.
--   TcpServer, BaseSocket, ExSocket (libratel/TcpServer.cpp, TcpSocket.cpp): two older servers, their
--     sockets, and their loops round `select`. What the system does in a round is given as a record.
--     TcpServer/Accounting: the clients that the loop accepts, over all its rounds.
--   Tests: the theorems at concrete inputs.
--
-- A byte is a number below 256 and a uint16_t is two bytes of a little-endian host. Loops are
-- structural, but for these: read_methods runs over the bytes left; split_rest has fuel, one more
-- than the length of the string, as every round but the last uses up a delimiter; run_once and loop of
-- Signals/Handler have fuel, one round for each signal (Signals/Handler/Loop says how much run_once
-- needs); the loops of the older servers run over a list of rounds, and say where they stand after it.
--
-- Not modelled: what the log says; libevent, its loop and listener, and the texts of addresses, whose
-- calls are parameters; threads, but for those of Queue
-- and of Signals/Handler/Threads; the Windows variants;
-- libratel/Event2Server.cpp, which is commented out in full. The authorizer of Session is a parameter,
-- which Session/Trust/Listed fills with that of Accounts. A session gets no event after its end, when
-- its connections go with it.
mod Base
pub mod Split
pub mod Accounts
pub mod SocketAddress
pub mod Socket
pub mod Types
pub mod Decoder
pub mod Encoder
pub mod Wire
pub mod RoundTrip
pub mod StateMachine
pub mod Tracker
pub mod Proxy
pub mod Session
pub mod Maps
pub mod Manager
pub mod Memory
pub mod Queue
pub mod Optional
pub mod Signals
pub mod TcpServer
pub mod BaseSocket
pub mod ExSocket
pub mod SignalListener
pub mod Program
pub mod Tests
