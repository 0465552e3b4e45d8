-- ===== src/Lib.antt =====
-- A model of socket-dispatcher: a listener process accepts TCP clients and passes their descriptors
-- over a UNIX socket to a dispatcher process, which talks to them over TLS sockets.
--
-- The files and the code they are about:
--   Prelude, Prelude/*      names of the libraries, native lists and Booleans, C integers, memory
--   Socket                  Socket.h, Socket.cpp, SslSocket.h: `Socket`, its poll bits, its class
--   World, World/Outcomes   what a process shares: the heap of sockets, the calls it has made, the
--                           ways in which a run ends
--   World/Ledger            the descriptors that the calls made so far have left open: those of
--                           `socket` and `accept`, and those that a message announces
--   World/Quiet             properties that calls which open and close nothing keep; the Quiet
--                           module of a component has its rules
--   World/Ownership         which objects answer for the open descriptors; the Ownership module of a
--                           component has its rules, and SocketUtils/Holding those for the
--                           pointers and lists that keep an object alive
--   SocketsList             SocketsList.h: `putSocket` is put_socket, `delSocket` is del_socket
--   Poller                  SocketsPoller.cpp: `pollSockets` is poll_sockets
--   SocketUtils             SocketUtils.cpp, SslSocket.cpp, Socket.cpp: `read`, `write` (write_message),
--                           the constructors of SslSocket (make_ssl_socket, wrap_ssl), destructors
--                           (destroy)
--   SocketFactory           `createSocket` of TcpListenerSocketFactory.cpp (create_tcp_listener),
--                           TcpSslListenerSocketFactory.cpp (create_tcp_ssl_listener),
--                           UnixListenerSocketFactory.cpp (create_unix_listener),
--                           UnixSocketFactory.cpp (create_unix_socket) and
--                           TcpSslConnectSocketFactory.cpp (create_ssl_connection); `setnonblocking`
--                           of utils.cpp
--   SocketFactory/Factories the factories as objects, their `create...Factory` functions and the
--                           virtual `createSocket` (create_socket)
--   Client                  mydisp.cpp: `processClient` is process_client
--   Ssl                     InitSsl.cpp: `createContext`, `createClientContext`, `dropContext`
--   Config                  ApplicationConfig.cpp, and `processConfig` of mydisp.cpp
--   Passing                 `sendSocket` of SocketUtils.cpp is send_socket; `createSocket` of
--                           ReceivedTcpSocketFactory.cpp is receive_socket
--   Dispatcher              mydisp.cpp: `dispatcherProcess` is dispatcher_process; the main loop is run
--   Dispatcher/Main         `main` of mydisp.cpp around its loop (dispatcher_main)
--   Listener                mylsnr.cpp: `processClientConnection`, `processDispatcherConnection`,
--                           `processSockets`, `sayGoodbyeToAllDispatchers` under the same names in
--                           snake case (say_goodbye), and `acceptConnection` of the listening
--                           sockets (accept_connection)
--   Listener/Main           `main` of mylsnr.cpp (listener_main) with its loop (run),
--                           `create_dispatcher` and `wait_disp_child`
--   ClientProgram           myclnt.cpp: `main` is client_main, its loop chat
--   Tests, Tests/*          concrete worlds, runs in them, and the theorems at concrete inputs
-- A child module, such as Client/Session, holds proofs about its parent.
--
-- State is passed explicitly. A `World` is the state of one process: its `Socket` objects in a heap
-- where a `Socket::Ptr` is a number (so that two lists share one object, as the shared pointers do),
-- and the trace of its calls of the system and of OpenSSL. The answers to these calls are a
-- parameter, the record `Os`, and may depend on everything called before. Failing assertions,
-- overrun buffers, a null pointer that is followed and a BIO that is released twice are values of
-- `Result`. `SSL_new` gives a null pointer exactly where it is handed no context: that memory runs
-- out inside OpenSSL is left out. `errno` counts only where the code tests it, in `pollSockets`.
--
-- Reference counts are not kept: an object is destroyed where the source drops its last pointer,
-- which the model works out from the lists that can hold it (`release`, `enter_client`).
--
-- The main loops run for a number of rounds, since nothing in them bounds it. The dispatcher's `run`
-- stops where it stands when they are used up, and the listener's halts with out_of_fuel; each of its
-- rounds polls once, so a request to exit that comes at the call `limit` leaves at most `limit` + 1
-- rounds. `receive_socket` takes a number of rounds for the loop around `recvmsg`, and
-- Passing/Waiting and Passing/Arrival are about how many it needs. The client's loop ends with what
-- is typed. Bytes are numbers; the descriptors, byte counts and error codes of the source are only
-- compared, negated or reduced to a byte, so they are integers without a width, except that
-- `createContext` returns the low 32 bits of its error, and ports and queue lengths are taken to 16
-- bits.
--
-- The two processes meet in what one writes and the other reads: the configuration message
-- (Listener/Configuration, Dispatcher/Setup) and the passed descriptors (Passing/Transfer,
-- Dispatcher/Entry). The decimal text that `snprintf` makes of the process id is a parameter, `pid`.
--
-- A child that `fork` makes ends in `execl`, a halt of the model; the parent goes on. Whether SIGINT
-- has come is an answer of the system to the calls made so far.
--
-- Not modelled: logging; the signal handlers, but for the request to exit; which bytes the
-- kernel and OpenSSL really deliver, and when; what happens after a null pointer is followed.
pub mod Prelude
pub mod Socket
pub mod World
pub mod SocketsList
pub mod Poller
pub mod SocketUtils
pub mod Client
pub mod Ssl
pub mod Config
pub mod Passing
pub mod SocketFactory
pub mod Dispatcher
pub mod Listener
pub mod ClientProgram
pub mod Tests
