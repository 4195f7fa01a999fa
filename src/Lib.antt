-- ===== src/Lib.antt =====
-- A verification library for chain-socket, a C++ library for network IO with a buffer for each
-- session, a poller that drives the sessions, a timer heap and a hub that connects and dispatches.
--
-- The parts and the files that model them, with paths from the repository's root:
--
-- * Buffer (code/ChainSocket/Buffer.h, Buffer.cpp): `MessageBuffer`, the bytes waiting to be sent
--   or read. The block is a list of bytes behind `Option`, null being `none`. The C allocator is a
--   parameter, the record `Allocator`, with what the C standard says of malloc and realloc.
-- * Timer (code/ChainSocket/Timer.h, Timer.cpp): `Timer`, `TimerManager` and the binary heap of
--   expiry times. Timers live in a store under numbers that stand for their addresses, since the
--   heap and the owner of a timer share it; heapIndex_ is a field that the heap operations keep.
--   What a timer's function does to the manager is a parameter, and so is the clock.
-- * Session (code/ChainSocket/Buffer.h): `Session`, with its two buffers.
-- * Poller (code/ChainSocket/Poller.h, Poller.cpp, EpollPoller.cpp): the table of sessions, the
--   event loop (`step` is one event of loopOnce) and its interest in events. Sessions are named by
--   their index. The callbacks are the parameter `Handlers`, which may change the poller; the
--   answers of recv, send and accept are lists in the poller's `Kernel`, which also logs the calls
--   of epoll_ctl and close. epoll_wait's report is the argument of `loop_once`.
-- * Connect (code/ChainSocket/MsgHub.h, MsgHub.cpp, socketInfo.h): `ConnectPoller`, the sockets
--   that are still connecting. std::map is a list in the order of its keys (Base/Map.antt). The
--   clock, what send gives for a socket and what becomes of connect() are parameters.
-- * Hub (code/ChainSocket/MsgHub.h, MsgHub.cpp): `MsgHub`, a poller with a poller of connects. Its
--   `onConnect` and `onConnectFailed` are the parameter `HubHandlers`; the class's own callbacks
--   are functions that fill it and the poller's `Handlers`.
-- * WebSocket (code/example/wsserver/websocket.h, websocket.cpp): wsMakeFrame, getPayloadLength
--   and wsParseInputFrame over lists of bytes. A frame that is handed on is unmasked in place in
--   the source and a new list here.
-- * WebSocketPoller (code/example/wsserver/WebSocketPoller.hpp): onRecv's loop over the frames of a
--   read buffer (`on_frames`), sendMsg and memstr. onReadMsg and onHandShake are the parameter
--   `MessageHandlers`. The loop has fuel, one round for each frame and one more.
-- * WebSocket/Base64, WebSocket/Sha1 (code/example/wsserver/websocket.h): base64 and sha1 over
--   lists of bytes, with the wrap-around of 32 and 64 bits written out. WebSocket/Sha1/Fips is the
--   standard, written without the functions of the code.
-- * SelectPoller (code/ChainSocket/SelectPoller.h, SelectPoller.cpp): the back end over select(). The
--   clients are a list in the order of their sockets; the outer loop takes its rounds from a list
--   of what select() does and what the clock shows in them.
-- * WebSocket/Handshake (code/example/wsserver/websocket.cpp): wsParseHandshake and
--   wsGetHandshakeAnswer. A pointer into the request is the list of the bytes behind it.
-- * WebSocketPoller/Opening (code/example/wsserver/WebSocketPoller.hpp): the opening handshake of a
--   session, and onRecv as a whole. The state of a session is its userData: 0 is
--   WS_WAIT_HANDSHAKE_WAIT, 1 is WS_WAIT_HANDSHAKE_REQ, 2 is WS_WAIT_FRAME.
-- * Hub/Tasks (code/ChainSocket/MsgHub.h, MsgHub.cpp): onTask, which runs one task that another
--   thread has left. What try_dequeue of the queue gives is an argument.
-- * IocpPoller (code/ChainSocket/IOCPPoller.h, IOCPPoller.cpp): the poller of Windows. IocpPoller has
--   the table and its ids, IocpPoller/Traffic reads and sends, IocpPoller/Accept serves a
--   listening socket, IocpPoller/Loop is loopOnce, listenTo, init, reset and stop. A pointer to a
--   session is its index; an entry of the completion port belongs to the session in the slot of
--   its key.
-- * Connect/Result (code/ChainSocket/MsgHub.cpp, Timer.cpp): getResult, which is DetectTimers of the
--   manager whose only timer is that of the checks, with checkAllStatus as its function. Hub/Wait
--   (code/ChainSocket/MsgHub.cpp): waitMsg, which runs getResult, processConnectSockets and
--   loopOnce one behind the other.
-- * Hub/Reach (code/ChainSocket/MsgHub.cpp): a new hub, and the hubs that calls of connectTo, waitMsg
--   and onTask reach from it, as a step relation. Timer/New and Poller/Start say how its parts start.
-- * KqueuePoller (code/ChainSocket/KqueuePoller.h, KqueuePoller.cpp): the back end over kqueue, with
--   the changes given to kevent() as a list and its answer as an argument.
--
-- Conventions. A call ends in an `Outcome` (Base/Outcome.antt): a value, `aborted` for abort() and
-- failed asserts, `fault` for undefined behaviour, `no_fuel` where a loop of the model was cut off.
-- Lengths and sizes that the code keeps in an `int` and never makes negative are natural numbers;
-- a sum past INT_MAX is a fault. Unsigned 64-bit numbers wrap by `% 2 ^ 64`.
-- Fuel: a sift of Timer.cpp takes at most one round for each entry, which its callers give it;
-- DetectTimers gets its fuel from outside, and a theorem says how much is enough.
-- onRecv's loop over frames gets its fuel from outside too. wsParseHandshake takes one round for
-- each byte and one more, and a theorem says that it ends.
-- getResult takes two rounds at most, and a theorem says so; postSend of the Windows poller takes
-- one round for each answer of send and one more.
-- The memory that malloc returns for a session is the parameter `garbage` of Poller and Hub. Session's
-- reset frees and calls what its pointers point to, so that it is a fault unless they are null;
-- theorems that make sessions have this as a hypothesis.
--
-- Not modelled: the vendored queue (Queue.h, BlockQueue.h), Catch (catch.hpp) and websocketpp
-- (frame.hpp), console output (Log.cpp), and the wrappers of system calls
-- (SystemInterface.hpp, Ip.cpp), whose results are parameters where the code depends on them.
-- Nor are the queue that holds the tasks of MsgHub, and the callbacks of the examples (echo.hpp).
mod Base
pub mod Buffer
pub mod Timer
pub mod Session
pub mod Poller
pub mod IocpPoller
pub mod Connect
pub mod Hub
pub mod WebSocket
pub mod WebSocketPoller
pub mod SelectPoller
pub mod KqueuePoller
