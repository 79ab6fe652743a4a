-- ===== src/Lib.antt =====
-- Verification of ThreadAndNet, a C++ network library in the reactor style. One thread runs an event
-- loop: it polls descriptors, dispatches their events to channels, and the channels' owners (timer
-- queue, connections, connectors) change their state and their channel's interest in turn.
--
-- The parts, with the files of ThreadAndNetWorkCoding/ that they model:
-- * Buffer (zdq_buffer.h, zdq_buffer.cpp): the byte buffer of a connection. `read_index` and
--   `write_index` are `readIndex_` and `writeIndex_`; one definition for each member function, in
--   snake case. `movetohead`'s loop has a fuel of `writeIndex_`, more than the bytes it moves. A
--   `size_t` is taken modulo 2 ^ 64, and one passed as an `int` goes through `as_int`.
-- * Channel (zdq_channel.h, zdq_channel.cpp): the event mask, its operations, and the callbacks that
--   `handleEvent` runs.
-- * Poller (zdq_poller.h, zdq_poller.cpp, and the checks of `EventLoop::updateChannel` and
--   `EventLoop::removeChannel`): the slots for poll(2), the map from descriptors to channels, and the
--   channels in a heap. A channel's `update` and `remove` come in here.
-- * Timestamp (zdq_timestamp.h, zdq_timestamp.cpp, and `howMuchTimeFromNow` of zdq_timer.cpp): times
--   in microseconds.
-- * TimeQueue (zdq_time_queue.h, zdq_time_queue.cpp, zdq_timer_info.h): the set of timers, ordered by
--   time and address, over a heap of `TimerInfo`; what a callback adds is a parameter, `calls`.
--   `requested` is the time that `resetTimerfd` was given last; Timestamp has the delay made of it.
-- * TcpConnection (zdq_tcp_connection.h, zdq_tcp_connection.cpp): a connection's state machine, its
--   two buffers, and the bytes on the wire. The results of `::write` and `readv` are arguments.
--   TcpConnection.Closing has what `handleClose` and `connectDestroyed` do in the poller.
-- * Connector (zdq_connector.h, zdq_connector.cpp): the attempts to connect, with the descriptors
--   they use and the timers between them. The socket's number and `errno` are arguments.
--   Connector.Polling has what `connecting` and `removeAndResetChannel` do in the poller.
-- * EventLoop (zdq_event_loop.h, zdq_event_loop.cpp, and the wake-up of zdq_timer.cpp): the functors
--   that threads hand to a loop, `quit`, and the loop's cycle, as a step relation in which a call of
--   another thread may come at any point of the cycle; and `runAt` and its kin over the TimeQueue.
--   Before it is called, `loop` may have functors already (`Before`).
--   EventLoop.Halves takes such a call apart into its change and its write to the descriptor.
-- * EventLoopThreadPool (zdq_eventloop_threadpool.h, zdq_eventloop_threadpool.cpp): the rotation.
-- * ThreadPool (zdq_thread_pool.h, zdq_thread_pool.cpp): the bounded queue of tasks, with a step for
--   each critical section of a thread; ThreadPool.Threads has the steps inside the sections, for any
--   number of threads over one Lock, and ThreadPool.Signals which waiting thread a `notify` wakes.
--   A worker's task may call `addTask` and `stop`; a pool that is started again after `stop` is left out.
-- * Lock (zdq_mutex.h, zdq_condition.h): the mutex with its flag, and the halves of a wait.
-- * BlockingQueue (zdq_blocking_queue.h): `put` and `take` as steps of any number of threads.
-- * EventLoopThread (zdq_eventloop_thread.h, zdq_eventloop_thread.cpp): the hand-over of the loop's
--   pointer from the new thread to its owner, and the destructor, as steps of the two threads.
-- * TcpServer (zdq_tcp_server.h, zdq_tcp_server.cpp): the map of connections, over the pool of loops
--   and the connections of TcpConnection.
-- * TcpClient (zdq_tcp_client.h, zdq_tcp_client.cpp): a connector and a connection, and the retry.
-- * InetAddress (zdq_inet_address.h): addresses; the library's conversions are parameters.
-- * Acceptor (zdq_acceptor.h, zdq_acceptor.cpp, `Socket::Accept` of zdq_socket.h): the descriptors
--   that `accept` returns.
-- * Thread (zdq_thread.h, zdq_thread.cpp): its two flags, and what they make of the system's thread.
-- * Atomic (zdq_atomic.h): `AtomicIntegerT` over a signed integer of `w + 1` bits.
-- * Timer (zdq_timer.h, zdq_timer.cpp): the class, and the loop of `runTimer` over what `poll` reports,
--   a list, so that the loop needs no fuel.
-- * Socket (zdq_socket.h, zdq_socket.cpp): the socket's calls and options. Whether a system call
--   succeeds is an argument.
-- * Echo (demos/echo/echo_server.cpp): the echo server's callbacks, on a connection of TcpConnection.
-- Prelude holds the names, tests and list lemmas that these share. In each part a result of `none`
-- is the end of the process, by a failed assert, an exit, or a use of a pointer or slot that is not
-- there; in Lock it may be a thread that blocks. Each part has its definitions in the file of its
-- name, its proofs in the folder of that name, and there an Examples file that applies the theorems to
-- small states.
--
-- But for EventLoop, ThreadPool, BlockingQueue, EventLoopThread and TcpServer, everything is seen from
-- the loop's thread. Not modelled: three calls of Socket (`Connect`, `connectFdAndAddr` and
-- `createNonblockingOrDie`) that return what one system call does; `Timestamp::toString` and the names
-- of a client's connections, whose formats do not fit their arguments; the empty HTTP classes; and the
-- tests, which are programs to run by hand. Double intervals are given by their sign and by the
-- microseconds that `nowAfter` makes of them.
pub mod Prelude
pub mod Buffer
pub mod Channel
pub mod Poller
pub mod Timestamp
pub mod TimeQueue
pub mod TcpConnection
pub mod Connector
pub mod EventLoop
pub mod EventLoopThreadPool
pub mod ThreadPool
pub mod Lock
pub mod BlockingQueue
pub mod EventLoopThread
pub mod TcpServer
pub mod TcpClient
pub mod InetAddress
pub mod Acceptor
pub mod Thread
pub mod Atomic
pub mod Timer
pub mod Echo
pub mod Socket
