-- ===== src/Lib.antt =====
-- A reactor network library for Linux, after muduo: handWriteMuduo/*.h and handWriteMuduo/*.cc.
--
-- The program. An EventLoop (EventLoop.cc) belongs to one thread and repeats: wait in its poller
-- (EPollPoller.cc, over epoll), let each active Channel (Channel.cc) call its callbacks, and call
-- the functors that were queued for it. Another thread queues a functor and writes to an eventfd,
-- which makes the wait come back. A TcpConnection (TcpConnection.cc) owns a descriptor, its channel
-- and two Buffers (Buffer.h, Buffer.cc): input is read into one, and what the kernel does not take
-- of the output waits in the other until epoll reports room. An Acceptor (Acceptor.cc) takes new
-- descriptors, and an EventLoopThreadPool (EventLoopThreadPool.cc) hands its loops out in turn. A
-- TcpServer (TcpServer.cc) puts these together: it names each new connection, keeps it in a map,
-- gives it to a loop of the pool, and forgets it when it closes. The example
-- (handWriteMuduo/example/testserver.cc) is a server that echoes a message and then shuts its side.
--
-- The files. Base.antt: tests, lists and maps over the native numbers, the arithmetic of size_t,
-- and calls that may end the process (LOG_FATAL calls exit). Kernel.antt: what is relied on of
-- epoll, eventfd, snprintf and the address functions of the C library, as records with laws that
-- the definitions take as parameters. Buffer.antt, Channel.antt, Poller.antt (Poller.cc,
-- EPollPoller.cc and DefaultPoller.cc), EventLoop.antt, Socket.antt, TcpConnection.antt,
-- EventLoopThreadPool.antt, Acceptor.antt, TcpServer.antt, CurrentThread.antt, InetAddress.antt,
-- Logger.antt, Timestamp.antt and Thread.antt: the source file of that name, a record for its state
-- and a function for each member function, by the same name in lower case (`sendInLoop` is
-- `send_in_loop`, `connectDestoryed` is `connect_destroyed`). EchoServer.antt: the example.
-- Functor.antt: the functors that the program queues, and TcpConnection/Queued.antt what calling
-- one does to a connection. TcpConnection/Handling.antt joins `Channel::handleEvent` to the
-- handlers of a connection, and TcpConnection/Life.antt has every sequence of calls in its life as
-- a step relation. The children of each hold its theorems; EventLoop/Threads.antt has the
-- interleavings of the loop thread with others, Thread/Handshake.antt those of `Thread::start`, and
-- EventLoopThread.antt those of `startLoop`, `threadFunc` and the destructor of EventLoopThread.cc.
-- TcpServer/Closing.antt follows a connection that its peer closes through the loops, where a loop
-- calls a functor only if it is pending there (TcpServer/Pending.antt),
-- TcpServer/Lifetime.antt says who holds a TcpConnectionPtr meanwhile, TcpServer/Destructor.antt is
-- what the destructor leaves to them, and TcpServer/Accepting.antt follows a descriptor from
-- `accept4` to its connection, and TcpServer/Passing.antt on to its end. Tests.antt: a small kernel
-- and the theorems at concrete inputs.
--
-- How it is modelled. A size_t sum or difference is taken modulo 2 ^ 64, and a vector is shorter than
-- 2 ^ 63. An event mask is a number below 32 as reported and below 8 as asked for; its bit
-- operations are checked by evaluation over all of these. The result of a system call (`readv`,
-- `write`, `accept4`, `epoll_wait`, `bind`) is an argument of the operation that makes it, and what
-- is relied on of it is a named hypothesis (`Filled`, `Accepts`). A result is wrapped in an Outcome,
-- which is `exited` where the process ends; `Returns` says that there is a result and what holds of
-- it, `OkUnless` that there is one unless a named failure has occurred, and `IfOk` only what holds of
-- it. `loop` takes the list of the results of `epoll_wait`; it
-- yields none if they run out before `quit_` is set, and `drain` takes one count for each report of
-- room to write. The interleavings begin in `loop` with the functors that were queued before it. A
-- callback of a client is recorded when it is called, and what it does is a later
-- step.
--
-- Not modelled: the log lines of the other components, the times that `poll` returns, the close of
-- descriptors, memory that runs out, and the copies of a TcpConnectionPtr that a client keeps.
-- The interleavings of `shutdown`'s test and assignment with the calls between them are left out of
-- TcpConnection/Life.antt, but for the theorem that says so. Callbacks.h and noncopyable.h only name types and forbid copies.
pub mod Base
pub mod Kernel
pub mod Buffer
pub mod Channel
pub mod Poller
pub mod EventLoop
pub mod Socket
pub mod Functor
pub mod TcpConnection
pub mod EventLoopThreadPool
pub mod Acceptor
pub mod CurrentThread
pub mod EventLoopThread
pub mod TcpServer
pub mod EchoServer
pub mod Thread
pub mod InetAddress
pub mod Timestamp
pub mod Logger
pub mod Tests
