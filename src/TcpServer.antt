-- ===== src/TcpServer.antt =====
-- TcpServer.h and TcpServer.cc. A loop and a connection are named by a number, and a `Net` is what
-- these numbers stand for: the loops and the connections of the process, with the callbacks that
-- each connection has called. The map keeps the address of a connection and the loop that it
-- belongs to, which never changes. The results of `accept4`, `listen` and `getsockname` are
-- arguments. Counters of type int stay below 2 ^ 31.
pub mod Entries
pub mod Names
pub mod Kept
pub mod Connections
pub mod Left
pub mod Pending
pub mod Closing
pub mod Refusal
pub mod Establishing
pub mod Accepting
pub mod Passing
pub mod Lifetime
pub mod Destructor
use head_write_muduo_epoll_c.Base.{
  ℕ, ◌+◌, Bool, true, false, Option, none, some, List, [], ◌∷◌, ◌++◌, take, ◌==◌, if◌then◌else◌,
  Outcome, ok, exited, ◌>>=◌, insert, erase, text_key,
}
use head_write_muduo_epoll_c.Kernel.{Epoll, EventFd, Decimal}
use head_write_muduo_epoll_c.Functor.{
  Functor, call_connect_established, call_connect_destroyed, call_remove_connection_in_loop,
  call_listen,
}
use head_write_muduo_epoll_c.EventLoop.{EventLoop, run_in_loop, queue_in_loop, each}
use head_write_muduo_epoll_c.EventLoopThreadPool.{EventLoopThreadPool, new_pool, get_next_loop}
use head_write_muduo_epoll_c.EventLoopThreadPool
use head_write_muduo_epoll_c.Acceptor.{
  Acceptor, Accepted, handed, closed, new_acceptor, set_new_connection_callback,
}
use head_write_muduo_epoll_c.Acceptor
use head_write_muduo_epoll_c.TcpConnection.{
  TcpConnection, Call, Session, set_connection_callback, set_message_callback,
  set_write_complete_callback, connect_established, connect_destroyed,
}
use head_write_muduo_epoll_c.TcpConnection
use head_write_muduo_epoll_c.InetAddress.{InetAddress, SockAddr, of_sock_addr}

pub record TcpServer : Type 0 where
  pub base_loop : ℕ
  pub ip_port : List ℕ
  pub name : List ℕ
  pub acceptor : Acceptor
  pub thread_pool : EventLoopThreadPool
  pub has_connection : Bool
  pub has_message : Bool
  pub has_write_complete : Bool
  pub has_thread_init : Bool
  pub started : ℕ
  pub next_conn_id : ℕ
  pub connections : List (List ℕ × (ℕ × ℕ))

-- TcpServer::Option.
pub data ReusePort : Type 0 where
  no_reuse_port reuse_port : ReusePort

abbrev is_reuse_port : ReusePort → Bool
is_reuse_port no_reuse_port = false
is_reuse_port reuse_port = true

-- The constructor, with the results of `socket` and `bind` and the address of the acceptor's channel.
unfoldable pub new_server :
    Option ℕ → Bool → ℕ → ℕ → List ℕ → List ℕ → ReusePort → Outcome TcpServer
new_server socket_fd bound channel_address base_loop ip_port name option =
    new_acceptor socket_fd bound channel_address (is_reuse_port option) >>= λ acceptor. ok (record {
      base_loop = base_loop;
      ip_port = ip_port;
      name = name;
      acceptor = set_new_connection_callback true acceptor;
      thread_pool = new_pool base_loop name;
      has_connection = false;
      has_message = false;
      has_write_complete = false;
      has_thread_init = false;
      started = 0;
      next_conn_id = 1;
      connections = [];
    })

unfoldable pub set_thread_init_callback : Bool → TcpServer → TcpServer
set_thread_init_callback is_set s = record s { has_thread_init = is_set }

unfoldable pub set_connection : Bool → TcpServer → TcpServer
set_connection is_set s = record s { has_connection = is_set }

unfoldable pub set_message : Bool → TcpServer → TcpServer
set_message is_set s = record s { has_message = is_set }

unfoldable pub set_write_complete : Bool → TcpServer → TcpServer
set_write_complete is_set s = record s { has_write_complete = is_set }

unfoldable pub set_thread_num : ℕ → TcpServer → TcpServer
set_thread_num n s = record s { thread_pool = EventLoopThreadPool.set_thread_num n s.thread_pool }

-- What `newConnection` learns of the two ends: what `getsockname` gives, none for -1, and the address
-- that `accept4` gave.
pub record Ends : Type 0 where
  pub sockname : Option SockAddr
  pub peer_addr : InetAddress

-- The `local` of `newConnection`, which `bzero` has cleared.
abbrev pub local_addr : Ends → InetAddress
local_addr ends = of_sock_addr (elim ends.sockname [
  | none ↦ record { sin_family = 0; sin_port = 0; sin_addr = 0 }
  | some local ↦ local
])

-- The four setters of `newConnection`.
unfoldable pub set_callbacks : TcpServer → TcpConnection → TcpConnection
set_callbacks s c = TcpConnection.set_close_callback true (
    set_write_complete_callback s.has_write_complete
      (set_message_callback s.has_message (set_connection_callback s.has_connection c)))

module _ (dec : Decimal) where
  -- `snprintf(buf, 64, "-%s#%d", ...)` keeps 63 characters.
  unfoldable pub conn_suffix : List ℕ → ℕ → List ℕ
  conn_suffix ip_port id = take 63 (b'-' ∷ (ip_port ++ (b'#' ∷ dec.print id)))

  unfoldable pub conn_name : TcpServer → ℕ → List ℕ
  conn_name s id = s.name ++ conn_suffix s.ip_port id

module _ (dec : Decimal) (ep : Epoll) (ef : EventFd) where
  pub record Net : Type 0 where
    pub loops : ℕ → EventLoop ep ef Functor
    pub conns : ℕ → TcpConnection
    pub calls : ℕ → List Call

  unfoldable pub put_loop : ℕ → EventLoop ep ef Functor → Net → Net
  put_loop l loop net = record net { loops = λ j. if j == l then loop else net.loops j }

  unfoldable pub put_conn : ℕ → TcpConnection → Net → Net
  put_conn a c net = record net {
    conns = λ j. if j == a then c else net.conns j;
    calls = λ j. if j == a then [] else net.calls j;
  }

  -- A member function of the connection at `a`, in the loop `l` that it belongs to.
  unfoldable pub on_conn : ℕ → ℕ → (Session ep ef → Outcome (Session ep ef)) → Net → Outcome Net
  on_conn a l member net =
      member (record { loop = net.loops l; conn = net.conns a; calls = net.calls a }) >>= λ t.
      ok (record {
        loops = λ j. if j == l then t.loop else net.loops j;
        conns = λ j. if j == a then t.conn else net.conns j;
        calls = λ j. if j == a then t.calls else net.calls j;
      })

  -- `loop->runInLoop` with a member function of a connection of that loop.
  unfoldable pub run_on_conn :
      ℕ → ℕ → ℕ → (Session ep ef → Outcome (Session ep ef)) → Functor → Net → Outcome Net
  run_on_conn tid a l member f net =
      run_in_loop ep ef Functor (on_conn a l member net) (λ loop. put_loop l loop net) tid f
        (net.loops l)

  -- The part of `newConnection` after the choice of the loop `io`, with the addresses of the new
  -- connection and of its channel.
  unfoldable pub connect_on : ℕ → ℕ → ℕ → ℕ → ℕ → Ends → TcpServer × Net → Outcome (TcpServer × Net)
  connect_on tid io address channel_address sockfd ends (s, net) =
      let name = conn_name dec s s.next_conn_id in
      let conn = set_callbacks s (
        TcpConnection.new_connection address channel_address name sockfd (local_addr ends)
          ends.peer_addr) in
      let s' = record s {
        next_conn_id = s.next_conn_id + 1;
        connections = insert name (address, io) s.connections;
      } in
      run_on_conn tid address io (connect_established ep ef) (call_connect_established address)
        (put_conn address conn net)
      >>= λ net'. ok (s', net')

  -- `getNextLoop` reads past the end of the vector where it has no loop to give; the pool's index
  -- never leaves it (EventLoopThreadPool/RoundRobin.antt), and that case is put as `exited`.
  unfoldable pub connect_chosen :
      ℕ → Option ℕ → ℕ → ℕ → ℕ → Ends → TcpServer × Net → Outcome (TcpServer × Net)
  connect_chosen tid none address channel_address sockfd ends w = exited
  connect_chosen tid (some io) address channel_address sockfd ends w =
      connect_on tid io address channel_address sockfd ends w

  unfoldable pub new_connection : ℕ → ℕ → ℕ → ℕ → Ends → TcpServer × Net → Outcome (TcpServer × Net)
  new_connection tid address channel_address sockfd ends (s, net) =
      let (chosen, pool) = get_next_loop s.thread_pool in
      connect_chosen tid chosen address channel_address sockfd ends
        (record s { thread_pool = pool }, net)

  -- What the acceptor does with an accepted descriptor, with the callback that the server has set.
  unfoldable pub on_accepted :
      ℕ
      → ℕ
      → ℕ
      → Option SockAddr
      → Accepted InetAddress
      → TcpServer × Net
      → Outcome (TcpServer × Net)
  on_accepted tid address channel_address sockname (handed connfd peer_addr) w =
      new_connection tid address channel_address connfd
        (record { sockname = sockname; peer_addr = peer_addr }) w
  on_accepted tid address channel_address sockname (closed connfd) w = ok w

  -- `Acceptor::handleRead`, as the read callback of the acceptor's channel runs it in the base loop.
  -- `blank` is the default address that `accept` overwrites.
  unfoldable pub handle_accept :
      ℕ
      → ℕ
      → ℕ
      → Option (ℕ × InetAddress)
      → InetAddress
      → Option SockAddr
      → TcpServer × Net
      → Outcome (TcpServer × Net)
  handle_accept tid address channel_address result blank sockname (s, net) =
      Acceptor.handle_read result blank s.acceptor >>= λ o.
      on_accepted tid address channel_address sockname o (s, net)

  unfoldable pub remove_connection_in_loop : ℕ → ℕ → ℕ → TcpServer × Net → TcpServer × Net
  remove_connection_in_loop tid address io (s, net) = (
    record s { connections = erase (net.conns address).name s.connections },
    put_loop io (queue_in_loop ep ef Functor tid (call_connect_destroyed address) (net.loops io))
        net,
  )

  unfoldable pub remove_connection : ℕ → ℕ → ℕ → TcpServer × Net → Outcome (TcpServer × Net)
  remove_connection tid address io (s, net) =
      run_in_loop ep ef Functor (ok (remove_connection_in_loop tid address io (s, net)))
        (λ loop. (s, put_loop s.base_loop loop net)) tid (call_remove_connection_in_loop address)
        (net.loops s.base_loop)

  -- `Acceptor::listen` in the base loop.
  unfoldable pub listen_now : Bool → TcpServer × Net → Outcome (TcpServer × Net)
  listen_now listens (s, net) =
      Acceptor.listen ep ef listens (net.loops s.base_loop) s.acceptor >>= λ r.
      ok (record s { acceptor = r.1 }, put_loop s.base_loop r.0 net)

  unfoldable pub start : ℕ → (ℕ → ℕ) → Bool → TcpServer × Net → Outcome (TcpServer × Net)
  start tid start_loop listens (s, net) =
      if s.started == 0
      then (let s' = record s {
        started = 1;
        thread_pool =
            EventLoopThreadPool.start dec.print start_loop s.has_thread_init s.thread_pool;
      } in
          run_in_loop ep ef Functor (listen_now listens (s', net))
            (λ loop. (s', put_loop s'.base_loop loop net)) tid call_listen (net.loops s'.base_loop))
      else ok (record s { started = s.started + 1 }, net)

  -- The destructor: every connection of the map is destroyed in its own loop. The map itself goes
  -- with the server.
  unfoldable pub destroy_server : ℕ → TcpServer × Net → Outcome Net
  destroy_server tid (s, net) =
      each
        (λ item n.
          run_on_conn tid item.1.0 item.1.1 (connect_destroyed ep ef)
            (call_connect_destroyed item.1.0) n)
        s.connections net
