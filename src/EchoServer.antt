-- ===== src/EchoServer.antt =====
-- example/testserver.cc: a server that sends each message back and then shuts its side. The
-- connection callback only logs. `main` makes a loop and the server, starts it and runs the loop, so
-- it is `new_echo_server`, `start` and `EventLoop.loop` one after the other.
pub mod Echoes
pub mod Reads
pub mod First
use head_write_muduo_epoll_c.Base.{ℕ, Bool, Option, List, Outcome, ok, ◌>>=◌}
use head_write_muduo_epoll_c.Kernel.{Epoll, EventFd, Decimal}
use head_write_muduo_epoll_c.Buffer.{Written, retrive_all_string}
use head_write_muduo_epoll_c.TcpConnection.{Session, send, shutdown}
use head_write_muduo_epoll_c.TcpServer.{TcpServer, Net, new_server, set_thread_num, no_reuse_port}
use head_write_muduo_epoll_c.TcpServer

pub record EchoServer : Type 0 where
  pub loop : ℕ
  pub server : TcpServer

-- The constructor, with the results of `socket` and `bind` and the address of the acceptor's channel.
unfoldable pub new_echo_server : Option ℕ → Bool → ℕ → ℕ → List ℕ → List ℕ → Outcome EchoServer
new_echo_server socket_fd bound channel_address loop ip_port name =
    new_server socket_fd bound channel_address loop ip_port name no_reuse_port >>= λ server.
    ok (record { loop = loop; server = set_thread_num 3 server })

module _ (dec : Decimal) (ep : Epoll) (ef : EventFd) where
  unfoldable pub start :
      ℕ → (ℕ → ℕ) → Bool → EchoServer × Net dec ep ef → Outcome (EchoServer × Net dec ep ef)
  start tid start_loop listens (e, net) =
      TcpServer.start dec ep ef tid start_loop listens (e.server, net) >>= λ r.
      ok (record e { server = r.0 }, r.1)

module _ (ep : Epoll) (ef : EventFd) where
  -- `result` is what `write` does, if `send` calls it.
  unfoldable pub on_message : ℕ → Written → Session ep ef → Outcome (Session ep ef)
  on_message tid result s =
      let (msg, rest) = retrive_all_string s.conn.input in
      send ep ef tid result msg (record s { conn = record s.conn { input = rest } }) >>= λ t.
      shutdown ep ef tid t
