-- ===== src/TcpServer/Kept.antt =====
-- TcpServer.cc: a new connection keeps its name while it is established.
use head_write_muduo_epoll_c.Base.{
  ℕ, ◌≡◌, refl, inl, inr, Bool-cases, List, arith, IfOk, IfOk-always, IfOk-bind, text_key, ==_refl,
}
use head_write_muduo_epoll_c.Kernel.{Epoll, EventFd, Decimal}
use head_write_muduo_epoll_c.Functor.{Functor}
use head_write_muduo_epoll_c.EventLoop.{run_in_loop, is_in_loop_thread}
use head_write_muduo_epoll_c.TcpConnection.{
  Session, connect_established, set_state, with_channel, note_call, connected, TcpConnection,
  set_write_complete_callback, set_connection_callback, set_message_callback,
}
use head_write_muduo_epoll_c.TcpConnection
use head_write_muduo_epoll_c.TcpServer.{
  Ends, local_addr, set_callbacks, TcpServer, Net, put_loop, put_conn, on_conn, run_on_conn,
}

module _ (dec : Decimal) (ep : Epoll) (ef : EventFd) where
  connect_established-name :
      (s : Session ep ef)
      → IfOk (λ (t : Session ep ef). t.conn.name ≡ s.conn.name) (connect_established ep ef s)
  unfolding connect_established set_state with_channel note_call
  connect_established-name s =
      IfOk-always (λ (t : Session ep ef). t.conn.name ≡ s.conn.name) _ _ λ r. refl

  on_conn-name :
      (a l : ℕ) (net : Net dec ep ef)
      → IfOk
          (λ (n : Net dec ep ef). (n.conns a).name ≡ (net.conns a).name)
          (on_conn dec ep ef a l (connect_established ep ef) net)
  unfolding on_conn
  on_conn-name a l net =
      IfOk-bind (λ (t : Session ep ef). t.conn.name ≡ (net.conns a).name) _ _ _
        (connect_established-name
          (record { loop = net.loops l; conn = net.conns a; calls = net.calls a }))
        λ t e. ground (arith, e)

  pub run_on_conn-name :
      (tid a l : ℕ) (f : Functor) (net : Net dec ep ef)
      → IfOk
          (λ (n : Net dec ep ef). (n.conns a).name ≡ (net.conns a).name)
          (run_on_conn dec ep ef tid a l (connect_established ep ef) f net)
  unfolding run_on_conn run_in_loop put_loop
  run_on_conn-name tid a l f net =
      elim (Bool-cases (is_in_loop_thread ep ef Functor (net.loops l) tid)) [
        | inl here ↦ rw here (on_conn-name a l net)
        | inr there ↦ rw there refl
      ]

  pub new_conn-name :
      (address channel_address sockfd : ℕ) (ends : Ends) (name : List ℕ) (s : TcpServer)
      (net : Net dec ep ef)
      → ((put_conn dec ep ef address
            (set_callbacks s (
              TcpConnection.new_connection address channel_address name sockfd
                (local_addr ends)
                ends.peer_addr))
            net).conns
          address).name
        ≡ name
  unfolding put_conn set_callbacks TcpConnection.set_close_callback set_connection_callback
      set_message_callback set_write_complete_callback TcpConnection.new_connection
  new_conn-name address channel_address sockfd ends name s net = rw (==_refl address) refl
