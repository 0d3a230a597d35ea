-- ===== src/TcpServer/Refusal.antt =====
-- TcpServer.cc: the one way in which `newConnection` ends the process.
use head_write_muduo_epoll_c.Base.{
  ℕ, ◌≡◌, refl, ap, subst, sym, inl, inr, Bool-cases, none, some, ==_refl, OkUnless, OkUnless-bind,
}
use head_write_muduo_epoll_c.Kernel.{Epoll, EventFd, Decimal, ctl_add}
use head_write_muduo_epoll_c.Channel.{
  new, with_reading, tie, new_channel, set_read_callback, set_write_callback, set_close_callback,
  set_error_callback,
}
use head_write_muduo_epoll_c.Functor.{Functor, call_connect_established}
use head_write_muduo_epoll_c.Poller.Sync.{Refused}
use head_write_muduo_epoll_c.EventLoop.{run_in_loop, is_in_loop_thread}
use head_write_muduo_epoll_c.EventLoopThreadPool.{get_next_loop}
use head_write_muduo_epoll_c.TcpConnection.{
  Session, TcpConnection, connect_established, set_state, with_channel, note_call, connected,
  set_write_complete_callback, set_connection_callback, set_message_callback,
}
use head_write_muduo_epoll_c.TcpConnection
use head_write_muduo_epoll_c.TcpConnection.Stream.{connect_established-OkUnless}
use head_write_muduo_epoll_c.TcpServer.{
  Ends, local_addr, set_callbacks, TcpServer, Net, conn_name, connect_on, connect_chosen,
  new_connection, put_conn, on_conn, run_on_conn,
}

module _ (dec : Decimal) (ep : Epoll) (ef : EventFd) where
  run_on_conn-OkUnless :
      (tid a l : ℕ) (f : Functor) (net : Net dec ep ef)
      → (net.conns a).channel.index ≡ new
      → OkUnless
          (Refused ep (net.loops l).poller (with_reading (tie (net.conns a).channel)))
          (λ n. Unit {0})
          (run_on_conn dec ep ef tid a l (connect_established ep ef) f net)
  unfolding run_on_conn run_in_loop on_conn
  run_on_conn-OkUnless tid a l f net e =
      let s : Session ep ef = record {
        loop = net.loops l;
        conn = net.conns a;
        calls = net.calls a;
      } in
      elim (Bool-cases (is_in_loop_thread ep ef Functor (net.loops l) tid)) [
        | inl here ↦ rw here (
            OkUnless-bind (Refused ep s.loop.poller (with_reading (tie s.conn.channel)))
              (λ t. Unit {0}) (λ n. Unit {0}) (connect_established ep ef s) _
              (connect_established-OkUnless ep ef s e) λ t u. tt)
        | inr there ↦ rw there tt
      ]

  -- epoll refuses the descriptor of the new connection.
  abbrev pub RefusedIn : ℕ → ℕ → ℕ → Net dec ep ef → Type 0
  RefusedIn io channel_address sockfd net =
      ep.ctl (net.loops io).poller.epoll ctl_add sockfd 3 channel_address ≡ none

  connect_on-OkUnless :
      (tid io address channel_address sockfd : ℕ) (ends : Ends) (s : TcpServer)
      (net : Net dec ep ef)
      → OkUnless
          (RefusedIn io channel_address sockfd net)
          (λ r. Unit {0})
          (connect_on dec ep ef tid io address channel_address sockfd ends (s, net))
  unfolding connect_on put_conn set_callbacks TcpConnection.set_close_callback
      set_connection_callback set_message_callback set_write_complete_callback
      TcpConnection.new_connection with_reading tie new_channel set_read_callback set_write_callback
      set_close_callback set_error_callback
  connect_on-OkUnless tid io address channel_address sockfd ends s net =
      let conn = set_callbacks s (
        TcpConnection.new_connection address channel_address (conn_name dec s s.next_conn_id) sockfd
          (local_addr ends) ends.peer_addr) in
      let net' = put_conn dec ep ef address conn net in
      let there : net'.conns address ≡ conn = rw (==_refl address) refl in
      OkUnless-bind (RefusedIn io channel_address sockfd net) (λ n. Unit {0}) (λ r. Unit {0})
        (run_on_conn dec ep ef tid address io (connect_established ep ef)
          (call_connect_established address) net')
        _
        (subst
          (λ c.
            OkUnless (Refused ep (net.loops io).poller (with_reading (tie c.channel)))
              (λ n. Unit {0})
              (run_on_conn dec ep ef tid address io (connect_established ep ef)
                (call_connect_established address) net'))
          there
          (run_on_conn-OkUnless tid address io (call_connect_established address) net'
            (ap (λ c. c.channel.index) there)))
        λ n u. tt

  pub new_connection-OkUnless :
      (tid address channel_address sockfd : ℕ) (ends : Ends) (s : TcpServer) (net : Net dec ep ef)
      {io : ℕ}
      → (get_next_loop s.thread_pool).0 ≡ some io
      → OkUnless
          (RefusedIn io channel_address sockfd net)
          (λ r. Unit {0})
          (new_connection dec ep ef tid address channel_address sockfd ends (s, net))
  unfolding new_connection connect_chosen
  new_connection-OkUnless tid address channel_address sockfd ends s net {io} chosen =
      let s' = record s { thread_pool = (get_next_loop s.thread_pool).1 } in
      subst
        (λ o.
          OkUnless (RefusedIn io channel_address sockfd net) (λ r. Unit {0})
            (connect_chosen dec ep ef tid o address channel_address sockfd ends (s', net)))
        (sym chosen) (connect_on-OkUnless tid io address channel_address sockfd ends s' net)
