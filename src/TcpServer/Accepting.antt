-- ===== src/TcpServer/Accepting.antt =====
-- Acceptor.cc, TcpServer.cc and TcpConnection.cc: from the descriptor that `accept4` gives to the
-- connection in the loop that the pool has chosen.
use head_write_muduo_epoll_c.Base.{
  same_text, ℕ, ◌≡◌, refl, sym, subst, true, none, some, Option, List, ◌∷◌, ◌++◌, take, arith,
  exited, ◌>>=◌, OkUnless, OkUnless-bind, lookup, lookup-insert, text_key, if◌then◌else◌,
}
use head_write_muduo_epoll_c.Kernel.{Epoll, EventFd, Decimal}
use head_write_muduo_epoll_c.InetAddress.{InetAddress, SockAddr, of_sock_addr}
use head_write_muduo_epoll_c.Channel.{
  tie, new_channel, set_read_callback, set_write_callback, set_close_callback, set_error_callback,
  with_reading,
}
use head_write_muduo_epoll_c.Functor.{Functor, call_connect_established}
use head_write_muduo_epoll_c.EventLoop.{is_in_loop_thread}
use head_write_muduo_epoll_c.EventLoopThreadPool.{get_next_loop}
use head_write_muduo_epoll_c.Acceptor.{pass_on}
use head_write_muduo_epoll_c.Acceptor
use head_write_muduo_epoll_c.Socket.{accept, new_socket, set_keep_alive}
use head_write_muduo_epoll_c.TcpConnection.{
  TcpConnection, Session, Call, connected, connecting, connection_callback, connect_established,
  set_state, with_channel, note_call, set_connection_callback, set_message_callback,
  set_write_complete_callback,
}
use head_write_muduo_epoll_c.TcpConnection
use head_write_muduo_epoll_c.TcpServer.{
  Ends, set_callbacks, TcpServer, Net, conn_name, conn_suffix, connect_on, connect_chosen,
  new_connection, put_conn, run_on_conn, on_accepted, handle_accept,
}
use head_write_muduo_epoll_c.TcpServer.Refusal.{RefusedIn}
use head_write_muduo_epoll_c.TcpServer.Establishing.{Connected, wanted, run_on_conn-Connected}

module _ (dec : Decimal) (ep : Epoll) (ef : EventFd) where
  -- The map has the connection under its name, and the connection is as `Connected` says.
  abbrev pub AcceptedAs :
      ℕ → ℕ → ℕ → ℕ → ℕ → Ends → TcpServer → Net dec ep ef → TcpServer × Net dec ep ef → Type 0
  AcceptedAs tid io address channel_address connfd ends s net r =
      let name = s.name ++ take 63 (b'-' ∷ (s.ip_port ++ (b'#' ∷ dec.print s.next_conn_id))) in
      ((j : List ℕ)
        → lookup j r.0.connections
          ≡ (if same_text name j then some (address, io) else lookup j s.connections))
      × Connected dec ep ef (is_in_loop_thread ep ef Functor (net.loops io) tid) io address connfd
          (wanted dec ep ef address channel_address name connfd ends s) net r.1

  connect_on-AcceptedAs :
      (tid io address channel_address connfd : ℕ) (ends : Ends) (s : TcpServer)
      (net : Net dec ep ef)
      → OkUnless
          (RefusedIn dec ep ef io channel_address connfd net)
          (AcceptedAs tid io address channel_address connfd ends s net)
          (connect_on dec ep ef tid io address channel_address connfd ends (s, net))
  unfolding connect_on set_callbacks set_connection_callback set_message_callback
      set_write_complete_callback TcpConnection.set_close_callback TcpConnection.new_connection
      with_reading tie new_channel set_read_callback set_write_callback set_close_callback
      set_error_callback conn_name conn_suffix of_sock_addr new_socket set_keep_alive
  connect_on-AcceptedAs tid io address channel_address connfd ends s net =
      let name = conn_name dec s s.next_conn_id in
      let c = wanted dec ep ef address channel_address name connfd ends s in
      let here = is_in_loop_thread ep ef Functor (net.loops io) tid in
      OkUnless-bind (RefusedIn dec ep ef io channel_address connfd net)
        (Connected dec ep ef here io address connfd c net)
        (AcceptedAs tid io address channel_address connfd ends s net)
        (run_on_conn dec ep ef tid address io (connect_established ep ef)
          (call_connect_established address) (put_conn dec ep ef address c net))
        _ (run_on_conn-Connected dec ep ef tid io address connfd c net refl (omega arith) refl)
        λ n h. (λ j. lookup-insert name j (address, io) s.connections, h)

  -- An accept in the base loop, with `connfd` from `accept4` and the callback that the server sets.
  -- The fields of the new connection, one by one, are those that it is to have, among them the
  -- descriptor, the peer's address that `accept4` gave, the address that `getsockname` gave (all
  -- zero if it failed), the callbacks of the server and SO_KEEPALIVE; the map has it under the next
  -- name, written out, and is otherwise as before. If the base thread is that of the chosen loop, it
  -- is connected, epoll watches it for input, its user has been told and its loop has the functors
  -- that it had; otherwise its loop has `connectEstablished` as its last functor. The process ends only if epoll refuses the descriptor. If `accept4` failed, the
  -- process ends.
  pub accepted_is_connected :
      (tid address channel_address connfd : ℕ) (peer_addr blank : InetAddress)
      (sockname : Option SockAddr) (s : TcpServer) (net : Net dec ep ef) {io : ℕ}
      → s.acceptor.has_new_connection ≡ true
      → (get_next_loop s.thread_pool).0 ≡ some io
      → OkUnless
          (RefusedIn dec ep ef io channel_address connfd net)
          (AcceptedAs tid io address channel_address connfd
            (record { sockname = sockname; peer_addr = peer_addr })
            s
            net)
          (handle_accept dec ep ef tid address channel_address
            (some (connfd, peer_addr))
            blank
            sockname
            (s, net))
        × (handle_accept dec ep ef tid address channel_address none blank sockname (s, net)
            ≡ exited)
  unfolding handle_accept Acceptor.handle_read pass_on accept on_accepted new_connection
      connect_chosen set_callbacks
  accepted_is_connected tid address channel_address connfd peer_addr blank sockname s net {io} set
        chosen =
      let ends : Ends = record { sockname = sockname; peer_addr = peer_addr } in
      let s' = record s { thread_pool = (get_next_loop s.thread_pool).1 } in
      (
        subst
            (λ b.
              OkUnless (RefusedIn dec ep ef io channel_address connfd net)
                (AcceptedAs tid io address channel_address connfd ends s net)
                (pass_on b (some connfd, peer_addr) >>= λ o.
                  on_accepted dec ep ef tid address channel_address sockname o (s, net)))
            (sym set)
            (subst
              (λ o.
                OkUnless (RefusedIn dec ep ef io channel_address connfd net)
                  (AcceptedAs tid io address channel_address connfd ends s net)
                  (connect_chosen dec ep ef tid o address channel_address connfd ends (s', net)))
              (sym chosen)
              (connect_on-AcceptedAs tid io address channel_address connfd ends s' net)),
        refl,
      )
