-- ===== src/Tests/First.antt =====
-- The theorem on the first message, with the byte 4 on a connection with descriptor 5 in loop 1.
use head_write_muduo_epoll_c.Base.{
  ℕ, ◌≡◌, refl, true, false, [], ◌∷◌, replicate, length-replicate, ◌>>=◌, OkUnless, arith,
}
use head_write_muduo_epoll_c.Buffer.{
  Readv, read_count, writable_bytes, iovcnt, wrote, new_buffer, initial_size,
}
use head_write_muduo_epoll_c.Buffer.Contents.{contents}
use head_write_muduo_epoll_c.Buffer.Input.{Filled}
use head_write_muduo_epoll_c.EventLoop.{is_in_loop_thread}
use head_write_muduo_epoll_c.Functor.{Functor}
use head_write_muduo_epoll_c.TcpConnection.{Session, connect_established, handle_read}
use head_write_muduo_epoll_c.TcpConnection.Writing.Flush.{drain}
use head_write_muduo_epoll_c.EchoServer.{on_message}
use head_write_muduo_epoll_c.EchoServer.First.{made, RefusedByEpoll, first_message_is_echoed}
use head_write_muduo_epoll_c.Tests.{server_addr, client_addr, table_epoll, count_fd}
use head_write_muduo_epoll_c.Tests.Connections.{quiet_loop}

abbrev readv_new : ℕ → ℕ → Readv
readv_new base_length count = read_count 1 (4 ∷ replicate 1023 0) []

new-Filled :
    Filled
      (writable_bytes (new_buffer initial_size))
      (iovcnt (new_buffer initial_size))
      1
      (4 ∷ [])
      (4 ∷ replicate 1023 0)
      []
unfolding writable_bytes iovcnt new_buffer
new-Filled = record {
  counted = refl;
  limited = omega arith;
  base_length = omega (arith, length-replicate {A = ℕ} 1023 0, length-replicate {A = ℕ} 1032 0);
  base_filled = refl;
  extra_filled = refl;
}

quiet_thread : is_in_loop_thread table_epoll count_fd Functor quiet_loop 1 ≡ true
unfolding is_in_loop_thread
quiet_thread = refl

first_message_is_echoed_example :
    OkUnless
      (RefusedByEpoll table_epoll count_fd 100 200 [] 5 server_addr client_addr false 64 quiet_loop)
      (λ (u : Session table_epoll count_fd).
        (u.conn.socket.wire ≡ 4 ∷ [])
        × (contents u.conn.output ≡ [])
        × (u.conn.socket.write_shut ≡ true))
      (connect_established table_epoll count_fd
          (made table_epoll count_fd 100 200 [] 5 server_addr client_addr false 64 quiet_loop)
        >>= λ s.
            handle_read table_epoll count_fd readv_new s
            >>= on_message table_epoll count_fd 1 (wrote 0)
            >>= drain table_epoll count_fd 1 0 (1 ∷ []))
first_message_is_echoed_example =
    first_message_is_echoed table_epoll count_fd 100 200 [] 5 server_addr client_addr false 64
      quiet_loop 1 readv_new (wrote 0) 0 (1 ∷ []) quiet_thread refl new-Filled
      (λ e. absurd (omega (arith, e))) (omega arith) (omega arith) (omega arith) (omega arith)
