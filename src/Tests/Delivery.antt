-- ===== src/Tests/Delivery.antt =====
-- The theorems on delivery, at the connections of Tests/Connections.antt.
use head_write_muduo_epoll_c.Base.{◌≡◌, refl, true, false, [], ◌∷◌, ok, ◌>>=◌, Returns, arith}
use head_write_muduo_epoll_c.Buffer.{wrote}
use head_write_muduo_epoll_c.Buffer.Contents.{contents}
use head_write_muduo_epoll_c.Channel.{is_writing}
use head_write_muduo_epoll_c.EventLoop.{is_in_loop_thread}
use head_write_muduo_epoll_c.Functor.{Functor}
use head_write_muduo_epoll_c.TcpConnection.{Session, shutdown}
use head_write_muduo_epoll_c.TcpConnection.Flow.{Flowing}
use head_write_muduo_epoll_c.TcpConnection.Queued.{run_pending}
use head_write_muduo_epoll_c.TcpConnection.Queued.Posting.{send_all}
use head_write_muduo_epoll_c.TcpConnection.Queued.Remote.{remote_messages_arrive}
use head_write_muduo_epoll_c.TcpConnection.Writing.Flush.{Flushed, drain, flush_finishes}
use head_write_muduo_epoll_c.Tests.{table_epoll, count_fd}
use head_write_muduo_epoll_c.Tests.Connections.{waiting, waiting-IsWatched}

waiting-Flowing : Flowing table_epoll count_fd (7 ∷ 8 ∷ 9 ∷ []) waiting
unfolding is_writing
waiting-Flowing = record {
  stream = refl;
  valid = omega arith;
  bounded = omega arith;
  open_state = refl;
  watched = waiting-IsWatched;
  flushed = λ idle. absurd (ground (arith, idle));
  busy = λ writes none_left. absurd (ground (arith, none_left));
}

-- Two bytes are taken at the first report, one at the second.
flush_finishes_example :
    Returns
      (Flushed table_epoll count_fd (7 ∷ 8 ∷ 9 ∷ []) waiting)
      (drain table_epoll count_fd 1 0 (2 ∷ 1 ∷ 1 ∷ []) waiting)
flush_finishes_example =
    flush_finishes table_epoll count_fd 1 0 (2 ∷ 1 ∷ 1 ∷ []) waiting waiting-Flowing
      (λ none_left. absurd (ground (arith, none_left))) (omega arith) (omega arith)

away_thread : is_in_loop_thread table_epoll count_fd Functor waiting.loop 2 ≡ false
unfolding is_in_loop_thread
away_thread = refl

remote_messages_arrive_example :
    Returns
      (λ (t : Session table_epoll count_fd).
        (t.conn.socket.wire ≡ 7 ∷ 8 ∷ 9 ∷ 1 ∷ 2 ∷ 3 ∷ [])
        × (contents t.conn.output ≡ [])
        × (t.conn.socket.write_shut ≡ true))
      (send_all table_epoll count_fd 2 (wrote 0) ((1 ∷ 2 ∷ []) ∷ (3 ∷ []) ∷ []) waiting
        >>= shutdown table_epoll count_fd 2
        >>= run_pending table_epoll count_fd (λ f s. ok s) 1 (λ n. wrote 0)
        >>= drain table_epoll count_fd 1 0 (1 ∷ 1 ∷ 1 ∷ 1 ∷ 1 ∷ 1 ∷ []))
remote_messages_arrive_example =
    remote_messages_arrive table_epoll count_fd (λ f s. ok s) 1 (λ n. wrote 0) 2 (wrote 0)
      ((1 ∷ 2 ∷ []) ∷ (3 ∷ []) ∷ []) waiting 0 (1 ∷ 1 ∷ 1 ∷ 1 ∷ 1 ∷ 1 ∷ []) waiting-Flowing refl
      refl away_thread (omega arith) (omega arith) (omega arith) (omega arith)
