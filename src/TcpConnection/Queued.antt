-- ===== src/TcpConnection/Queued.antt =====
-- TcpConnection.cc: the functors that a connection binds, as the loop calls them. `others` calls the
-- functors that are bound to something else, and `written` has what `write` answers to the functor
-- with that number, if it makes the call. A functor of `sendInLoop` holds only a pointer to the bytes;
-- they are taken to be still there when it is called.
pub mod Posting
pub mod Remote
use head_write_muduo_epoll_c.Base.{ℕ, suc, List, [], ◌∷◌, if◌then◌else◌, ◌==◌, Outcome, ok, ◌>>=◌}
use head_write_muduo_epoll_c.Kernel.{Epoll, EventFd}
use head_write_muduo_epoll_c.Buffer.{Written}
use head_write_muduo_epoll_c.Functor.{
  Functor, call_connect_established, call_connect_destroyed, call_shutdown_in_loop,
  call_write_complete, call_send_in_loop, call_high_water_mark,
}
use head_write_muduo_epoll_c.EventLoop.{begin_pending, swap_pending, end_pending}
use head_write_muduo_epoll_c.TcpConnection.{
  Session, write_complete_callback, high_water_mark_callback, note_call, send_in_loop,
  shutdown_in_loop, connect_established, connect_destroyed,
}

module _ (ep : Epoll) (ef : EventFd)
    (others : Functor → Session ep ef → Outcome (Session ep ef)) where
  unfoldable pub call_functor : ℕ → Written → Functor → Session ep ef → Outcome (Session ep ef)
  call_functor tid result (call_connect_established a) s =
      if a == s.conn.address
      then connect_established ep ef s
      else others (call_connect_established a) s
  call_functor tid result (call_connect_destroyed a) s =
      if a == s.conn.address then connect_destroyed ep ef s else others (call_connect_destroyed a) s
  call_functor tid result (call_shutdown_in_loop a) s =
      if a == s.conn.address
      then ok (shutdown_in_loop ep ef s)
      else others (call_shutdown_in_loop a) s
  call_functor tid result (call_write_complete a) s =
      if a == s.conn.address
      then ok (note_call ep ef write_complete_callback s)
      else others (call_write_complete a) s
  call_functor tid result (call_send_in_loop a bytes) s =
      if a == s.conn.address
      then send_in_loop ep ef tid result bytes s
      else others (call_send_in_loop a bytes) s
  call_functor tid result (call_high_water_mark a size) s =
      if a == s.conn.address
      then ok (note_call ep ef (high_water_mark_callback size) s)
      else others (call_high_water_mark a size) s
  call_functor tid result f s = others f s

  unfoldable pub call_each :
      ℕ → (ℕ → Written) → ℕ → List Functor → Session ep ef → Outcome (Session ep ef)
  call_each tid written n [] s = ok s
  call_each tid written n (f ∷ functors) s =
      call_functor tid (written n) f s >>= call_each tid written (suc n) functors

  -- `doPendingFunctors` of the connection's loop.
  unfoldable pub run_pending : ℕ → (ℕ → Written) → Session ep ef → Outcome (Session ep ef)
  run_pending tid written s =
      let (functors, l) = swap_pending ep ef Functor (begin_pending ep ef Functor s.loop) in
      call_each tid written 0 functors (record s { loop = l }) >>= λ t.
      ok (record t { loop = end_pending ep ef Functor t.loop })
