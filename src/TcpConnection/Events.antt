-- ===== src/TcpConnection/Events.antt =====
-- TcpConnection.cc: incoming bytes, the high-water mark, `shutdown`, and the way from `handleClose` to
-- `connectDestoryed`.
use head_write_muduo_epoll_c.Base.{
  ℕ, ◌+◌, ◌≤◌, ◌<◌, ◌≡◌, ◌≢◌, refl, sym, ap, ◌∙◌, true, false, inl, inr, Bool-cases, none, List, [],
  ◌∷◌, ◌++◌, append-nil, length, take-all, arith, max_size, ltb, Outcome, ok, exited, IfOk,
  IfOk-bind, ◌>>=◌, lookup, nat_key,
}
use head_write_muduo_epoll_c.Kernel.{Epoll, EventFd}
use head_write_muduo_epoll_c.Buffer.{
  Readv, read_count, read_fd, readable_bytes, writable_bytes, iovcnt, Written,
}
use head_write_muduo_epoll_c.Buffer.Bounds.{IsValid}
use head_write_muduo_epoll_c.Buffer.Contents.{contents}
use head_write_muduo_epoll_c.Buffer.Input.{Filled, read_fd_receives}
use head_write_muduo_epoll_c.Channel.{Channel, is_writing, with_writing}
use head_write_muduo_epoll_c.Functor.{Functor}
use head_write_muduo_epoll_c.Socket.{shutdown_write}
use head_write_muduo_epoll_c.EventLoop.{EventLoop, update_channel, enable_writing}
use head_write_muduo_epoll_c.Poller.{Poller}
use head_write_muduo_epoll_c.Poller
use head_write_muduo_epoll_c.TcpConnection.{
  Session, disconnected, same_state, connection_callback, message_callback, close_callback,
  handle_read, after_read, handle_close, connect_destroyed, shutdown_in_loop, with_channel,
  note_call, send_in_loop, finish_send, attempt, keep_rest, check_mark,
}
use head_write_muduo_epoll_c.TcpConnection.Flow.{Flowing, IsWatched}
use head_write_muduo_epoll_c.TcpConnection.Closing.{handle_close-Closed, destroy_closed}

module _ (ep : Epoll) (ef : EventFd) where
  -- When `readv` brought some bytes as readv(2) documents (`Filled`), the input buffer is valid and it
  -- stays below the largest vector, they stand in the input buffer behind the earlier ones, and the
  -- message callback is called once; nothing else of the connection changes, and the buffer stays
  -- valid.
  pub handle_read_receives :
      (readv : ℕ → ℕ → Readv) (s : Session ep ef) {n : ℕ} {got base extra : List ℕ}
      → IsValid s.conn.input
      → readv (writable_bytes s.conn.input) (iovcnt s.conn.input) ≡ read_count n base extra
      → Filled (writable_bytes s.conn.input) (iovcnt s.conn.input) n got base extra
      → length s.conn.input.buffer + length got < max_size
      → n ≢ 0
      → (t : Session ep ef) × (handle_read ep ef readv s ≡ ok t)
        × (contents t.conn.input ≡ contents s.conn.input ++ got)
        × (t.calls ≡ s.calls ++ message_callback ∷ [])
        × (t.conn ≡ record s.conn { input = t.conn.input })
        × (t.loop ≡ s.loop)
        × IsValid t.conn.input
  unfolding handle_read after_read note_call
  handle_read_receives readv s {n} v e f fits some_bytes =
      let (result, saved, extends, valid) = read_fd_receives readv v e f fits in
      (
        record s {
          conn = record s.conn { input = (read_fd readv s.conn.input).2 };
          calls = s.calls ++ message_callback ∷ [];
        },
        rw result (ground arith),
        extends,
        refl,
        refl,
        refl,
        valid,
      )

  -- In a session where the data is in order (`Flowing`) and the write side is open, `shutdownInLoop`
  -- shuts the write side only if every byte of the data has been handed to the kernel.
  pub shutdown_after_flush :
      {payload : List ℕ} (s : Session ep ef)
      → Flowing ep ef payload s
      → s.conn.socket.write_shut ≡ false
      → (shutdown_in_loop ep ef s).conn.socket.write_shut ≡ true
      → s.conn.socket.wire ≡ payload
  unfolding shutdown_in_loop shutdown_write
  shutdown_after_flush s v open_ shut =
      sym (append-nil s.conn.socket.wire)
      ∙ ap (◌++◌ s.conn.socket.wire) (sym (v.flushed (ground arith)))
      ∙ v.stream

  enable_writing-pending :
      (l : EventLoop ep ef Functor) (c : Channel)
      → IfOk (λ r. r.0.pending_functors ≡ l.pending_functors) (enable_writing ep ef Functor l c)
  unfolding enable_writing update_channel
  enable_writing-pending l c = after (Poller.update_channel ep l.poller (with_writing c))
    where
      after :
          (m : Outcome (Poller ep × Channel))
          → IfOk {A = EventLoop ep ef Functor × Channel}
              (λ r. r.0.pending_functors ≡ l.pending_functors)
              (m >>= λ r. ok (record l { poller = r.0 }, r.1))
      after (ok r) = refl
      after exited = tt

  attempt_waits :
      (tid : ℕ) (result : Written) (bytes : List ℕ) (s : Session ep ef)
      → readable_bytes s.conn.output ≢ 0
      → attempt ep ef tid result bytes s
        ≡ record { session = s; nwrote = 0; remaining = length bytes; fault_error = false }
  unfolding attempt
  attempt_waits tid result bytes s waits = ground arith

  check_mark_below :
      (tid remaining : ℕ) (s : Session ep ef)
      → writable_bytes s.conn.output + remaining < s.conn.high_water_mark
      → check_mark ep ef tid remaining s ≡ s
  unfolding check_mark
  check_mark_below tid remaining s room = ground arith

  keep_rest-pending :
      (tid : ℕ) (rest : List ℕ) (s : Session ep ef)
      → writable_bytes s.conn.output + length rest < s.conn.high_water_mark
      → IfOk (λ t. t.loop.pending_functors ≡ s.loop.pending_functors) (keep_rest ep ef tid rest s)
  unfolding keep_rest with_channel
  keep_rest-pending tid rest s room =
      rw (check_mark_below tid (length rest) s room)
        (elim (Bool-cases (is_writing s.conn.channel)) [
          | inl busy ↦ rw busy refl
          | inr idle ↦ rw idle (
              IfOk-bind (λ r. r.0.pending_functors ≡ s.loop.pending_functors)
                (λ t. t.loop.pending_functors ≡ s.loop.pending_functors)
                (enable_writing ep ef Functor s.loop s.conn.channel) _
                (enable_writing-pending s.loop s.conn.channel) λ r e. e)
        ])

  -- The mark is compared with the free room of the buffer and not with the data that waits: where
  -- earlier data waits, and with the new data reaches the mark, the high-water functor is still not
  -- queued if the free room and the new data stay below the mark.
  pub high_water_ignores_backlog :
      (tid : ℕ) (result : Written) (bytes : List ℕ) (s : Session ep ef)
      → readable_bytes s.conn.output ≢ 0
      → s.conn.high_water_mark ≤ readable_bytes s.conn.output + length bytes
      → readable_bytes s.conn.output < s.conn.high_water_mark
      → writable_bytes s.conn.output + length bytes < s.conn.high_water_mark
      → IfOk
          (λ t. t.loop.pending_functors ≡ s.loop.pending_functors)
          (send_in_loop ep ef tid result bytes s)
  unfolding send_in_loop finish_send
  high_water_ignores_backlog tid result bytes s waits reaches below room =
      elim (Bool-cases (same_state s.conn.state disconnected)) [
        | inl closed ↦ rw closed refl
        | inr open_ ↦
            rw (open_, attempt_waits tid result bytes s waits)
              (elim (Bool-cases (ltb 0 (length bytes))) [
                | inl more ↦
                    rw (more, take-all (length bytes) bytes (omega arith))
                      (keep_rest-pending tid bytes s room)
                | inr nothing ↦ rw nothing refl
              ])
      ]

  -- For a connection that epoll watches, `handleClose` and then `connectDestoryed` always go through.
  -- They leave the state kDisconnected, one call of the connection callback and then one of the close
  -- callback, and no trace of the descriptor in epoll or in the map of channels.
  pub close_then_destroy :
      (s : Session ep ef)
      → IsWatched ep ef s.loop s.conn.channel
      → (t u : Session ep ef) × (handle_close ep ef s ≡ ok t)
        × (connect_destroyed ep ef t ≡ ok u)
        × (u.conn.state ≡ disconnected)
        × (u.calls ≡ s.calls ++ connection_callback disconnected ∷ close_callback ∷ [])
        × (ep.interest u.loop.poller.epoll s.conn.channel.fd ≡ none)
        × (lookup s.conn.channel.fd u.loop.poller.channels ≡ none)
  close_then_destroy s w =
      let (t, closes, v) = handle_close-Closed ep ef s w.index_added in
      let (u, destroys, state, calls, unwatched, unlisted) =
        destroy_closed ep ef t v.state v.index
          (ap (ep.interest t.loop.poller.epoll) v.fd ∙ v.unwatched) in
      (
        t,
        u,
        closes,
        destroys,
        state,
        calls ∙ v.calls,
        ap (ep.interest u.loop.poller.epoll) (sym v.fd) ∙ unwatched,
        ap (λ fd. lookup fd u.loop.poller.channels) (sym v.fd) ∙ unlisted,
      )
