-- ===== src/EchoServer/Reads.antt =====
-- example/testserver.cc: the way of a message from `readv` to the last `write` and the shutdown.
use head_write_muduo_epoll_c.Base.{
  ℕ, ◌+◌, ◌≤◌, ◌<◌, ◌≡◌, ◌≢◌, sym, ap, ◌∙◌, subst, true, List, [], ◌++◌, length, arith, max_size,
  ◌>>=◌, Returns,
}
use head_write_muduo_epoll_c.Kernel.{Epoll, EventFd}
use head_write_muduo_epoll_c.Buffer.{Readv, read_count, writable_bytes, iovcnt, Written}
use head_write_muduo_epoll_c.Buffer.Bounds.{IsValid}
use head_write_muduo_epoll_c.Buffer.Contents.{contents}
use head_write_muduo_epoll_c.Buffer.Input.{Filled}
use head_write_muduo_epoll_c.Functor.{Functor}
use head_write_muduo_epoll_c.EventLoop.{is_in_loop_thread}
use head_write_muduo_epoll_c.TcpConnection.{Session, connected, handle_read}
use head_write_muduo_epoll_c.TcpConnection.Events.{handle_read_receives}
use head_write_muduo_epoll_c.TcpConnection.Flow.{Flowing}
use head_write_muduo_epoll_c.TcpConnection.Sending.{Accepts}
use head_write_muduo_epoll_c.TcpConnection.Writing.Flush.{AllPositive, drain}
use head_write_muduo_epoll_c.EchoServer.{on_message}
use head_write_muduo_epoll_c.EchoServer.Echoes.{on_message_delivers}

module _ (ep : Epoll) (ef : EventFd) where
  -- Another input buffer does not matter to what is sent.
  other_input-Flowing :
      {payload : List ℕ} {s t : Session ep ef}
      → t.conn ≡ record s.conn { input = t.conn.input }
      → t.loop ≡ s.loop
      → Flowing ep ef payload s
      → Flowing ep ef payload t
  other_input-Flowing {payload} {s} {t} conn loop v =
      subst (λ l. Flowing ep ef payload (record t { loop = l })) (sym loop)
        (subst (λ c. Flowing ep ef payload (record t { loop = s.loop; conn = c })) (sym conn)
          (record {
            stream = v.stream;
            valid = v.valid;
            bounded = v.bounded;
            open_state = v.open_state;
            watched = record {
              index_added = v.watched.index_added;
              interest = v.watched.interest;
              reading = v.watched.reading;
              registered = v.watched.registered;
            };
            flushed = v.flushed;
            busy = v.busy;
          }))

  -- In the loop's own thread, on an open connection whose data is in order (`Flowing`), whose input
  -- buffer is valid and holds no earlier bytes: `readv` brings the bytes `got` as readv(2) documents
  -- (`Filled`), and `write` reports no broken connection and takes at least one byte at every report
  -- of room to write; the data stay below the largest vector. Then the process does not end, and after
  -- `handleRead`, `onMessage` and as many reports as there were bytes to send, the kernel has been
  -- handed what it had to be handed before and then exactly `got`; nothing waits, and the write side
  -- is shut.
  pub read_is_echoed :
      {payload got base extra : List ℕ} {n : ℕ} (tid : ℕ) (readv : ℕ → ℕ → Readv) (result : Written)
      (s : Session ep ef) (errno : ℕ) (counts : List ℕ)
      → Flowing ep ef payload s
      → s.conn.state ≡ connected
      → is_in_loop_thread ep ef Functor s.loop tid ≡ true
      → IsValid s.conn.input
      → contents s.conn.input ≡ []
      → readv (writable_bytes s.conn.input) (iovcnt s.conn.input) ≡ read_count n base extra
      → Filled (writable_bytes s.conn.input) (iovcnt s.conn.input) n got base extra
      → length s.conn.input.buffer + length got < max_size
      → n ≢ 0
      → 1032 + length payload + length got < max_size
      → Accepts got result
      → AllPositive ep ef counts
      → length payload + length got ≤ length counts
      → Returns
          (λ u.
            (u.conn.socket.wire ≡ payload ++ got)
            × (contents u.conn.output ≡ [])
            × (u.conn.socket.write_shut ≡ true))
          (handle_read ep ef readv s
            >>= on_message ep ef tid result
            >>= drain ep ef tid errno counts)
  read_is_echoed {payload} {got} tid readv result s errno counts v open_ here input none_before
        reads filled room some_bytes fits acc positive enough =
      let (t, went, input_now, _, conn, loop, valid) =
        handle_read_receives ep ef readv s input reads filled room some_bytes in
      let message : contents t.conn.input ≡ got =
        input_now ∙ ap (λ before. before ++ got) none_before in
      rw went (
        subst
          (λ m.
            Returns
              (λ u.
                (u.conn.socket.wire ≡ payload ++ m)
                × (contents u.conn.output ≡ [])
                × (u.conn.socket.write_shut ≡ true))
              (on_message ep ef tid result t >>= drain ep ef tid errno counts))
          message
          (on_message_delivers ep ef tid result t (other_input-Flowing conn loop v) valid
            (ap (λ c. c.state) conn ∙ open_)
            (ap (λ l. is_in_loop_thread ep ef Functor l tid) loop ∙ here)
            (omega (arith, fits, ap length message))
            (subst (λ m. Accepts m result) (sym message) acc) errno counts positive
            (omega (arith, enough, ap length message))))
