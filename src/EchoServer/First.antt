-- ===== src/EchoServer/First.antt =====
-- example/testserver.cc: the first message of a connection, from `connectEstablished` on.
use head_write_muduo_epoll_c.Base.{
  ℕ, ◌+◌, ◌≤◌, ◌<◌, ◌≡◌, ◌≢◌, refl, sym, ap, ◌∙◌, subst, Bool, true, none, List, [], length,
  length-replicate, arith, max_size, ◌>>=◌, ◌==◌, IfOk, IfOk-bind, IfOk-always, IfOk-both, OkUnless,
  OkUnless-bind, OkUnless-IfOk, OkUnless-Returns,
}
use head_write_muduo_epoll_c.InetAddress.{InetAddress}
use head_write_muduo_epoll_c.Kernel.{Epoll, EventFd, ctl_add}
use head_write_muduo_epoll_c.Buffer.{
  Readv, read_count, writable_bytes, iovcnt, Written, new_buffer, initial_size,
}
use head_write_muduo_epoll_c.Buffer.Bounds.{IsValid, new_buffer-IsValid}
use head_write_muduo_epoll_c.Buffer.Contents.{contents, contents-new_buffer}
use head_write_muduo_epoll_c.Buffer.Input.{Filled}
use head_write_muduo_epoll_c.Channel.{
  Channel, with_reading, tie, new_channel, set_read_callback, set_write_callback,
  set_close_callback, set_error_callback,
}
use head_write_muduo_epoll_c.Functor.{Functor}
use head_write_muduo_epoll_c.Poller.{Poller}
use head_write_muduo_epoll_c.Poller
use head_write_muduo_epoll_c.EventLoop.{
  EventLoop, is_in_loop_thread, enable_reading, update_channel,
}
use head_write_muduo_epoll_c.TcpConnection
use head_write_muduo_epoll_c.TcpConnection.{
  Session, connected, handle_read, connect_established, set_state, with_channel, note_call,
  new_connection, set_connection_callback, set_message_callback, set_write_complete_callback,
  set_high_water_mark_callback,
}
use head_write_muduo_epoll_c.TcpConnection.Flow.{Flowing}
use head_write_muduo_epoll_c.TcpConnection.Sending.{Accepts}
use head_write_muduo_epoll_c.TcpConnection.Stream.{
  prepared, established-Flowing, connect_established-OkUnless,
}
use head_write_muduo_epoll_c.TcpConnection.Writing.Flush.{AllPositive, drain}
use head_write_muduo_epoll_c.EchoServer.{on_message}
use head_write_muduo_epoll_c.EchoServer.Reads.{read_is_echoed}

module _ (ep : Epoll) (ef : EventFd) where
  -- What else `connectEstablished` leaves.
  record Opened (s t : Session ep ef) : Type 0 where
    state : t.conn.state ≡ connected
    input : t.conn.input ≡ s.conn.input
    thread : t.loop.thread_id ≡ s.loop.thread_id

  enable_reading-thread :
      (l : EventLoop ep ef Functor) (c : Channel)
      → IfOk (λ r. r.0.thread_id ≡ l.thread_id) (enable_reading ep ef Functor l c)
  unfolding enable_reading update_channel
  enable_reading-thread l c =
      IfOk-always (λ (r : EventLoop ep ef Functor × Channel). r.0.thread_id ≡ l.thread_id)
        (Poller.update_channel ep l.poller (with_reading c)) _ λ r. refl

  connect_established-Opened : (s : Session ep ef) → IfOk (Opened s) (connect_established ep ef s)
  unfolding connect_established set_state with_channel note_call
  connect_established-Opened s =
      IfOk-bind (λ r. r.0.thread_id ≡ s.loop.thread_id) (Opened s)
        (enable_reading ep ef Functor s.loop (tie s.conn.channel)) _
        (enable_reading-thread s.loop (tie s.conn.channel))
        λ r e. record { state = refl; input = refl; thread = e }

  module _ (address channel_address : ℕ) (name : List ℕ) (fd : ℕ)
      (local_addr peer_addr : InetAddress) (write_complete : Bool) (mark : ℕ)
      (l : EventLoop ep ef Functor) where
    -- A connection as the server makes it.
    abbrev pub made : Session ep ef
    made = record {
      loop = l;
      conn = prepared address channel_address name fd local_addr peer_addr write_complete mark;
      calls = [];
    }

    abbrev pub RefusedByEpoll : Type 0
    RefusedByEpoll = ep.ctl l.poller.epoll ctl_add fd 3 channel_address ≡ none

    made-OkUnless : OkUnless RefusedByEpoll (λ t. Unit {0}) (connect_established ep ef made)
    unfolding new_connection set_connection_callback set_message_callback
        TcpConnection.set_close_callback set_write_complete_callback set_high_water_mark_callback
        tie new_channel set_read_callback set_write_callback set_close_callback set_error_callback
        with_reading
    made-OkUnless = connect_established-OkUnless ep ef made refl

    made_input : made.conn.input ≡ new_buffer initial_size
    unfolding new_connection set_connection_callback set_message_callback
        TcpConnection.set_close_callback set_write_complete_callback set_high_water_mark_callback
    made_input = refl

    made_established :
        OkUnless RefusedByEpoll
          (λ t. Flowing ep ef [] t × Opened made t)
          (connect_established ep ef made)
    made_established =
        OkUnless-IfOk RefusedByEpoll (λ t. Flowing ep ef [] t × Opened made t)
          (connect_established ep ef made) made-OkUnless
          (IfOk-both (Flowing ep ef []) (Opened made) (connect_established ep ef made)
            (established-Flowing ep ef address channel_address name fd local_addr peer_addr
              write_complete mark l [])
            (connect_established-Opened made))

    new_length : length (new_buffer initial_size).buffer ≡ 1032
    unfolding new_buffer
    new_length = length-replicate {A = ℕ} 1032 0

    -- The first message of a connection that the server has just made, in the loop's own thread:
    -- `readv` brings the bytes `got` as readv(2) documents (`Filled`), `write` reports no broken
    -- connection and takes at least one byte at every report of room to write, and the data stay
    -- below the largest vector. Then the process ends only if epoll refuses the descriptor, and after
    -- `connectEstablished`, `handleRead`, `onMessage` and as many reports as `got` has bytes, the
    -- kernel has been handed exactly `got`, nothing waits, and the write side is shut.
    pub first_message_is_echoed :
        {got base extra : List ℕ} {n : ℕ} (tid : ℕ) (readv : ℕ → ℕ → Readv) (result : Written)
        (errno : ℕ) (counts : List ℕ)
        → is_in_loop_thread ep ef Functor l tid ≡ true
        → let input = new_buffer initial_size in
          readv (writable_bytes input) (iovcnt input) ≡ read_count n base extra
          → Filled
              (writable_bytes (new_buffer initial_size))
              (iovcnt (new_buffer initial_size))
              n
              got
              base
              extra
          → n ≢ 0
          → 1032 + length got < max_size
          → Accepts got result
          → AllPositive ep ef counts
          → length got ≤ length counts
          → OkUnless RefusedByEpoll
              (λ u.
                (u.conn.socket.wire ≡ got)
                × (contents u.conn.output ≡ [])
                × (u.conn.socket.write_shut ≡ true))
              (connect_established ep ef made >>= λ s.
                handle_read ep ef readv s
                >>= on_message ep ef tid result
                >>= drain ep ef tid errno counts)
    unfolding is_in_loop_thread
    first_message_is_echoed {got} {base} {extra} {n} tid readv result errno counts here reads filled
          some_bytes fits acc positive enough =
        OkUnless-bind RefusedByEpoll (λ t. Flowing ep ef [] t × Opened made t) _
          (connect_established ep ef made) _ made_established
          λ s o.
            let fresh : s.conn.input ≡ new_buffer initial_size = o.1.input ∙ made_input in
            OkUnless-Returns RefusedByEpoll _
              (handle_read ep ef readv s
                >>= on_message ep ef tid result
                >>= drain ep ef tid errno counts)
              (read_is_echoed ep ef tid readv result s errno counts o.0 o.1.state
                (ap (λ thread. thread == tid) o.1.thread ∙ here)
                (subst IsValid (sym fresh) (new_buffer-IsValid initial_size (omega arith)))
                (ap contents fresh ∙ contents-new_buffer initial_size)
                (subst (λ b. readv (writable_bytes b) (iovcnt b) ≡ read_count n base extra)
                  (sym fresh) reads)
                (subst (λ b. Filled (writable_bytes b) (iovcnt b) n got base extra) (sym fresh)
                  filled)
                (omega (arith, fits, ap (λ b. length b.buffer) fresh, new_length)) some_bytes
                (omega arith) acc positive (omega arith))
