-- ===== src/TcpConnection/Stream.antt =====
-- TcpConnection.cc: runs of `sendInLoop`, `handleWrite` and `shutdown`, in any number and order after
-- `connectEstablished`.
use head_write_muduo_epoll_c.Base.{
  false, ℕ, ◌+◌, ◌≤◌, ◌<◌, ◌≡◌, ◌≢◌, ◌⊎◌, refl, sym, ap, ◌∙◌, subst, Bool, true, inl, inr,
  Bool-cases, some, List, [], ◌++◌, append-nil, length, length-append, length-replicate, arith,
  max_size, Outcome, ok, IfOk, IfOk-bind, IfOk-Returns, IfOk-OkUnless, OkUnless, OkUnless-bind,
  Returns,
}
use head_write_muduo_epoll_c.InetAddress.{InetAddress}
use head_write_muduo_epoll_c.Kernel.{Epoll, EventFd}
use head_write_muduo_epoll_c.Buffer.{Written, new_buffer, initial_size}
use head_write_muduo_epoll_c.Buffer.Bounds.{IsValid, new_buffer-IsValid}
use head_write_muduo_epoll_c.Buffer.Contents.{contents, contents-new_buffer}
use head_write_muduo_epoll_c.Channel.{
  new, is_writing, with_reading, tie, new_channel, set_read_callback, set_write_callback,
  set_close_callback, set_error_callback,
}
use head_write_muduo_epoll_c.Channel.Masks.{IsInterest}
use head_write_muduo_epoll_c.Functor.{Functor}
use head_write_muduo_epoll_c.Poller.Sync.{Refused, Registered, update_new}
use head_write_muduo_epoll_c.Socket.{new_socket, set_keep_alive}
use head_write_muduo_epoll_c.EventLoop.{EventLoop, enable_reading, update_channel}
use head_write_muduo_epoll_c.TcpConnection
use head_write_muduo_epoll_c.TcpConnection.{
  TcpConnection, Session, Call, new_connection, set_connection_callback, set_message_callback,
  set_write_complete_callback, set_high_water_mark_callback, connect_established, send_in_loop,
  handle_write, shutdown, set_state, with_channel, note_call,
}
use head_write_muduo_epoll_c.TcpConnection.Flow.{Flowing, IsWatched, enable_reading-IsWatched}
use head_write_muduo_epoll_c.TcpConnection.Sending.{Accepts, send_in_loop-Flowing}
use head_write_muduo_epoll_c.TcpConnection.Writing.{handle_write-Flowing, shutdown-Flowing}

-- A connection as the server makes it, before `connectEstablished`.
abbrev pub prepared : ℕ → ℕ → List ℕ → ℕ → InetAddress → InetAddress → Bool → ℕ → TcpConnection
prepared address channel_address name fd local_addr peer_addr write_complete mark =
    set_high_water_mark_callback mark (
      set_write_complete_callback write_complete (
        TcpConnection.set_close_callback true (
          set_message_callback true (
            set_connection_callback true
              (new_connection address channel_address name fd local_addr peer_addr)))))

module _ (address channel_address : ℕ) (name : List ℕ) (fd : ℕ) (local_addr peer_addr : InetAddress)
    (write_complete : Bool) (mark : ℕ) where
  abbrev fresh : TcpConnection
  fresh = prepared address channel_address name fd local_addr peer_addr write_complete mark

  fresh-new : (tie fresh.channel).index ≡ new
  unfolding new_connection set_connection_callback set_message_callback
      TcpConnection.set_close_callback set_write_complete_callback set_high_water_mark_callback tie
      new_channel set_read_callback set_write_callback set_close_callback set_error_callback
  fresh-new = refl

  fresh-IsInterest : IsInterest (tie fresh.channel)
  unfolding new_connection set_connection_callback set_message_callback
      TcpConnection.set_close_callback set_write_complete_callback set_high_water_mark_callback tie
      new_channel set_read_callback set_write_callback set_close_callback set_error_callback
  fresh-IsInterest = omega arith

  fresh_quiet : is_writing (tie fresh.channel) ≡ false
  unfolding new_connection set_connection_callback set_message_callback
      TcpConnection.set_close_callback set_write_complete_callback set_high_water_mark_callback tie
      new_channel set_read_callback set_write_callback set_close_callback set_error_callback
      is_writing
  fresh_quiet = refl

  fresh_stream : fresh.socket.wire ++ contents fresh.output ≡ []
  unfolding new_connection set_connection_callback set_message_callback
      TcpConnection.set_close_callback set_write_complete_callback set_high_water_mark_callback
      new_socket set_keep_alive
  fresh_stream = contents-new_buffer initial_size

  fresh_output : fresh.output ≡ new_buffer initial_size
  unfolding new_connection set_connection_callback set_message_callback
      TcpConnection.set_close_callback set_write_complete_callback set_high_water_mark_callback
  fresh_output = refl

  fresh-IsValid : IsValid fresh.output
  fresh-IsValid = rw fresh_output (new_buffer-IsValid initial_size (omega arith))

  fresh_bounded : length fresh.output.buffer ≤ 1032
  unfolding new_buffer
  fresh_bounded = rw fresh_output (omega (arith, length-replicate {A = ℕ} 1032 0))

module _ (ep : Epoll) (ef : EventFd) where
  -- One call in the life of an open connection, with the data that it is given to send.
  pub data Act (s : Session ep ef) (bytes : List ℕ) (t : Session ep ef) : Type 0 where
    sends :
        (tid : ℕ) (result : Written)
        → Accepts bytes result
        → send_in_loop ep ef tid result bytes s ≡ ok t
        → Act s bytes t
    writable :
        (tid errno : ℕ) (result : Written)
        → bytes ≡ []
        → handle_write ep ef tid errno result s ≡ ok t
        → Act s bytes t
    shuts : (tid : ℕ) → bytes ≡ [] → shutdown ep ef tid s ≡ ok t → Act s bytes t

  pub data Run (s : Session ep ef) : List ℕ → Session ep ef → Type 0 where
    here : Run s [] s
    next :
        {before bytes payload : List ℕ} {t u : Session ep ef}
        → Run s before t
        → Act t bytes u
        → payload ≡ before ++ bytes
        → Run s payload u

  if_went : {A : Type 0} (P : A → Type 0) {m : Outcome A} {a : A} → m ≡ ok a → IfOk P m → P a
  if_went P e h = subst (IfOk P) e h

  went : {A : Type 0} (P : A → Type 0) {m : Outcome A} {a : A} → m ≡ ok a → Returns P m → P a
  went P {m} e h = if_went P e (IfOk-Returns P m h)

  Act-Flowing :
      {payload bytes : List ℕ} {s t : Session ep ef}
      → Act s bytes t
      → Flowing ep ef payload s
      → 1032 + length payload + length bytes < max_size
      → Flowing ep ef (payload ++ bytes) t
  Act-Flowing (sends tid result acc e) v fits =
      went _ e (send_in_loop-Flowing ep ef tid result _ v fits acc)
  Act-Flowing {payload} {t} (writable tid errno result none_new e) v fits =
      subst (λ p. Flowing ep ef p t) (sym (append-nil payload) ∙ ap (◌++◌ payload) (sym none_new))
        (went _ e (handle_write-Flowing ep ef tid errno result v))
  Act-Flowing {payload} {t} (shuts tid none_new e) v fits =
      subst (λ p. Flowing ep ef p t) (sym (append-nil payload) ∙ ap (◌++◌ payload) (sym none_new))
        (went _ e (shutdown-Flowing ep ef tid v))

  Run-Flowing :
      {s : Session ep ef} {payload : List ℕ} {t : Session ep ef}
      → Flowing ep ef [] s
      → Run s payload t
      → 1032 + length payload < max_size
      → Flowing ep ef payload t
  Run-Flowing v here fits = v
  Run-Flowing {payload} {t} v (next {before} {bytes} r act e) fits =
      subst (λ p. Flowing ep ef p t) (sym e)
        (Act-Flowing act (Run-Flowing v r (omega (arith, ap length e, length-append before bytes)))
          (omega (arith, ap length e, length-append before bytes)))

  pub established-Flowing :
      (address channel_address : ℕ) (name : List ℕ) (fd : ℕ) (local_addr peer_addr : InetAddress)
      (write_complete : Bool) (mark : ℕ) (l : EventLoop ep ef Functor) (calls : List Call)
      → IfOk (Flowing ep ef []) (
          connect_established ep ef (record {
            loop = l;
            conn =
                prepared address channel_address name fd local_addr peer_addr write_complete mark;
            calls = calls;
          }))
  unfolding connect_established with_channel note_call set_state
  established-Flowing address channel_address name fd local_addr peer_addr write_complete mark l
        calls =
      let c = prepared address channel_address name fd local_addr peer_addr write_complete mark in
      IfOk-bind
        (λ r.
          IsWatched ep ef r.0 r.1
          × (is_writing r.1 ≡ is_writing (tie c.channel))
          × (r.1.fd ≡ (tie c.channel).fd)
          × (r.0.pending_functors ≡ l.pending_functors))
        (Flowing ep ef []) (enable_reading ep ef Functor l (tie c.channel)) _
        (IfOk-OkUnless (Refused ep l.poller (with_reading (tie c.channel)))
          (λ r.
            IsWatched ep ef r.0 r.1
            × (is_writing r.1 ≡ is_writing (tie c.channel))
            × (r.1.fd ≡ (tie c.channel).fd)
            × (r.0.pending_functors ≡ l.pending_functors))
          (enable_reading ep ef Functor l (tie c.channel))
          (enable_reading-IsWatched ep ef l (tie c.channel)
            (fresh-new address channel_address name fd local_addr peer_addr write_complete mark)
            (fresh-IsInterest address channel_address name fd local_addr peer_addr write_complete
              mark)))
        λ r w. record {
          stream =
              fresh_stream address channel_address name fd local_addr peer_addr write_complete mark;
          valid =
              fresh-IsValid address channel_address name fd local_addr peer_addr write_complete
                mark;
          bounded =
              fresh_bounded address channel_address name fd local_addr peer_addr write_complete
                mark;
          open_state = refl;
          watched = w.0;
          flushed = λ _.
              ap contents (
                fresh_output address channel_address name fd local_addr peer_addr write_complete
                  mark)
              ∙ contents-new_buffer initial_size;
          busy = λ writes. absurd (
              ground (
                arith,
                writes,
                w.1,
                fresh_quiet address channel_address name fd local_addr peer_addr write_complete
                    mark,
              ));
        }

  -- `connectEstablished` ends the process only if epoll refuses the descriptor.
  pub connect_established-OkUnless :
      (s : Session ep ef)
      → s.conn.channel.index ≡ new
      → OkUnless
          (Refused ep s.loop.poller (with_reading (tie s.conn.channel)))
          (λ t. Unit {0})
          (connect_established ep ef s)
  unfolding connect_established set_state enable_reading update_channel with_reading tie
  connect_established-OkUnless s e =
      let c = with_reading (tie s.conn.channel) in
      let E = Refused ep s.loop.poller c in
      OkUnless-bind E (λ r. Unit {0}) (λ t. Unit {0})
        (enable_reading ep ef Functor s.loop (tie s.conn.channel)) _
        (OkUnless-bind E (Registered ep c) (λ r. Unit {0}) _ _ (update_new ep s.loop.poller c e)
          λ r u. tt)
        λ r u. tt

  -- From `connectEstablished` on, whatever is sent, written and shut down in whatever order: the bytes
  -- that the kernel was handed and then those in the output buffer are the data that was to be sent,
  -- complete and in order; epoll watches the descriptor with the events of the channel, and these ask
  -- for room to write exactly while something waits. `write` is taken to report no broken connection,
  -- and the data to stay below the largest vector.
  pub stream_in_order :
      (address channel_address : ℕ) (name : List ℕ) (fd : ℕ) (local_addr peer_addr : InetAddress)
      (write_complete : Bool) (mark : ℕ) (l : EventLoop ep ef Functor) (calls : List Call)
      {s t : Session ep ef} {payload : List ℕ}
      → connect_established ep ef (record {
        loop = l;
        conn = prepared address channel_address name fd local_addr peer_addr write_complete mark;
        calls = calls;
      })
        ≡ ok s
      → Run s payload t
      → 1032 + length payload < max_size
      → (t.conn.socket.wire ++ contents t.conn.output ≡ payload)
        × (ep.interest t.loop.poller.epoll t.conn.channel.fd
            ≡ some (t.conn.channel.events, t.conn.channel.address))
        × (((contents t.conn.output ≡ []) × (is_writing t.conn.channel ≡ false))
            ⊎ ((contents t.conn.output ≢ []) × (is_writing t.conn.channel ≡ true)))
  stream_in_order address channel_address name fd local_addr peer_addr write_complete mark l calls
        {t} e r fits =
      let v =
        Run-Flowing
          (if_went _ e (
            established-Flowing address channel_address name fd local_addr peer_addr write_complete
              mark l calls))
          r fits in
      (
        v.stream,
        v.watched.registered,
        elim (Bool-cases (is_writing t.conn.channel)) [
          | inl writes ↦ inr (v.busy writes, writes)
          | inr idle ↦ inl (v.flushed idle, idle)
        ],
      )
