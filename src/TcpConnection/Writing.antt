-- ===== src/TcpConnection/Writing.antt =====
-- TcpConnection.cc: `handleWrite`, `shutdown` and the invariant of Flow.antt.
pub mod Flush
pub mod Closing
use head_write_muduo_epoll_c.Base.{
  ℕ, ◌+◌, ◌≤◌, ◌≡◌, ◌≢◌, refl, sym, ap, ◌∙◌, length, true, false, not, inl, inr, Bool-cases, ==_iff,
  Option, none, some, List, ◌++◌, append_assoc, take, drop, take-append-drop, nil_of_length, arith,
  ltb, ◌==◌, Returns, Returns-bind, if_either,
}
use head_write_muduo_epoll_c.Kernel.{Epoll, EventFd}
use head_write_muduo_epoll_c.Buffer.{Buffer, readable_bytes, retrive, peek, Written, write_fd}
use head_write_muduo_epoll_c.Buffer.Bounds.{
  IsValid, retrive-IsValid, length-retrive, readable_bytes_lem,
}
use head_write_muduo_epoll_c.Buffer.Contents.{contents, contents-retrive, length-contents}
use head_write_muduo_epoll_c.Channel.{Channel, is_writing}
use head_write_muduo_epoll_c.Functor.{Functor, call_shutdown_in_loop}
use head_write_muduo_epoll_c.Socket.{put_on_wire, shutdown_write}
use head_write_muduo_epoll_c.EventLoop.{EventLoop, disable_writing, run_in_loop, is_in_loop_thread}
use head_write_muduo_epoll_c.TcpConnection.{
  State, disconnected, disconnecting, connected, same_state, Session, queue, with_channel,
  tell_written, all_written, after_write, wrote_some, handle_write, shutdown, shutdown_in_loop,
  set_state,
}
use head_write_muduo_epoll_c.TcpConnection.Flow.{
  Flowing, IsWatched, queue-Flowing, disable_writing-IsWatched,
}

module _ (ep : Epoll) (ef : EventFd) where
  pub shutdown_in_loop-Flowing :
      {payload : List ℕ} {s : Session ep ef}
      → Flowing ep ef payload s
      → Flowing ep ef payload (shutdown_in_loop ep ef s)
  unfolding shutdown_in_loop shutdown_write
  shutdown_in_loop-Flowing {payload} {s} v =
      if_either (Flowing ep ef payload) (not (is_writing s.conn.channel))
        (record {
          stream = v.stream;
          valid = v.valid;
          bounded = v.bounded;
          open_state = v.open_state;
          watched = v.watched;
          flushed = v.flushed;
          busy = v.busy;
        })
        v

  pub set_state-Flowing :
      {payload : List ℕ} {s : Session ep ef} (state : State)
      → same_state state disconnected ≡ false
      → Flowing ep ef payload s
      → Flowing ep ef payload (set_state ep ef state s)
  unfolding set_state
  set_state-Flowing state e v = record {
    stream = v.stream;
    valid = v.valid;
    bounded = v.bounded;
    open_state = e;
    watched = v.watched;
    flushed = v.flushed;
    busy = v.busy;
  }

  pub shutdown-Flowing :
      {payload : List ℕ} {s : Session ep ef} (tid : ℕ)
      → Flowing ep ef payload s
      → Returns (Flowing ep ef payload) (shutdown ep ef tid s)
  unfolding shutdown run_in_loop queue set_state
  shutdown-Flowing {payload} {s} tid v =
      let closing = set_state-Flowing {s = s} disconnecting refl v in
      elim (Bool-cases (same_state s.conn.state connected)) [
        | inl was_open ↦
            rw was_open (elim (Bool-cases (is_in_loop_thread ep ef Functor s.loop tid)) [
              | inl here ↦ rw here (shutdown_in_loop-Flowing closing)
              | inr there ↦
                  rw there (queue-Flowing ep ef tid (call_shutdown_in_loop s.conn.address) closing)
            ])
        | inr was_not ↦ rw was_not v
      ]

  tell_written-Flowing :
      {payload : List ℕ} {s : Session ep ef} (tid : ℕ)
      → Flowing ep ef payload s
      → Flowing ep ef payload (tell_written ep ef tid s)
  unfolding tell_written
  tell_written-Flowing {payload} {s} tid v =
      if_either (Flowing ep ef payload) s.conn.has_write_complete (queue-Flowing ep ef tid _ v) v

  all_written-Flowing :
      {payload : List ℕ} {s : Session ep ef} (tid : ℕ)
      → Flowing ep ef payload s
      → Flowing ep ef payload (all_written ep ef tid s)
  unfolding all_written
  all_written-Flowing {payload} {s} tid v =
      let told = tell_written-Flowing tid v in
      if_either (Flowing ep ef payload) _ (shutdown_in_loop-Flowing told) told

  -- The bytes that `writeFd` offers are the contents of the buffer.
  offered : {b : Buffer} → IsValid b → take (readable_bytes b) (peek b) ≡ contents b
  unfolding peek
  offered {b} v = ap (λ k. take k (drop b.reader_index b.buffer)) (readable_bytes_lem v)

  module _ {payload : List ℕ} {s : Session ep ef} (n : ℕ) (v : Flowing ep ef payload s)
      (writes : is_writing s.conn.channel ≡ true) where
    abbrev sent : Session ep ef
    sent = record s {
      conn = record s.conn {
        socket =
            put_on_wire (take n (take (readable_bytes s.conn.output) (peek s.conn.output)))
              s.conn.socket;
        output = retrive s.conn.output n;
      };
    }

    sent_stream : sent.conn.socket.wire ++ contents sent.conn.output ≡ payload
    unfolding put_on_wire
    sent_stream =
        ap (λ ys. s.conn.socket.wire ++ take n ys ++ contents sent.conn.output) (offered v.valid)
        ∙ ap (◌++◌ (s.conn.socket.wire ++ take n (contents s.conn.output)))
            (contents-retrive n v.valid)
        ∙ append_assoc s.conn.socket.wire (take n (contents s.conn.output))
            (drop n (contents s.conn.output))
        ∙ ap (◌++◌ s.conn.socket.wire) (take-append-drop n (contents s.conn.output))
        ∙ v.stream

    sent-IsValid : IsValid sent.conn.output
    sent-IsValid = retrive-IsValid n v.valid

    sent_bounded : length sent.conn.output.buffer ≤ 1032 + length payload
    sent_bounded = omega (arith, v, length-retrive n v.valid)

    -- With some bytes left to send.
    sent-Flowing : readable_bytes sent.conn.output ≢ 0 → Flowing ep ef payload sent
    unfolding put_on_wire
    sent-Flowing left = record {
      stream = sent_stream;
      valid = sent-IsValid;
      bounded = sent_bounded;
      open_state = v.open_state;
      watched = v.watched;
      flushed = λ e. absurd (cc);
      busy = λ e none. absurd (left (sym (length-contents sent-IsValid) ∙ ap length none));
    }

    -- After `disableWriting`, with nothing left to send.
    quiet-Flowing :
        (l : EventLoop ep ef Functor) (c : Channel)
        → readable_bytes sent.conn.output ≡ 0
        → IsWatched ep ef l c
        → is_writing c ≡ false
        → Flowing ep ef payload (with_channel ep ef sent (l, c))
    unfolding with_channel
    quiet-Flowing l c e w quiet = record {
      stream = sent_stream;
      valid = sent-IsValid;
      bounded = sent_bounded;
      open_state = v.open_state;
      watched = w;
      flushed = λ _.
          nil_of_length (contents sent.conn.output) (omega (arith, length-contents sent-IsValid));
      busy = λ writes_still. absurd (cc);
    }

    after_write-Flowing : (tid : ℕ) → Returns (Flowing ep ef payload) (after_write ep ef tid n s)
    unfolding after_write
    after_write-Flowing tid = elim (Bool-cases (readable_bytes sent.conn.output == 0)) [
      | inl none_left ↦ rw none_left (
          Returns-bind (λ r. IsWatched ep ef r.0 r.1 × (is_writing r.1 ≡ false))
            (Flowing ep ef payload) (disable_writing ep ef Functor sent.loop sent.conn.channel) _
            (disable_writing-IsWatched ep ef sent.loop sent.conn.channel v.watched)
            λ r w.
              all_written-Flowing tid (quiet-Flowing r.0 r.1 ((==_iff _ 0).0 none_left) w.0 w.1))
      | inr some_left ↦ rw some_left (sent-Flowing (ground (arith, some_left)))
    ]

  wrote_some-Flowing :
      {payload : List ℕ} {s : Session ep ef} (tid : ℕ) (o : Option ℕ)
      → Flowing ep ef payload s
      → is_writing s.conn.channel ≡ true
      → Returns (Flowing ep ef payload) (wrote_some ep ef tid o s)
  unfolding wrote_some
  wrote_some-Flowing tid none v writes = v
  wrote_some-Flowing {payload} {s} tid (some n) v writes = elim (Bool-cases (ltb 0 n)) [
    | inl positive ↦ rw positive (after_write-Flowing n v writes tid)
    | inr nothing ↦ rw nothing v
  ]

  pub handle_write-Flowing :
      {payload : List ℕ} {s : Session ep ef} (tid errno : ℕ) (result : Written)
      → Flowing ep ef payload s
      → Returns (Flowing ep ef payload) (handle_write ep ef tid errno result s)
  unfolding handle_write
  handle_write-Flowing {payload} {s} tid errno result v =
      elim (Bool-cases (is_writing s.conn.channel)) [
        | inl writes ↦
            rw writes (wrote_some-Flowing tid (write_fd s.conn.output errno result).0 v writes)
        | inr idle ↦ rw idle v
      ]
