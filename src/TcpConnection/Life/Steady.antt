-- ===== src/TcpConnection/Life/Steady.antt =====
-- TcpConnection.cc: the calls that change neither the state of a connection nor what its user has been
-- told, and leave its channel registered as the state says.
use head_write_muduo_epoll_c.Base.{
  ℕ, ◌≡◌, true, false, not, ◌&&◌, inl, inr, Bool-cases, Option, none, some, List, length, take,
  arith, ltb, ◌==◌, IfOk, IfOk-bind, if_either,
}
use head_write_muduo_epoll_c.Kernel.{Epoll, EventFd}
use head_write_muduo_epoll_c.Buffer.{Written, wrote, write_failed, readable_bytes, peek, retrive}
use head_write_muduo_epoll_c.Channel.{Channel, is_writing}
use head_write_muduo_epoll_c.Functor.{Functor}
use head_write_muduo_epoll_c.Socket.{put_on_wire}
use head_write_muduo_epoll_c.EventLoop.{
  EventLoop, enable_writing, disable_writing, queue_in_loop, notify, push_functor, wakeup,
}
use head_write_muduo_epoll_c.TcpConnection.{
  State, disconnected, same_state, Call, Session, Attempt, queue, with_channel, write_now, attempt,
  check_mark, keep_rest, finish_send, send_in_loop, shutdown_in_loop, tell_written, all_written,
  after_write, wrote_some, handle_write,
}
use head_write_muduo_epoll_c.TcpConnection.Life.{entry}
use head_write_muduo_epoll_c.TcpConnection.Life.Standing.{
  Standing, Standing-same, IsUp, enable_writing-Standing, disable_writing-Standing,
}

module _ (ep : Epoll) (ef : EventFd) (state : State) (calls : List Call) where
  pub record Steady (s : Session ep ef) : Type 0 where
    pub told : s.calls ≡ calls
    pub in_state : s.conn.state ≡ state
    pub standing : Standing ep ef state s.loop s.conn.channel

  queue-entry :
      (tid : ℕ) (f : Functor) (l : EventLoop ep ef Functor) (fd : ℕ)
      → entry ep ef (queue_in_loop ep ef Functor tid f l) fd ≡ entry ep ef l fd
  unfolding queue_in_loop notify push_functor wakeup
  queue-entry tid f l fd = ground arith

  pub queue-Steady :
      (tid : ℕ) (f : Functor) {s : Session ep ef} → Steady s → Steady (queue ep ef tid f s)
  unfolding queue
  queue-Steady tid f {s} h = record {
    told = h.told;
    in_state = h.in_state;
    standing =
        Standing-same ep ef state s.loop _ s.conn.channel
          (queue-entry tid f s.loop s.conn.channel.fd) h.standing;
  }

  -- The channel and its registration after a change.
  with_channel-Steady :
      (s : Session ep ef) (r : EventLoop ep ef Functor × Channel)
      → Steady s
      → Standing ep ef state r.0 r.1
      → Steady (with_channel ep ef s r)
  unfolding with_channel
  with_channel-Steady s r h st = record { told = h.told; in_state = h.in_state; standing = st }

  check_mark-Steady :
      (tid remaining : ℕ) {s : Session ep ef} → Steady s → Steady (check_mark ep ef tid remaining s)
  unfolding check_mark
  check_mark-Steady tid remaining h = if_either Steady _ (queue-Steady tid _ h) h

  keep_rest-Steady :
      (tid : ℕ) (rest : List ℕ) {s : Session ep ef}
      → IsUp ep ef state
      → Steady s
      → IfOk Steady (keep_rest ep ef tid rest s)
  unfolding keep_rest
  keep_rest-Steady tid rest {s} up h =
      let m = check_mark ep ef tid (length rest) s in
      let marked = check_mark-Steady tid (length rest) h in
      elim (Bool-cases (is_writing m.conn.channel)) [
        | inl busy ↦
            rw busy (record {
              told = marked.told;
              in_state = marked.in_state;
              standing = marked.standing;
            })
        | inr idle ↦ rw idle (
            IfOk-bind (λ r. Standing ep ef state r.0 r.1) Steady
              (enable_writing ep ef Functor m.loop m.conn.channel) _
              (enable_writing-Standing ep ef state m.loop m.conn.channel up marked.standing)
              λ r st.
                with_channel-Steady _ r
                  (record {
                    told = marked.told;
                    in_state = marked.in_state;
                    standing = marked.standing;
                  })
                  st)
      ]

  write_now-Steady :
      (tid : ℕ) (result : Written) (bytes : List ℕ) {s : Session ep ef}
      → Steady s
      → Steady (write_now ep ef tid result bytes s).session
  unfolding write_now
  write_now-Steady tid (wrote n) bytes {s} h =
      let sent : Steady (record s {
        conn = record s.conn { socket = put_on_wire (take n bytes) s.conn.socket };
      }) =
        record { told = h.told; in_state = h.in_state; standing = h.standing } in
      if_either Steady _ (queue-Steady tid _ sent) sent
  write_now-Steady tid (write_failed errno) bytes h = h

  attempt-Steady :
      (tid : ℕ) (result : Written) (bytes : List ℕ) {s : Session ep ef}
      → Steady s
      → Steady (attempt ep ef tid result bytes s).session
  unfolding attempt
  attempt-Steady tid result bytes {s} h =
      if_either (λ (a : Attempt ep ef). Steady a.session) _ (write_now-Steady tid result bytes h) h

  finish_send-Steady :
      (tid : ℕ) (bytes : List ℕ) (a : Attempt ep ef)
      → IsUp ep ef state
      → Steady a.session
      → IfOk Steady (finish_send ep ef tid bytes a)
  unfolding finish_send
  finish_send-Steady tid bytes a up h =
      if_either (IfOk Steady) (not a.fault_error && ltb 0 a.remaining) (keep_rest-Steady tid _ up h)
        h

  pub send_in_loop-Steady :
      (tid : ℕ) (result : Written) (bytes : List ℕ) {s : Session ep ef}
      → (same_state s.conn.state disconnected ≡ false → IsUp ep ef state)
      → Steady s
      → IfOk Steady (send_in_loop ep ef tid result bytes s)
  unfolding send_in_loop
  send_in_loop-Steady tid result bytes {s} up h =
      elim (Bool-cases (same_state s.conn.state disconnected)) [
        | inl closed ↦ rw closed h
        | inr open_ ↦ rw open_ (
            finish_send-Steady tid bytes (attempt ep ef tid result bytes s) (up open_)
              (attempt-Steady tid result bytes h))
      ]

  pub shutdown_in_loop-Steady : {s : Session ep ef} → Steady s → Steady (shutdown_in_loop ep ef s)
  unfolding shutdown_in_loop
  shutdown_in_loop-Steady {s} h =
      if_either Steady (not (is_writing s.conn.channel))
        (record { told = h.told; in_state = h.in_state; standing = h.standing }) h

  tell_written-Steady : (tid : ℕ) {s : Session ep ef} → Steady s → Steady (tell_written ep ef tid s)
  unfolding tell_written
  tell_written-Steady tid {s} h =
      if_either Steady s.conn.has_write_complete (queue-Steady tid _ h) h

  all_written-Steady : (tid : ℕ) {s : Session ep ef} → Steady s → Steady (all_written ep ef tid s)
  unfolding all_written
  all_written-Steady tid h =
      let told = tell_written-Steady tid h in if_either Steady _ (shutdown_in_loop-Steady told) told

  after_write-Steady :
      (tid n : ℕ) {s : Session ep ef}
      → IsUp ep ef state
      → Steady s
      → IfOk Steady (after_write ep ef tid n s)
  unfolding after_write
  after_write-Steady tid n {s} up h =
      let sent : Steady (record s {
        conn = record s.conn {
          socket =
              put_on_wire (take n (take (readable_bytes s.conn.output) (peek s.conn.output)))
                s.conn.socket;
          output = retrive s.conn.output n;
        };
      }) =
        record { told = h.told; in_state = h.in_state; standing = h.standing } in
      elim (Bool-cases (readable_bytes (retrive s.conn.output n) == 0)) [
        | inl empty ↦ rw empty (
            IfOk-bind (λ r. Standing ep ef state r.0 r.1) Steady
              (disable_writing ep ef Functor s.loop s.conn.channel) _
              (disable_writing-Standing ep ef state s.loop s.conn.channel up h.standing)
              λ r st. all_written-Steady tid (with_channel-Steady _ r sent st))
        | inr more ↦ rw more sent
      ]

  wrote_some-Steady :
      (tid : ℕ) (o : Option ℕ) {s : Session ep ef}
      → IsUp ep ef state
      → Steady s
      → IfOk Steady (wrote_some ep ef tid o s)
  unfolding wrote_some
  wrote_some-Steady tid none up h = h
  wrote_some-Steady tid (some n) up h =
      if_either (IfOk Steady) (ltb 0 n) (after_write-Steady tid n up h) h

  pub handle_write-Steady :
      (tid errno : ℕ) (result : Written) {s : Session ep ef}
      → (is_writing s.conn.channel ≡ true → IsUp ep ef state)
      → Steady s
      → IfOk Steady (handle_write ep ef tid errno result s)
  unfolding handle_write
  handle_write-Steady tid errno result {s} up h = elim (Bool-cases (is_writing s.conn.channel)) [
    | inl busy ↦ rw busy (wrote_some-Steady tid _ (up busy) h)
    | inr idle ↦ rw idle h
  ]
