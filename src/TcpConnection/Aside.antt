-- ===== src/TcpConnection/Aside.antt =====
-- TcpConnection.cc: what `sendInLoop` leaves alone.
use head_write_muduo_epoll_c.Base.{
  ℕ, ◌≡◌, refl, ◌∙◌, inl, inr, Bool-cases, List, length, arith, ltb, Outcome, ok, exited, ◌>>=◌,
  IfOk, IfOk-bind, IfOk-map, if_either,
}
use head_write_muduo_epoll_c.Kernel.{Epoll, EventFd}
use head_write_muduo_epoll_c.Buffer.{Written, wrote, write_failed}
use head_write_muduo_epoll_c.Channel.{Channel, is_writing, with_writing}
use head_write_muduo_epoll_c.Functor.{Functor}
use head_write_muduo_epoll_c.Socket.{put_on_wire}
use head_write_muduo_epoll_c.Poller.{Poller}
use head_write_muduo_epoll_c.Poller
use head_write_muduo_epoll_c.EventLoop.{
  EventLoop, enable_writing, update_channel, queue_in_loop, notify, push_functor, wakeup,
}
use head_write_muduo_epoll_c.TcpConnection.{
  Session, disconnected, same_state, Attempt, write_now, attempt, check_mark, keep_rest,
  finish_send, send_in_loop, with_channel, queue,
}

module _ (ep : Epoll) (ef : EventFd) where
  -- The state, the address, the input, the write side and the thread of the loop.
  pub record Aside (s t : Session ep ef) : Type 0 where
    pub state : t.conn.state ≡ s.conn.state
    pub address : t.conn.address ≡ s.conn.address
    pub input : t.conn.input ≡ s.conn.input
    pub shut : t.conn.socket.write_shut ≡ s.conn.socket.write_shut
    pub thread : t.loop.thread_id ≡ s.loop.thread_id

  unchanged : (s : Session ep ef) → Aside s s
  unchanged s = record { state = refl; address = refl; input = refl; shut = refl; thread = refl }

  Aside-trans : {s t u : Session ep ef} → Aside s t → Aside t u → Aside s u
  Aside-trans p q = record {
    state = q.state ∙ p.state;
    address = q.address ∙ p.address;
    input = q.input ∙ p.input;
    shut = q.shut ∙ p.shut;
    thread = q.thread ∙ p.thread;
  }

  queue-Aside : (tid : ℕ) (f : Functor) (s : Session ep ef) → Aside s (queue ep ef tid f s)
  unfolding queue queue_in_loop notify push_functor wakeup
  queue-Aside tid f s = ground arith

  attempt-Aside :
      (tid : ℕ) (result : Written) (bytes : List ℕ) (s : Session ep ef)
      → Aside s (attempt ep ef tid result bytes s).session
  unfolding attempt write_now put_on_wire queue queue_in_loop notify push_functor wakeup
  attempt-Aside tid (wrote n) bytes s = ground arith
  attempt-Aside tid (write_failed errno) bytes s = ground arith

  check_mark-Aside :
      (tid remaining : ℕ) (s : Session ep ef) → Aside s (check_mark ep ef tid remaining s)
  unfolding check_mark
  check_mark-Aside tid remaining s = if_either (Aside s) _ (queue-Aside tid _ s) (unchanged s)

  enable_writing-thread :
      (l : EventLoop ep ef Functor) (c : Channel)
      → IfOk (λ r. r.0.thread_id ≡ l.thread_id) (enable_writing ep ef Functor l c)
  unfolding enable_writing update_channel
  enable_writing-thread l c = after (Poller.update_channel ep l.poller (with_writing c))
    where
      after :
          (m : Outcome (Poller ep × Channel))
          → IfOk {A = EventLoop ep ef Functor × Channel}
              (λ r. r.0.thread_id ≡ l.thread_id)
              (m >>= λ r. ok (record l { poller = r.0 }, r.1))
      after (ok r) = refl
      after exited = tt

  keep_rest-Aside :
      (tid : ℕ) (rest : List ℕ) (s : Session ep ef) → IfOk (Aside s) (keep_rest ep ef tid rest s)
  unfolding keep_rest with_channel
  keep_rest-Aside tid rest s =
      let m = check_mark ep ef tid (length rest) s in
      let same = check_mark-Aside tid (length rest) s in
      elim (Bool-cases (is_writing m.conn.channel)) [
        | inl busy ↦ rw busy (record {
          state = same.state;
          address = same.address;
          input = same.input;
          shut = same.shut;
          thread = same.thread;
        })
        | inr idle ↦ rw idle (
            IfOk-bind (λ r. r.0.thread_id ≡ m.loop.thread_id) (Aside s)
              (enable_writing ep ef Functor m.loop m.conn.channel) _
              (enable_writing-thread m.loop m.conn.channel)
              λ r e. record {
                state = same.state;
                address = same.address;
                input = same.input;
                shut = same.shut;
                thread = e ∙ same.thread;
              })
      ]

  finish_send-Aside :
      (tid : ℕ) (bytes : List ℕ) (a : Attempt ep ef)
      → IfOk (Aside a.session) (finish_send ep ef tid bytes a)
  unfolding finish_send
  finish_send-Aside tid bytes a = elim (Bool-cases a.fault_error) [
    | inl fault ↦ rw fault (unchanged _)
    | inr fine ↦ rw fine (elim (Bool-cases (ltb 0 a.remaining)) [
      | inl more ↦ rw more (keep_rest-Aside tid _ a.session)
      | inr none_left ↦ rw none_left (unchanged _)
    ])
  ]

  pub send_in_loop-Aside :
      (tid : ℕ) (result : Written) (bytes : List ℕ) (s : Session ep ef)
      → IfOk (Aside s) (send_in_loop ep ef tid result bytes s)
  unfolding send_in_loop
  send_in_loop-Aside tid result bytes s = elim (Bool-cases (same_state s.conn.state disconnected)) [
    | inl closed ↦ rw closed (unchanged _)
    | inr open_ ↦ rw open_ (
        let a = attempt ep ef tid result bytes s in
        IfOk-map (Aside a.session) (Aside s) (finish_send ep ef tid bytes a)
          (λ t q. Aside-trans (attempt-Aside tid result bytes s) q) (finish_send-Aside tid bytes a))
  ]
