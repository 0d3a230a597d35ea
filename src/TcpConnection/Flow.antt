-- ===== src/TcpConnection/Flow.antt =====
-- TcpConnection.cc: the invariant of a connection that sends, over its socket, its output buffer and
-- the registration of its channel.
use head_write_muduo_epoll_c.Base.{
  ℕ, ◌+◌, ◌≤◌, ◌<◌, ◌≡◌, ◌≢◌, refl, sym, ap, ◌∙◌, subst, true, false, inl, inr, Bool-cases, none,
  some, List, [], ◌++◌, append_assoc, length, length-append, arith, max_size, OkUnless,
  OkUnless-bind, Returns, Returns-bind, Returns-map, if_either,
}
use head_write_muduo_epoll_c.Kernel.{Epoll, EventFd}
use head_write_muduo_epoll_c.Buffer.{append}
use head_write_muduo_epoll_c.Buffer.Bounds.{IsValid, append-IsValid, append_grows}
use head_write_muduo_epoll_c.Buffer.Contents.{contents, contents-append}
use head_write_muduo_epoll_c.Channel.{
  Channel, new, added, with_reading, is_writing, is_reading, with_writing, without_writing,
}
use head_write_muduo_epoll_c.Channel.Masks.{
  IsInterest, masks_independent, masks_closed, with_writing-index, with_reading-index,
  without_writing-index,
}
use head_write_muduo_epoll_c.Functor.{Functor}
use head_write_muduo_epoll_c.Poller.Sync.{update_added, Passed, update_new, Registered, Refused}
use head_write_muduo_epoll_c.EventLoop.{
  EventLoop, update_channel, enable_reading, enable_writing, disable_writing, queue_in_loop, notify,
  push_functor, wakeup,
}
use head_write_muduo_epoll_c.TcpConnection.{
  disconnected, same_state, Session, queue, with_channel, keep_rest, check_mark,
}

module _ (ep : Epoll) (ef : EventFd) where
  -- The channel's registration.
  pub record IsWatched (loop : EventLoop ep ef Functor) (c : Channel) : Type 0 where
    pub index_added : c.index ≡ added
    pub interest : IsInterest c
    pub reading : is_reading c ≡ true
    pub registered : ep.interest loop.poller.epoll c.fd ≡ some (c.events, c.address)

  events_nonzero : (c : Channel) → is_reading c ≡ true → c.events ≢ 0
  unfolding is_reading
  events_nonzero c h e = ground arith

  update-IsWatched :
      (l : EventLoop ep ef Functor) (c : Channel)
      → c.index ≡ added
      → IsInterest c
      → is_reading c ≡ true
      → ep.interest l.poller.epoll c.fd ≢ none
      → Returns (λ r. IsWatched r.0 r.1 × (r.1 ≡ c)) (update_channel ep ef Functor l c)
  unfolding update_channel
  update-IsWatched l c i small reads listed =
      Returns-bind (Passed ep c) (λ r. IsWatched r.0 r.1 × (r.1 ≡ c)) _ _
        (update_added ep l.poller c i (events_nonzero c reads) listed)
        λ r u. (
          subst (λ k. IsWatched (record l { poller = r.0 }) k) (sym u.0)
              (record { index_added = i; interest = small; reading = reads; registered = u.1 }),
          u.0,
        )

  -- The first `enableReading` of a channel.
  pub enable_reading-IsWatched :
      (l : EventLoop ep ef Functor) (c : Channel)
      → c.index ≡ new
      → IsInterest c
      → OkUnless
          (Refused ep l.poller (with_reading c))
          (λ r.
            IsWatched r.0 r.1
            × (is_writing r.1 ≡ is_writing c)
            × (r.1.fd ≡ c.fd)
            × (r.0.pending_functors ≡ l.pending_functors))
          (enable_reading ep ef Functor l c)
  unfolding enable_reading update_channel is_reading with_reading is_writing
  enable_reading-IsWatched l c i small =
      OkUnless-bind (Refused ep l.poller (with_reading c)) (Registered ep (with_reading c))
        (λ r.
          IsWatched r.0 r.1
          × (is_writing r.1 ≡ is_writing c)
          × (r.1.fd ≡ c.fd)
          × (r.0.pending_functors ≡ l.pending_functors))
        _ _ (update_new ep l.poller (with_reading c) (with_reading-index c ∙ i))
        λ r u. (
          subst (λ k. IsWatched (record l { poller = r.0 }) k) (sym u.0)
              (record {
                index_added = refl;
                interest = (masks_closed c small).0;
                reading = (masks_independent c small).0.0;
                registered = u.1;
              }),
          ap is_writing u.0 ∙ (masks_independent c small).0.1,
          ap (λ k. k.fd) u.0,
          refl,
        )

  is_listed :
      (l : EventLoop ep ef Functor) (c : Channel)
      → IsWatched l c
      → ep.interest l.poller.epoll c.fd ≢ none
  is_listed l c w e = ground (arith, e, w.registered)

  pub enable_writing-IsWatched :
      (l : EventLoop ep ef Functor) (c : Channel)
      → IsWatched l c
      → Returns
          (λ r. IsWatched r.0 r.1 × (is_writing r.1 ≡ true))
          (enable_writing ep ef Functor l c)
  unfolding enable_writing with_writing
  enable_writing-IsWatched l c w =
      let (writes, reads_same) = (masks_independent c w.interest).1 in
      Returns-map _ _ (update_channel ep ef Functor l (with_writing c))
        (λ r u. (u.0, ap is_writing u.1 ∙ writes))
        (update-IsWatched l (with_writing c) (with_writing-index c ∙ w.index_added)
          (masks_closed c w.interest).1 (reads_same ∙ w.reading) (is_listed l c w))

  pub disable_writing-IsWatched :
      (l : EventLoop ep ef Functor) (c : Channel)
      → IsWatched l c
      → Returns
          (λ r. IsWatched r.0 r.1 × (is_writing r.1 ≡ false))
          (disable_writing ep ef Functor l c)
  unfolding disable_writing without_writing
  disable_writing-IsWatched l c w =
      let (stops, reads_same) = (masks_independent c w.interest).3 in
      Returns-map _ _ (update_channel ep ef Functor l (without_writing c))
        (λ r u. (u.0, ap is_writing u.1 ∙ stops))
        (update-IsWatched l (without_writing c) (without_writing-index c ∙ w.index_added)
          (masks_closed c w.interest).3 (reads_same ∙ w.reading) (is_listed l c w))

  queue_in_loop-poller :
      (tid : ℕ) (f : Functor) (l : EventLoop ep ef Functor)
      → (queue_in_loop ep ef Functor tid f l).poller ≡ l.poller
  unfolding queue_in_loop notify push_functor wakeup
  queue_in_loop-poller tid f l = ground arith

  -- `payload` is the data that was to be sent so far, in order.
  pub record Flowing (payload : List ℕ) (s : Session ep ef) : Type 0 where
    pub stream : s.conn.socket.wire ++ contents s.conn.output ≡ payload
    pub valid : IsValid s.conn.output
    pub bounded : length s.conn.output.buffer ≤ 1032 + length payload
    pub open_state : same_state s.conn.state disconnected ≡ false
    pub watched : IsWatched s.loop s.conn.channel
    pub flushed : is_writing s.conn.channel ≡ false → contents s.conn.output ≡ []
    pub busy : is_writing s.conn.channel ≡ true → contents s.conn.output ≢ []

  pub queue-Flowing :
      {payload : List ℕ} {s : Session ep ef} (tid : ℕ) (f : Functor)
      → Flowing payload s
      → Flowing payload (queue ep ef tid f s)
  unfolding queue
  queue-Flowing {payload} {s} tid f v = record {
    stream = v.stream;
    valid = v.valid;
    bounded = v.bounded;
    open_state = v.open_state;
    watched = record {
      index_added = v.watched.index_added;
      interest = v.watched.interest;
      reading = v.watched.reading;
      registered =
          ap (λ q. ep.interest q.epoll s.conn.channel.fd) (queue_in_loop-poller tid f s.loop)
          ∙ v.watched.registered;
    };
    flushed = v.flushed;
    busy = v.busy;
  }

  check_mark-Flowing :
      {payload : List ℕ} {s : Session ep ef} (tid remaining : ℕ)
      → Flowing payload s
      → Flowing payload (check_mark ep ef tid remaining s)
  unfolding check_mark
  check_mark-Flowing {payload} {s} tid remaining v =
      if_either (Flowing payload) _ (queue-Flowing tid _ v) v

  -- More data in the output buffer, and the channel asking for room to write.
  keep-Flowing :
      {payload : List ℕ} {s : Session ep ef} (rest : List ℕ) (l : EventLoop ep ef Functor)
      (c : Channel)
      → Flowing payload s
      → 1032 + length payload + length rest < max_size
      → 0 < length rest
      → IsWatched l c
      → is_writing c ≡ true
      → Flowing (payload ++ rest) (record s {
        loop = l;
        conn = record s.conn { channel = c; output = append s.conn.output rest };
      })
  keep-Flowing {payload} {s} rest l c v fits more w writes = record {
    stream =
        ap (◌++◌ s.conn.socket.wire) (contents-append rest v.valid (omega (arith, v)))
        ∙ sym (append_assoc s.conn.socket.wire (contents s.conn.output) rest)
        ∙ ap (λ ys. ys ++ rest) v.stream;
    valid = append-IsValid rest v.valid (omega (arith, v));
    bounded =
        omega (arith, v, append_grows rest v.valid (omega (arith, v)), length-append payload rest);
    open_state = v.open_state;
    watched = w;
    flushed = λ e. absurd (cc);
    busy = λ e none. absurd (
        omega (
          arith,
          more,
          ap length (
              sym (contents-append rest v.valid (omega (arith, v, length-append payload rest)))
              ∙ none),
          length-append (contents s.conn.output) rest,
        ));
  }

  pub keep_rest-Flowing :
      {payload : List ℕ} {s : Session ep ef} (tid : ℕ) (rest : List ℕ)
      → Flowing payload s
      → 1032 + length payload + length rest < max_size
      → 0 < length rest
      → Returns (Flowing (payload ++ rest)) (keep_rest ep ef tid rest s)
  unfolding keep_rest with_channel
  keep_rest-Flowing {payload} {s} tid rest v fits more =
      let m = check_mark ep ef tid (length rest) s in
      let f = check_mark-Flowing tid (length rest) v in
      elim (Bool-cases (is_writing m.conn.channel)) [
        | inl busy ↦ rw busy (keep-Flowing rest m.loop m.conn.channel f fits more f.watched busy)
        | inr idle ↦ rw idle (
            Returns-bind (λ r. IsWatched r.0 r.1 × (is_writing r.1 ≡ true))
              (Flowing (payload ++ rest)) (enable_writing ep ef Functor m.loop m.conn.channel) _
              (enable_writing-IsWatched m.loop m.conn.channel f.watched)
              λ r u. keep-Flowing rest r.0 r.1 f fits more u.0 u.1)
      ]
