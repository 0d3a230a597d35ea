-- ===== src/TcpConnection/Destroying.antt =====
-- TcpConnection.cc: `connectDestoryed` in every state, and data that is sent after it.
use head_write_muduo_epoll_c.Base.{
  ℕ, ◌<◌, ◌≡◌, refl, sym, ap, ◌∙◌, subst, Bool, true, false, not, ◌&&◌, ◌==◌, inl, inr, Bool-cases,
  none, some, List, [], ◌∷◌, ◌++◌, length, arith, ok, ◌>>=◌, OkUnless, OkUnless-bind, lookup,
  nat_key, if◌then◌else◌, if_either, ltb,
}
use head_write_muduo_epoll_c.Kernel.{Epoll, EventFd}
use head_write_muduo_epoll_c.Buffer.{append, write_failed, readable_bytes}
use head_write_muduo_epoll_c.Channel.{
  Channel, new, added, deleted, set_index, without_all, with_writing, is_writing, none_event,
  any_of, write_event,
}
use head_write_muduo_epoll_c.Functor.{Functor}
use head_write_muduo_epoll_c.Poller.Sync.{
  UnwatchedAs, remove_unwatched, disable_unregisters, update_new, Registered, Refused,
}
use head_write_muduo_epoll_c.EventLoop.{
  disable_all, update_channel, remove_channel, enable_writing, queue_in_loop, notify, push_functor,
  wakeup,
}
use head_write_muduo_epoll_c.TcpConnection.{
  disconnected, disconnecting, connected, same_state, connection_callback, Session, ewouldblock,
  connect_destroyed, remove, set_state, with_channel, note_call, send_in_loop, attempt, write_now,
  finish_send, keep_rest, check_mark, queue,
}
use head_write_muduo_epoll_c.TcpConnection.Flow.{IsWatched}

module _ (ep : Epoll) (ef : EventFd) where
  -- What `connectDestoryed` leaves; `is_open` says whether the connection was kConnected.
  pub record Destroyed (is_open : Bool) (s t : Session ep ef) : Type 0 where
    pub index : t.conn.channel.index ≡ new
    pub fd : t.conn.channel.fd ≡ s.conn.channel.fd
    pub events : t.conn.channel.events ≡ (if is_open then none_event else s.conn.channel.events)
    pub unwatched : ep.interest t.loop.poller.epoll s.conn.channel.fd ≡ none
    pub unlisted : lookup s.conn.channel.fd t.loop.poller.channels ≡ none
    pub state : t.conn.state ≡ (if is_open then disconnected else s.conn.state)
    pub calls :
        t.calls ≡ (if is_open then s.calls ++ connection_callback disconnected ∷ [] else s.calls)
    pub pending : t.loop.pending_functors ≡ s.loop.pending_functors
    pub output : t.conn.output ≡ s.conn.output

  remove-Destroyed :
      (s : Session ep ef)
      → UnwatchedAs ep s.conn.channel.index s.loop.poller.epoll s.conn.channel
      → (t : Session ep ef) × (remove ep ef s ≡ ok t) × Destroyed false s t
  unfolding remove remove_channel with_channel set_index
  remove-Destroyed s h =
      let (q, went, removed) = remove_unwatched ep s.loop.poller s.conn.channel h in
      (
        with_channel ep ef s (record s.loop { poller = q }, set_index s.conn.channel new),
        rw went refl,
        record {
          index = refl;
          fd = refl;
          events = refl;
          unwatched = removed.0;
          unlisted = removed.1;
          state = refl;
          calls = refl;
          pending = refl;
          output = refl;
        },
      )

  destroy_open :
      (s : Session ep ef)
      → same_state s.conn.state connected ≡ true
      → s.conn.channel.index ≡ added
      → (t : Session ep ef) × (connect_destroyed ep ef s ≡ ok t) × Destroyed true s t
  unfolding connect_destroyed disable_all update_channel with_channel note_call set_state
      without_all set_index
  destroy_open s e index =
      let c = without_all s.conn.channel in
      let (q, went, gone) = disable_unregisters ep s.loop.poller c index refl in
      let m = note_call ep ef (connection_callback disconnected) (
        with_channel ep ef (set_state ep ef disconnected s)
          (record s.loop { poller = q }, set_index c deleted)) in
      let (t, removes, out) = remove-Destroyed m gone in
      let goes : connect_destroyed ep ef s ≡ remove ep ef m = rw (e, went) refl in
      (
        t,
        goes ∙ removes,
        record {
          index = out.index;
          fd = out.fd;
          events = out.events;
          unwatched = out.unwatched;
          unlisted = out.unlisted;
          state = out.state;
          calls = out.calls;
          pending = out.pending;
          output = out.output;
        },
      )

  -- `connectDestoryed` of a connection that epoll watches always goes through, and leaves no trace of its
  -- descriptor in epoll and in the map of channels. A connection that is kConnected becomes
  -- kDisconnected, and its user is told so; in every other state, kDisconnecting among them, the
  -- state stays and the user is told nothing.
  pub destroy_tells_connected_only :
      (s : Session ep ef)
      → IsWatched ep ef s.loop s.conn.channel
      → (t : Session ep ef) × (connect_destroyed ep ef s ≡ ok t)
        × Destroyed (same_state s.conn.state connected) s t
  unfolding connect_destroyed
  destroy_tells_connected_only s w = elim (Bool-cases (same_state s.conn.state connected)) [
    | inl was_open ↦
        let (t, goes, d) = destroy_open s was_open w.index_added in
        (t, goes, subst (λ b. Destroyed b s t) (sym was_open) d)
    | inr not_open ↦
        let (t, goes, d) = remove-Destroyed s (
          subst (λ i. UnwatchedAs ep i s.loop.poller.epoll s.conn.channel) (sym w.index_added)
            tt) in
        (
          t,
          ap
                (λ b.
                  if b
                  then (let s' = set_state ep ef disconnected s in
                      disable_all ep ef Functor s'.loop s'.conn.channel >>= λ r. remove ep ef (
                        note_call ep ef (connection_callback disconnected)
                          (with_channel ep ef s' r)))
                  else remove ep ef s)
                not_open
              ∙ goes,
          subst (λ b. Destroyed b s t) (sym not_open) d,
        )
  ]

  check_mark-same :
      (tid remaining : ℕ) (s : Session ep ef)
      → ((check_mark ep ef tid remaining s).loop.poller ≡ s.loop.poller)
        × ((check_mark ep ef tid remaining s).conn ≡ s.conn)
  unfolding check_mark queue queue_in_loop notify push_functor wakeup
  check_mark-same tid remaining s = ground arith

  -- The channel asks epoll for room to write, as its first registration.
  abbrev pub Rewatched : Channel → Session ep ef → Type 0
  Rewatched c t =
      ep.interest t.loop.poller.epoll c.fd
      ≡ some ((with_writing c).events, (with_writing c).address)

  enable_writing-Rewatched :
      (s : Session ep ef)
      → s.conn.channel.index ≡ new
      → OkUnless
          (Refused ep s.loop.poller (with_writing s.conn.channel))
          (Rewatched s.conn.channel)
          (enable_writing ep ef Functor s.loop s.conn.channel >>= λ r. ok (with_channel ep ef s r))
  unfolding enable_writing update_channel with_channel with_writing
  enable_writing-Rewatched s index =
      let c = with_writing s.conn.channel in
      let taken =
        OkUnless-bind (Refused ep s.loop.poller c) (Registered ep c)
          (λ r. ep.interest r.0.poller.epoll c.fd ≡ some (c.events, c.address)) _ _
          (update_new ep s.loop.poller c index) λ r u. u.1 in
      OkUnless-bind (Refused ep s.loop.poller c)
        (λ r. ep.interest r.0.poller.epoll c.fd ≡ some (c.events, c.address))
        (Rewatched s.conn.channel) (enable_writing ep ef Functor s.loop s.conn.channel) _ taken
        λ r u. u

  keep_rest-Rewatched :
      (tid : ℕ) (rest : List ℕ) (s : Session ep ef)
      → is_writing s.conn.channel ≡ false
      → s.conn.channel.index ≡ new
      → OkUnless
          (Refused ep s.loop.poller (with_writing s.conn.channel))
          (Rewatched s.conn.channel)
          (keep_rest ep ef tid rest s)
  unfolding keep_rest
  keep_rest-Rewatched tid rest s idle index =
      let m = check_mark ep ef tid (length rest) s in
      let kept = record m { conn = record m.conn { output = append m.conn.output rest } } in
      let (poller, conn) = check_mark-same tid (length rest) s in
      let there : OkUnless (Refused ep m.loop.poller (with_writing m.conn.channel))
          (Rewatched m.conn.channel) (keep_rest ep ef tid rest s) =
        rw (ap (λ k. is_writing k.channel) conn ∙ idle)
          (enable_writing-Rewatched kept (ap (λ k. k.channel.index) conn ∙ index)) in
      subst
        (λ k.
          OkUnless (Refused ep s.loop.poller (with_writing k.channel)) (Rewatched k.channel)
            (keep_rest ep ef tid rest s))
        conn
        (subst
          (λ q.
            OkUnless (Refused ep q (with_writing m.conn.channel)) (Rewatched m.conn.channel)
              (keep_rest ep ef tid rest s))
          poller there)

  -- `write` takes nothing yet.
  attempt_takes_nothing :
      (tid : ℕ) (bytes : List ℕ) (s : Session ep ef)
      → attempt ep ef tid (write_failed ewouldblock) bytes s
        ≡ record { session = s; nwrote = 0; remaining = length bytes; fault_error = false }
  unfolding attempt write_now
  attempt_takes_nothing tid bytes s =
      if_either
        (λ a. a ≡ record { session = s; nwrote = 0; remaining = length bytes; fault_error = false })
        (not (is_writing s.conn.channel) && readable_bytes s.conn.output == 0) refl refl

  send-Rewatched :
      (tid : ℕ) (bytes : List ℕ) (s : Session ep ef)
      → same_state s.conn.state disconnected ≡ false
      → is_writing s.conn.channel ≡ false
      → s.conn.channel.index ≡ new
      → 0 < length bytes
      → OkUnless
          (Refused ep s.loop.poller (with_writing s.conn.channel))
          (Rewatched s.conn.channel)
          (send_in_loop ep ef tid (write_failed ewouldblock) bytes s)
  unfolding send_in_loop finish_send
  send-Rewatched tid bytes s open_ idle index some_bytes =
      let waits : ltb 0 (length bytes) ≡ true = ground (arith, some_bytes) in
      rw (open_, attempt_takes_nothing tid bytes s, waits) (keep_rest-Rewatched tid _ s idle index)

  -- A connection is kDisconnecting with nothing left to write when it is destroyed, and `sendInLoop`
  -- is called after that, as it is where `send` had queued it behind `connectDestoryed`. If the
  -- kernel takes nothing yet (EWOULDBLOCK), the channel that `connectDestoryed` has taken out is
  -- registered with epoll once more, unless epoll refuses the descriptor.
  pub late_send_rewatches :
      (tid : ℕ) (bytes : List ℕ) (s : Session ep ef)
      → IsWatched ep ef s.loop s.conn.channel
      → s.conn.state ≡ disconnecting
      → is_writing s.conn.channel ≡ false
      → 0 < length bytes
      → (t : Session ep ef) × (connect_destroyed ep ef s ≡ ok t)
        × (ep.interest t.loop.poller.epoll s.conn.channel.fd ≡ none)
        × OkUnless
            (Refused ep t.loop.poller (with_writing t.conn.channel))
            (Rewatched t.conn.channel)
            (send_in_loop ep ef tid (write_failed ewouldblock) bytes t)
  unfolding is_writing
  late_send_rewatches tid bytes s w closing idle some_bytes =
      let not_open = ap (λ st. same_state st connected) closing in
      let (t, goes, d) = destroy_tells_connected_only s w in
      let stays = d.state ∙ ap (λ b. if b then disconnected else s.conn.state) not_open ∙ closing in
      let events = d.events ∙ ap (λ b. if b then none_event else s.conn.channel.events) not_open in
      (
        t,
        goes,
        d.unwatched,
        send-Rewatched tid bytes t (ap (λ st. same_state st disconnected) stays)
            (ap (λ e. any_of e write_event) events ∙ idle) d.index some_bytes,
      )
