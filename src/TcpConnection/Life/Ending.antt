-- ===== src/TcpConnection/Life/Ending.antt =====
-- TcpConnection.cc: `connectDestoryed` keeps the invariant, in every state.
use head_write_muduo_epoll_c.Base.{
  ◌≤◌, ◌≡◌, ◌≢◌, refl, sym, ◌∙◌, ap, subst, inl, inr, none, some, ok, IfOk,
}
use head_write_muduo_epoll_c.Kernel.{Epoll, EventFd}
use head_write_muduo_epoll_c.Channel.{Channel, new, deleted, set_index, without_all}
use head_write_muduo_epoll_c.Functor.{Functor}
use head_write_muduo_epoll_c.Poller.Sync.{UnwatchedAs, remove_unwatched, disable_unregisters}
use head_write_muduo_epoll_c.EventLoop.{EventLoop, disable_all, update_channel, remove_channel}
use head_write_muduo_epoll_c.TcpConnection.{
  State, disconnected, connecting, connected, disconnecting, same_state, connection_callback,
  Session, note_call, set_state, with_channel, connect_destroyed, remove,
}
use head_write_muduo_epoll_c.TcpConnection.Life.{
  Phase, unreported, down, phase_after, agrees, rank, entry,
}
use head_write_muduo_epoll_c.TcpConnection.Life.Standing.{Standing, UnwatchedAs-entry}
use head_write_muduo_epoll_c.TcpConnection.Life.Lawful.{
  phase_after-append, Lawful, Next, Steady-Next, phase_of_up, connected-cases, rank_most,
}

module _ (ep : Epoll) (ef : EventFd) where
  -- What `remove` leaves of a connection whose channel epoll does not watch, unless it is added.
  record TakenOut (s t : Session ep ef) : Type 0 where
    told : t.calls ≡ s.calls
    in_state : t.conn.state ≡ s.conn.state
    events : t.conn.channel.events ≡ s.conn.channel.events
    index : t.conn.channel.index ≡ new
    unwatched : entry ep ef t.loop t.conn.channel.fd ≡ none

  remove-TakenOut :
      (s : Session ep ef)
      → UnwatchedAs ep s.conn.channel.index s.loop.poller.epoll s.conn.channel
      → (t : Session ep ef) × (remove ep ef s ≡ ok t) × TakenOut s t
  unfolding remove remove_channel with_channel set_index
  remove-TakenOut s h =
      let (q, went, removed) = remove_unwatched ep s.loop.poller s.conn.channel h in
      (
        with_channel ep ef s (record s.loop { poller = q }, set_index s.conn.channel new),
        rw went refl,
        record { told = refl; in_state = refl; events = refl; index = refl; unwatched = removed.0 },
      )

  -- The part of `connectDestoryed` for a connection that is up.
  take_down-Next :
      {p : Phase} {s : Session ep ef}
      → Lawful ep ef p s
      → s.conn.state ≡ connected
      → IfOk (Next ep ef s) (connect_destroyed ep ef s)
  unfolding connect_destroyed disable_all update_channel with_channel note_call set_state
      without_all set_index
  take_down-Next {p} {s} v e =
      let w = subst (λ st. Standing ep ef st s.loop s.conn.channel) e v.standing in
      let c = without_all s.conn.channel in
      let (q, went, gone) = disable_unregisters ep s.loop.poller c w.index_added refl in
      let m = note_call ep ef (connection_callback disconnected) (
        with_channel ep ef (set_state ep ef disconnected s)
          (record s.loop { poller = q }, set_index c deleted)) in
      let (t, removes, out) = remove-TakenOut m gone in
      let goes : connect_destroyed ep ef s ≡ remove ep ef m =
        rw (ap (λ st. same_state st connected) e, went) refl in
      subst (IfOk (Next ep ef s)) (sym (goes ∙ removes)) (
        down,
        record {
          protocol =
              ap (phase_after unreported) out.told
              ∙ phase_after-append unreported s.calls _ (
                  v.protocol
                  ∙ ap some (
                      phase_of_up ep ef connected p tt
                        (ap (λ st. agrees st p) (sym e) ∙ v.agreement)));
          agreement = ap (λ st. agrees st down) out.in_state;
          standing =
              subst (λ st. Standing ep ef st t.loop t.conn.channel) (sym out.in_state)
                (out.unwatched, out.events);
        },
        subst (λ st. rank s.conn.state ≤ rank st) (sym out.in_state) (rank_most ep ef s.conn.state),
      )

  Standing-UnwatchedAs :
      (state : State) (l : EventLoop ep ef Functor) (c : Channel)
      → Standing ep ef state l c
      → UnwatchedAs ep c.index l.poller.epoll c
  Standing-UnwatchedAs connecting l c h = UnwatchedAs-entry ep ef c.index l c h.2
  Standing-UnwatchedAs connected l c w =
      subst (λ i. UnwatchedAs ep i l.poller.epoll c) (sym w.index_added) tt
  Standing-UnwatchedAs disconnecting l c h = h
  Standing-UnwatchedAs disconnected l c h = UnwatchedAs-entry ep ef c.index l c h.0

  -- The registration that `remove` leaves fits every state after `connected`.
  Standing-out :
      (state : State) {s t : Session ep ef}
      → state ≢ connecting
      → state ≢ connected
      → TakenOut s t
      → Standing ep ef state s.loop s.conn.channel
      → Standing ep ef state t.loop t.conn.channel
  Standing-out connecting ne ne' out h = absurd (ne refl)
  Standing-out connected ne ne' out h = absurd (ne' refl)
  Standing-out disconnecting {s} {t} ne ne' out h =
      UnwatchedAs-entry ep ef t.conn.channel.index t.loop t.conn.channel out.unwatched
  Standing-out disconnected ne ne' out h = (out.unwatched, out.events ∙ h.1)

  -- The rest of it: the channel of a connection that is not up is removed.
  remove-Next :
      {p : Phase} {s : Session ep ef}
      → Lawful ep ef p s
      → s.conn.state ≢ connecting
      → s.conn.state ≢ connected
      → IfOk (Next ep ef s) (remove ep ef s)
  remove-Next {p} {s} v begun not_up =
      let (t, removes, out) =
        remove-TakenOut s (Standing-UnwatchedAs s.conn.state s.loop s.conn.channel v.standing) in
      subst (IfOk (Next ep ef s)) (sym removes) (
        Steady-Next ep ef v (record {
          told = out.told;
          in_state = out.in_state;
          standing = Standing-out s.conn.state begun not_up out v.standing;
        }))

  pub connect_destroyed-Next :
      {p : Phase} {s : Session ep ef}
      → Lawful ep ef p s
      → s.conn.state ≢ connecting
      → IfOk (Next ep ef s) (connect_destroyed ep ef s)
  unfolding connect_destroyed
  connect_destroyed-Next {p} {s} v begun = elim (connected-cases ep ef s.conn.state) [
    | inl open_ ↦ take_down-Next v open_
    | inr (not_up, e) ↦ rw e (remove-Next v begun not_up)
  ]
