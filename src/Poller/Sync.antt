-- ===== src/Poller/Sync.antt =====
-- EPollPoller.cc: `updateChannel` and `removeChannel`, and how the poller's map, epoll's interest list
-- and the index of a channel belong together.
use head_write_muduo_epoll_c.Base.{
  ℕ, ◌≡◌, ◌≢◌, refl, sym, ap, ◌∙◌, ==_iff, none, some, inl, inr, Bool-cases, subst, ok, ◌>>=◌,
  Returns, Returns-bind, OkUnless, OkUnless-bind, OkUnless-Returns, lookup, insert, erase, nat_key,
  lookup-insert, lookup-erase, arith,
}
use head_write_muduo_epoll_c.Kernel.{Epoll, ctl_add, ctl_mod, ctl_del}
use head_write_muduo_epoll_c.Channel.{Channel, Index, new, added, deleted, is_none_event, set_index}
use head_write_muduo_epoll_c.Poller.{
  Poller, update, update_at, update_channel, delete_at, remove_channel,
}
use head_write_muduo_epoll_c.Poller.Updates.{
  Updated, Failed, update-Updated, update-mod, update-deletes, update-del,
}

module _ (ep : Epoll) where
  -- A channel that is `new` is not registered with epoll. One that is `added` is registered with
  -- some events and its own address, and is in the map. One that is `deleted` is in the map only.
  abbrev pub RegisteredAs : Index → Poller ep → Channel → Type 0
  RegisteredAs new p c = ep.interest p.epoll c.fd ≡ none
  RegisteredAs added p c =
      (e : ℕ) × (ep.interest p.epoll c.fd ≡ some (e, c.address))
      × (lookup c.fd p.channels ≡ some c.address)
  RegisteredAs deleted p c =
      (ep.interest p.epoll c.fd ≡ none) × (lookup c.fd p.channels ≡ some c.address)

  -- What holds before a call; the channel's own events may have changed since the last one.
  abbrev pub IsRegistered : Poller ep → Channel → Type 0
  IsRegistered p c = RegisteredAs c.index p c

  abbrev pub InSyncAs : Index → Poller ep → Channel → Type 0
  InSyncAs new p c = ep.interest p.epoll c.fd ≡ none
  InSyncAs added p c =
      (ep.interest p.epoll c.fd ≡ some (c.events, c.address))
      × (lookup c.fd p.channels ≡ some c.address)
  InSyncAs deleted p c =
      (ep.interest p.epoll c.fd ≡ none) × (lookup c.fd p.channels ≡ some c.address)

  -- What holds after a call: epoll watches for the channel's own events.
  abbrev pub InSync : Poller ep → Channel → Type 0
  InSync p c = InSyncAs c.index p c

  pub InSync-IsRegistered :
      (i : Index) (p : Poller ep) (c : Channel) → InSyncAs i p c → RegisteredAs i p c
  InSync-IsRegistered new p c h = h
  InSync-IsRegistered added p c h = (c.events, h.0, h.1)
  InSync-IsRegistered deleted p c h = h

  -- The entries of every other descriptor are as they were.
  abbrev pub Frame : ℕ → Poller ep → Poller ep → Type 0
  Frame fd p q =
      (j : ℕ)
      → j ≢ fd
      → (ep.interest q.epoll j ≡ ep.interest p.epoll j)
        × (lookup j q.channels ≡ lookup j p.channels)

  -- The kernel refuses to take the channel's descriptor up.
  abbrev pub Refused : Poller ep → Channel → Type 0
  Refused p c = Failed ep ctl_add p c

  abbrev pub Synced : Poller ep → Channel → Poller ep × Channel → Type 0
  Synced p c (q, c') =
      InSync q c'
      × Frame c.fd p q
      × (c'.events ≡ c.events)
      × (c'.address ≡ c.address)
      × (c'.fd ≡ c.fd)

  update_at-Synced :
      (i : Index) (p : Poller ep) (c : Channel)
      → i ≡ c.index
      → RegisteredAs i p c
      → OkUnless (Refused p c) (Synced p c) (update_at ep i p c)
  unfolding update_at set_index is_none_event
  update_at-Synced new p c e r =
      let listed = record p { channels = insert c.fd c.address p.channels } in
      let c' = record c { index = added } in
      OkUnless-bind (Refused p c) (Updated ep ctl_add listed c') (Synced p c)
        (update ep listed ctl_add c') _ (update-Updated ep ctl_add listed c')
        λ q u. (
          (u.0, rw u.1 (ground (arith, lookup-insert c.fd c.fd c.address p.channels))),
          λ j ne. (u.2 j ne, rw u.1 (ground (arith, lookup-insert c.fd j c.address p.channels))),
          refl,
          refl,
          refl,
        )
  update_at-Synced deleted p c e r =
      let c' = record c { index = added } in
      OkUnless-bind (Refused p c) (Updated ep ctl_add p c') (Synced p c) (update ep p ctl_add c') _
        (update-Updated ep ctl_add p c')
        λ q u. ((u.0, rw u.1 r.1), λ j ne. (u.2 j ne, rw u.1 refl), refl, refl, refl)
  update_at-Synced added p c e r = elim (Bool-cases (is_none_event c)) [
    | inl nothing ↦ rw nothing (
        OkUnless-bind (Refused p c) (Updated ep ctl_del p c) (Synced p c) (update ep p ctl_del c) _
          (OkUnless-Returns (Refused p c) (Updated ep ctl_del p c) (update ep p ctl_del c)
            (update-deletes ep p c))
          λ q u. ((u.0, rw u.1 r.2), λ j ne. (u.2 j ne, rw u.1 refl), refl, refl, refl))
    | inr some_event ↦ rw some_event (
        OkUnless-bind (Refused p c) (Updated ep ctl_mod p c) (Synced p c) (update ep p ctl_mod c) _
          (OkUnless-Returns (Refused p c) (Updated ep ctl_mod p c) (update ep p ctl_mod c)
            (update-mod ep p c (λ none_there. ground (arith, none_there, r.1))))
          λ q u. (
            subst (λ i. InSyncAs i q c) e (u.0, rw u.1 r.2),
            λ j ne. (u.2 j ne, rw u.1 refl),
            refl,
            refl,
            refl,
          ))
  ]

  -- Whatever its state, a channel whose events have changed is brought in step with epoll by
  -- `updateChannel`, and the process ends only if the kernel refuses to take its descriptor up
  -- (EPOLL_CTL_ADD); its events, address and descriptor stay, and so do the entries of all other
  -- descriptors.
  pub update_channel-Synced :
      (p : Poller ep) (c : Channel)
      → IsRegistered p c
      → OkUnless (Refused p c) (Synced p c) (update_channel ep p c)
  unfolding update_channel
  update_channel-Synced p c r = update_at-Synced c.index p c refl r

  deletes :
      (p : Poller ep) (c : Channel)
      → c.events ≡ 0
      → update_at ep added p c ≡ (update ep p ctl_del c >>= λ q. ok (q, set_index c deleted))
  unfolding update_at is_none_event
  deletes p c e = simp e

  -- Asking for no events takes an added channel out of epoll, and never ends the process.
  pub disable_unregisters :
      (p : Poller ep) (c : Channel)
      → c.index ≡ added
      → c.events ≡ 0
      → (q : Poller ep) × (update_channel ep p c ≡ ok (q, set_index c deleted))
        × (ep.interest q.epoll c.fd ≡ none)
  unfolding update_channel
  disable_unregisters p c i e =
      let (q, went, u) = update-del ep p c in
      (q, ap (λ k. update_at ep k p c) i ∙ deletes p c e ∙ rw went, u.0)

  abbrev pub UnwatchedAs : Index → ep.State → Channel → Type 0
  UnwatchedAs new s c = ep.interest s c.fd ≡ none
  UnwatchedAs added s c = Unit
  UnwatchedAs deleted s c = ep.interest s c.fd ≡ none

  unwatched :
      (i : Index) (p : Poller ep) (c : Channel) → RegisteredAs i p c → UnwatchedAs i p.epoll c
  unwatched new p c r = r
  unwatched added p c r = tt
  unwatched deleted p c r = r.0

  delete_at-Updated :
      (i : Index) (p : Poller ep) (c : Channel)
      → UnwatchedAs i p.epoll c
      → (q : Poller ep) × (delete_at ep i p c ≡ ok q) × Updated ep ctl_del p c q
  unfolding delete_at
  delete_at-Updated new p c r = (p, refl, (r, refl, λ j ne. refl))
  delete_at-Updated added p c r = update-del ep p c
  delete_at-Updated deleted p c r = (p, refl, (r, refl, λ j ne. refl))

  abbrev pub Removed : Poller ep → Channel → Poller ep → Type 0
  Removed p c q =
      (ep.interest q.epoll c.fd ≡ none) × (lookup c.fd q.channels ≡ none) × Frame c.fd p q

  pub remove_unwatched :
      (p : Poller ep) (c : Channel)
      → UnwatchedAs c.index p.epoll c
      → (q : Poller ep) × (remove_channel ep p c ≡ ok (q, set_index c new)) × Removed p c q
  unfolding remove_channel
  remove_unwatched p c r =
      let unlisted = record p { channels = erase c.fd p.channels } in
      let (q, went, u) = delete_at-Updated c.index unlisted c r in
      (
        q,
        rw went,
        (
          u.0,
          rw u.1 (ground (arith, lookup-erase c.fd c.fd p.channels)),
          λ j ne. (u.2 j ne, rw u.1 (ground (arith, lookup-erase c.fd j p.channels))),
        ),
      )

  -- `removeChannel` always comes back: it forgets the channel in the map and in epoll, whatever its
  -- state, makes it new again, and touches no other descriptor.
  pub remove_channel-Removed :
      (p : Poller ep) (c : Channel)
      → IsRegistered p c
      → (q : Poller ep) × (remove_channel ep p c ≡ ok (q, set_index c new)) × Removed p c q
  remove_channel-Removed p c r = remove_unwatched p c (unwatched c.index p c r)

  abbrev pub Passed : Channel → Poller ep × Channel → Type 0
  Passed c (q, c') = (c' ≡ c) × (ep.interest q.epoll c.fd ≡ some (c.events, c.address))

  update_at-added :
      (p : Poller ep) (c : Channel)
      → c.events ≢ 0
      → ep.interest p.epoll c.fd ≢ none
      → Returns (Passed c) (update_at ep added p c)
  unfolding update_at is_none_event
  update_at-added p c ne listed = elim (Bool-cases (is_none_event c)) [
    | inl nothing ↦ absurd (ne ((==_iff c.events 0).0 nothing))
    | inr some_event ↦ rw some_event (
        Returns-bind (Updated ep ctl_mod p c) (Passed c) (update ep p ctl_mod c) _
          (update-mod ep p c listed) λ q u. (refl, u.0))
  ]

  -- A change of the events of an added channel that epoll knows, to events that are not none, is passed
  -- on to epoll, and the process does not end.
  pub update_added :
      (p : Poller ep) (c : Channel)
      → c.index ≡ added
      → c.events ≢ 0
      → ep.interest p.epoll c.fd ≢ none
      → Returns (Passed c) (update_channel ep p c)
  unfolding update_channel
  update_added p c i ne listed =
      subst (λ k. Returns (Passed c) (update_at ep k p c)) (sym i) (update_at-added p c ne listed)

  abbrev pub Registered : Channel → Poller ep × Channel → Type 0
  Registered c (q, c') =
      (c' ≡ record c { index = added }) × (ep.interest q.epoll c.fd ≡ some (c.events, c.address))

  update_at-new :
      (p : Poller ep) (c : Channel) → OkUnless (Refused p c) (Registered c) (update_at ep new p c)
  unfolding update_at set_index
  update_at-new p c =
      let listed = record p { channels = insert c.fd c.address p.channels } in
      let c' = record c { index = added } in
      OkUnless-bind (Refused p c) (Updated ep ctl_add listed c') (Registered c)
        (update ep listed ctl_add c') _ (update-Updated ep ctl_add listed c') λ q u. (refl, u.0)

  -- A new channel is registered with the events that it asks for.
  pub update_new :
      (p : Poller ep) (c : Channel)
      → c.index ≡ new
      → OkUnless (Refused p c) (Registered c) (update_channel ep p c)
  unfolding update_channel
  update_new p c i =
      subst (λ k. OkUnless (Refused p c) (Registered c) (update_at ep k p c)) (sym i)
        (update_at-new p c)
