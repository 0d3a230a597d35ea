-- ===== src/Poller/Wait.antt =====
-- EPollPoller.cc: `poll` and `fillActiveChannels`.
use head_write_muduo_epoll_c.Base.{
  ℕ, ◌≤◌, ◌<◌, ◌≡◌, ◌↔◌, refl, ap, ◌∙◌, sym, true, false, List, [], ◌∷◌, ◌++◌, append_assoc,
  append-nil, length, lt→ltb, arith, ◌==◌, if◌then◌else◌,
}
use head_write_muduo_epoll_c.Kernel.{Epoll}
use head_write_muduo_epoll_c.Channel.{set_revent}
use head_write_muduo_epoll_c.Poller.{
  EpollWait, wait_failed, happened, Store, fill_active_channels, Poller, poll, eintr,
}

abbrev pub pointers : List (ℕ × ℕ) → List ℕ
pointers [] = []
pointers ((ptr, events) ∷ rest) = ptr ∷ pointers rest

-- The events of an answer of `epoll_wait`.
abbrev pub events_of : EpollWait → List (ℕ × ℕ)
events_of (wait_failed errno) = []
events_of (happened events) = events

-- What epoll reported last for a channel, if it is among the events.
abbrev pub reported : ℕ → List (ℕ × ℕ) → ℕ → ℕ
reported a [] before = before
reported a ((ptr, events) ∷ rest) before = reported a rest (if ptr == a then events else before)

-- The active channels are those of the events, in order, behind the ones that were there.
pub fill_active_channels-active :
    (events : List (ℕ × ℕ)) (store : Store) (active : List ℕ)
    → (fill_active_channels events store active).1 ≡ active ++ pointers events
unfolding fill_active_channels
fill_active_channels-active [] store active = sym (append-nil active)
fill_active_channels-active ((ptr, ev) ∷ rest) store active =
    fill_active_channels-active rest _ (active ++ ptr ∷ [])
    ∙ append_assoc active (ptr ∷ []) (pointers rest)

-- Each channel's `revents` is what epoll reported for it, and its old value if nothing was; what it
-- asks for stays.
pub fill_active_channels-revents :
    (events : List (ℕ × ℕ)) (store : Store) (active : List ℕ) (a : ℕ)
    → ((fill_active_channels events store active).0 a).revents ≡ reported a events (store a).revents
unfolding fill_active_channels set_revent
fill_active_channels-revents [] store active a = refl
fill_active_channels-revents ((ptr, ev) ∷ rest) store active a =
    fill_active_channels-revents rest _ (active ++ ptr ∷ []) a ∙ ap (reported a rest) (ground arith)

module _ (ep : Epoll) where
  -- Where `epoll_wait` reports at most as many events as the event list, which is not empty, has room
  -- for, the list then has room for more than those, and it has not shrunk.
  pub poll_grows :
      (p : Poller ep) (events : List (ℕ × ℕ)) (store : Store) (active : List ℕ)
      → 0 < p.events_size
      → length events ≤ p.events_size
      → let (q, store', active', logged) = poll ep p (happened events) store active in
        (length events < q.events_size) × (p.events_size ≤ q.events_size)
  unfolding poll
  poll_grows p events store active h k = ground arith

  happened_hands_over :
      (p : Poller ep) (events : List (ℕ × ℕ)) (store : Store) (active : List ℕ)
      → let (q, store', active', logged) = poll ep p (happened events) store active in
        (active' ≡ active ++ pointers events)
        × ((a : ℕ) → (store' a).revents ≡ reported a events (store a).revents)
        × (logged ≡ false)
  unfolding poll
  happened_hands_over p [] store active = (sym (append-nil active), λ a. refl, refl)
  happened_hands_over p (e ∷ rest) store active = rw (lt→ltb 0 (length (e ∷ rest)) (omega arith)) (
    fill_active_channels-active (e ∷ rest) store active,
    fill_active_channels-revents (e ∷ rest) store active,
    refl,
  )

  -- Whatever `epoll_wait` answers, `poll` appends the channels of the events that it reported, in
  -- order, and none if it failed; each channel's `revents` is what was reported for it, and else
  -- its old value; and an error is logged if a signal interrupted the call (EINTR) and only then:
  -- every other failure passes in silence.
  pub poll_hands_over :
      (p : Poller ep) (wait : EpollWait) (store : Store) (active : List ℕ)
      → let (q, store', active', logged) = poll ep p wait store active in
        (active' ≡ active ++ pointers (events_of wait))
        × ((a : ℕ) → (store' a).revents ≡ reported a (events_of wait) (store a).revents)
        × ((logged ≡ true) ↔ (wait ≡ wait_failed eintr))
  unfolding poll
  poll_hands_over p (wait_failed errno) store active =
      (sym (append-nil active), λ a. refl, ground arith)
  poll_hands_over p (happened events) store active =
      let (handed, revents, quiet) = happened_hands_over p events store active in
      (handed, revents, ground (arith, quiet))
