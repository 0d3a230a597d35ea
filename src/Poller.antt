-- ===== src/Poller.antt =====
-- Poller.h, Poller.cc, EPollPoller.h and EPollPoller.cc: the poller's map from descriptors to
-- channels and its calls of epoll, over an `Epoll` (Kernel.antt). A channel that is changed through
-- its pointer is returned beside the poller; the ones that `fillActiveChannels` changes stand in a
-- store, a function from addresses. Log lines are left out, but the end of the process at LOG_FATAL
-- is `exited`, and `poll` says whether it logs an error.
pub mod Updates
pub mod Sync
pub mod Unwatched
pub mod Wait
use head_write_muduo_epoll_c.Base.{
  ℕ, ◌+◌, ◌*◌, Bool, true, false, ◌&&◌, Option, none, some, List, [], ◌∷◌, ◌++◌, length, ltb, ◌==◌,
  if◌then◌else◌, Outcome, ok, exited, ◌>>=◌, lookup, insert, erase, nat_key,
}
use head_write_muduo_epoll_c.Kernel.{Epoll, CtlOp, ctl_add, ctl_mod, ctl_del}
use head_write_muduo_epoll_c.Channel.{
  Channel, Index, new, added, deleted, is_none_event, set_index, set_revent,
}

abbrev pub init_event_list_size : ℕ
init_event_list_size = 16

abbrev pub eintr : ℕ
eintr = 4

-- What `epoll_wait` returns: -1 with an errno, or the events that it wrote, each a pointer with the
-- events reported for it (none of them at a timeout).
pub data EpollWait : Type 0 where
  wait_failed : ℕ → EpollWait
  happened : List (ℕ × ℕ) → EpollWait

abbrev pub Store : Type 0
Store = ℕ → Channel

abbrev pub update_store : Store → ℕ → Channel → Store
update_store store a c b = if a == b then c else store b

-- The loop of `fillActiveChannels`, over the events and the list that it appends to.
unfoldable pub fill_active_channels : List (ℕ × ℕ) → Store → List ℕ → Store × List ℕ
fill_active_channels [] store active = (store, active)
fill_active_channels ((ptr, events) ∷ rest) store active =
    fill_active_channels rest (update_store store ptr (set_revent (store ptr) events))
      (active ++ ptr ∷ [])

module _ (ep : Epoll) where
  pub record Poller : Type 0 where
    pub epoll : ep.State
    pub channels : List (ℕ × ℕ)
    pub events_size : ℕ

  -- The constructor, with the result of `epoll_create1` (none is -1).
  unfoldable pub new_poller : Option ep.State → Outcome Poller
  new_poller none = exited
  new_poller (some epoll) =
      ok (record { epoll = epoll; channels = []; events_size = init_event_list_size })

  -- `newDefaultPoller`, with whether MUDUO_USE_POLL is set; none is the null pointer.
  unfoldable pub new_default_poller : Bool → Option ep.State → Outcome (Option Poller)
  new_default_poller use_poll epoll =
      if use_poll then ok none else (new_poller epoll >>= λ p. ok (some p))

  unfoldable pub has_channel : Poller → Channel → Bool
  has_channel p c = elim (lookup c.fd p.channels) [ none ↦ false | some a ↦ a == c.address ]

  -- A failed EPOLL_CTL_DEL is only logged; a failed ADD or MOD ends the process.
  after_ctl : Poller → CtlOp → Option ep.State → Outcome Poller
  after_ctl p op (some epoll) = ok (record p { epoll = epoll })
  after_ctl p ctl_del none = ok p
  after_ctl p ctl_add none = exited
  after_ctl p ctl_mod none = exited

  unfoldable pub update : Poller → CtlOp → Channel → Outcome Poller
  unfolding after_ctl
  update p op c = after_ctl p op (ep.ctl p.epoll op c.fd c.events c.address)

  update_at : Index → Poller → Channel → Outcome (Poller × Channel)
  update_at new p c =
      let listed = record p { channels = insert c.fd c.address p.channels } in
      let c' = set_index c added in update listed ctl_add c' >>= λ p'. ok (p', c')
  update_at deleted p c = let c' = set_index c added in update p ctl_add c' >>= λ p'. ok (p', c')
  update_at added p c =
      if is_none_event c
      then (update p ctl_del c >>= λ p'. ok (p', set_index c deleted))
      else (update p ctl_mod c >>= λ p'. ok (p', c))

  unfoldable pub update_channel : Poller → Channel → Outcome (Poller × Channel)
  unfolding update_at
  update_channel p c = update_at c.index p c

  delete_at : Index → Poller → Channel → Outcome Poller
  delete_at added p c = update p ctl_del c
  delete_at new p c = ok p
  delete_at deleted p c = ok p

  unfoldable pub remove_channel : Poller → Channel → Outcome (Poller × Channel)
  unfolding delete_at
  remove_channel p c =
      let unlisted = record p { channels = erase c.fd p.channels } in
      delete_at c.index unlisted c >>= λ p'. ok (p', set_index c new)

  -- The poller, the channels, the list of active ones, and whether LOG_ERROR was called. `events_`
  -- doubles if `epoll_wait` filled it. The returned time is not modelled.
  unfoldable pub poll : Poller → EpollWait → Store → List ℕ → Poller × Store × List ℕ × Bool
  poll p (happened events) store active =
      if ltb 0 (length events)
      then (let (store', active') = fill_active_channels events store active in
          (
            (if length events == p.events_size
                then record p { events_size = p.events_size * 2 }
                else p),
            store',
            active',
            false,
          ))
      else (p, store, active, false)
  poll p (wait_failed errno) store active = (p, store, active, errno == eintr)
