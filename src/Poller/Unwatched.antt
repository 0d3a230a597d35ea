-- ===== src/Poller/Unwatched.antt =====
-- EPollPoller.cc: `updateChannel` of a channel that epoll does not watch unless it is added.
use head_write_muduo_epoll_c.Base.{
  ◌≡◌, refl, subst, inl, inr, Bool-cases, IfOk, IfOk-bind, IfOk-OkUnless, IfOk-always,
}
use head_write_muduo_epoll_c.Kernel.{Epoll, ctl_add, ctl_mod, ctl_del}
use head_write_muduo_epoll_c.Channel.{Channel, Index, new, added, deleted, is_none_event, set_index}
use head_write_muduo_epoll_c.Poller.{Poller, update, update_at, update_channel}
use head_write_muduo_epoll_c.Poller.Sync.{UnwatchedAs}
use head_write_muduo_epoll_c.Poller.Updates.{Updated, update-Updated, Failed}

module _ (ep : Epoll) where
  abbrev pub UnwatchedNow : Poller ep × Channel → Type 0
  UnwatchedNow (q, c) = UnwatchedAs ep c.index q.epoll c

  update_at-Unwatched :
      (i : Index) (p : Poller ep) (c : Channel)
      → i ≡ c.index
      → IfOk UnwatchedNow (update_at ep i p c)
  unfolding update_at set_index is_none_event
  update_at-Unwatched new p c e = IfOk-always UnwatchedNow (update ep _ ctl_add _) _ λ q. tt
  update_at-Unwatched deleted p c e = IfOk-always UnwatchedNow (update ep p ctl_add _) _ λ q. tt
  update_at-Unwatched added p c e = elim (Bool-cases (is_none_event c)) [
    | inl nothing ↦ rw nothing (
        IfOk-bind (Updated ep ctl_del p c) UnwatchedNow (update ep p ctl_del c) _
          (IfOk-OkUnless (Failed ep ctl_del p c) (Updated ep ctl_del p c) (update ep p ctl_del c)
            (update-Updated ep ctl_del p c))
          λ q u. u.0)
    | inr some_event ↦ rw some_event (
        IfOk-always UnwatchedNow (update ep p ctl_mod c) _
          λ q. subst (λ i. UnwatchedAs ep i q.epoll c) e tt)
  ]

  pub update_channel-Unwatched :
      (p : Poller ep) (c : Channel) → IfOk UnwatchedNow (update_channel ep p c)
  unfolding update_channel
  update_channel-Unwatched p c = update_at-Unwatched c.index p c refl
