-- ===== src/EventLoop/Lifetime.antt =====
-- EventLoop.cc: the constructor and the destructor.
use head_write_muduo_epoll_c.Base.{
  ℕ, ◌≡◌, refl, ap, subst, Bool, true, false, Option, none, some, ok, OkUnless, OkUnless-bind,
  OkUnless-because, ◌⊎◌, inl, inr, lookup, nat_key,
}
use head_write_muduo_epoll_c.Kernel.{Epoll, EventFd, ctl_add}
use head_write_muduo_epoll_c.Channel.{
  Channel, new, added, deleted, new_channel, set_read_callback, with_reading, without_all,
  set_index,
}
use head_write_muduo_epoll_c.Poller.{new_poller, new_default_poller}
use head_write_muduo_epoll_c.Poller.Sync.{
  Registered, Refused, update_new, disable_unregisters, remove_unwatched,
}
use head_write_muduo_epoll_c.EventLoop.{
  EventLoop, new_event_loop, destroy_event_loop, create_eventfd, begin_event_loop, enable_reading,
  disable_all, update_channel, remove_channel,
}

module _ (ep : Epoll) (ef : EventFd) (F : Type 0) where
  -- The destructor goes through, and forgets the descriptor of the wakeup channel in epoll and in
  -- the map of channels.
  abbrev pub IsForgotten : ℕ → EventLoop ep ef F → Channel → Type 0
  IsForgotten fd l c =
      (t : EventLoop ep ef F × Channel) × (destroy_event_loop ep ef F l c ≡ ok t)
      × (ep.interest t.0.poller.epoll fd ≡ none)
      × (lookup fd t.0.poller.channels ≡ none)

  destroy_forgets : (l : EventLoop ep ef F) (c : Channel) → c.index ≡ added → IsForgotten c.fd l c
  unfolding destroy_event_loop disable_all update_channel remove_channel without_all set_index
  destroy_forgets l c i =
      let (q, went, gone) = disable_unregisters ep l.poller (without_all c) i refl in
      let d = set_index (without_all c) deleted in
      let (q', left, forgotten) = remove_unwatched ep q d gone in
      (
        (record l { poller = q' }, set_index d new),
        rw went (rw left refl),
        forgotten.0,
        forgotten.1,
      )

  abbrev pub Watches : ℕ → ℕ → ℕ → EventLoop ep ef F × Channel → Type 0
  Watches tid address fd (l, c) =
      (l.thread_id ≡ tid) × (ep.interest l.poller.epoll fd ≡ some (3, address)) × IsForgotten fd l c

  enable_reading-Watches :
      (address fd : ℕ) (l : EventLoop ep ef F)
      → OkUnless
          (ep.ctl l.poller.epoll ctl_add fd 3 address ≡ none)
          (Watches l.thread_id address fd)
          (enable_reading ep ef F l (set_read_callback (new_channel address fd) true))
  unfolding enable_reading update_channel set_read_callback new_channel with_reading
  enable_reading-Watches address fd l =
      let c = with_reading (set_read_callback (new_channel address fd) true) in
      OkUnless-bind (Refused ep l.poller c) (Registered ep c) (Watches l.thread_id address fd) _ _
        (update_new ep l.poller c refl)
        λ r u.
          let l' = record l { poller = r.0 } in
          (
            refl,
            u.1,
            subst (λ k. IsForgotten k l' r.1) (ap (λ k. k.fd) u.0)
                (destroy_forgets l' r.1 (ap (λ k. k.index) u.0)),
          )

  -- Why the constructor can end the process: MUDUO_USE_POLL is set, the thread has a loop, there is no
  -- epoll or eventfd, or epoll refuses the eventfd.
  abbrev pub CannotBegin : Bool → Bool → Option ep.State → Option ef.Counter → ℕ → ℕ → Type 0
  CannotBegin use_poll has_loop epoll evfd address fd =
      (use_poll ≡ true)
      ⊎ (has_loop ≡ true)
      ⊎ (epoll ≡ none)
      ⊎ (evfd ≡ none)
      ⊎ ((e : ep.State) × (epoll ≡ some e) × (ep.ctl e ctl_add fd 3 address ≡ none))

  -- The constructor of EventLoop goes through unless MUDUO_USE_POLL is set, the thread has a loop
  -- already, or the kernel gives no epoll or eventfd or refuses to watch the eventfd. Then the loop
  -- belongs to the calling thread, epoll watches the eventfd for input (the mask 3) with the address
  -- of the wakeup channel, and the destructor always goes through and forgets the eventfd, in epoll
  -- and in the map of channels.
  pub new_then_destroy :
      (tid : ℕ) (use_poll has_loop : Bool) (epoll : Option ep.State) (evfd : Option ef.Counter)
      (address fd : ℕ)
      → OkUnless
          (CannotBegin use_poll has_loop epoll evfd address fd)
          (Watches tid address fd)
          (new_event_loop ep ef F tid use_poll has_loop epoll evfd address fd)
  unfolding new_event_loop create_eventfd begin_event_loop new_default_poller new_poller
  new_then_destroy tid true has_loop epoll none address fd = inl refl
  new_then_destroy tid true has_loop epoll (some n) address fd = inl refl
  new_then_destroy tid false has_loop none evfd address fd = inr (inr (inl refl))
  new_then_destroy tid false has_loop (some e) none address fd = inr (inr (inr (inl refl)))
  new_then_destroy tid false true (some e) (some n) address fd = inr (inl refl)
  new_then_destroy tid false false (some e) (some n) address fd =
      OkUnless-because (Watches tid address fd) (ep.ctl e ctl_add fd 3 address ≡ none)
        (CannotBegin false false (some e) (some n) address fd)
        (λ refused. inr (inr (inr (inr (e, refl, refused))))) _
        (enable_reading-Watches address fd _)
