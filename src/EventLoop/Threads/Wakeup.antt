-- ===== src/EventLoop/Threads/Wakeup.antt =====
-- EventLoop.cc: the queue of functors and the wake-up, over all interleavings of
-- EventLoop/Threads.antt.
use head_write_muduo_epoll_c.Base.{ℕ, ◌≡◌, inl, inr, true, ◌++◌, subst, arith}
use head_write_muduo_epoll_c.Kernel.{Epoll, EventFd}
use head_write_muduo_epoll_c.EventLoop.{EventLoop}
use head_write_muduo_epoll_c.EventLoop.Threads.{
  polling, rest_of, System, Reach, here, next, start, HasWork, AlertIn, Inv, IsReady, start-Inv,
}
use head_write_muduo_epoll_c.EventLoop.Threads.Ordered.{Reach-IsOrdered, start-IsOrdered}
use head_write_muduo_epoll_c.EventLoop.Threads.Keeps.{Step-Inv}

module _ (ep : Epoll) (ef : EventFd) (F : Type 0) where
  Reach-Inv : {s t : System ep ef F} → Inv ep ef F s → Reach ep ef F s t → Inv ep ef F t
  Reach-Inv v here = v
  Reach-Inv v (next r st) = Step-Inv ep ef F st (Reach-Inv v r)

  -- In every interleaving that starts before the first `poll`, the functors queued so far, those
  -- pending at the start included, are those called, then those of the running batch, then those
  -- pending: each is called once, in the order of the queueing, and none is lost.
  pub functors_in_order :
      (waking : ℕ) (l : EventLoop ep ef F) {s : System ep ef F}
      → Reach ep ef F (start ep ef F waking l) s
      → s.queued ≡ s.called ++ (rest_of s.phase ++ s.loop.pending_functors)
  functors_in_order waking l r = Reach-IsOrdered ep ef F r (start-IsOrdered ep ef F waking l)

  -- No wake-up is lost. `loop` begins while no functor is being called and with any functors pending,
  -- but if there are some, then the eventfd is readable or another thread is about to write to it:
  -- they come from other threads, since what the loop's own thread queues before `loop` is pending
  -- without a wake-up. Then in every interleaving, when the loop thread is at `poll`, no other thread
  -- is between queueing (or setting `quit_`) and its wake-up, and a functor is pending or `quit_` is
  -- set, the eventfd is readable, so that `poll` comes back.
  pub no_lost_wakeup :
      (waking : ℕ) (l : EventLoop ep ef F) {s : System ep ef F}
      → IsReady ep ef F waking l
      → Reach ep ef F (start ep ef F waking l) s
      → s.phase ≡ polling
      → s.waking ≡ 0
      → HasWork ep ef F s
      → ef.is_readable s.loop.wakeup_counter ≡ true
  no_lost_wakeup waking l {s} ready r p idle work =
      elim (subst (λ ph. AlertIn ep ef F ph s) p
        (Reach-Inv (start-Inv ep ef F waking l ready) r).alerted work) [
          | inl busy ↦ absurd (omega arith)
          | inr e ↦ e
        ]
