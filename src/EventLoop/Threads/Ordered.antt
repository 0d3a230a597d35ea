-- ===== src/EventLoop/Threads/Ordered.antt =====
-- EventLoop.cc: the order of the functors in the steps of EventLoop/Threads.antt.
use head_write_muduo_epoll_c.Base.{
  ℕ, ◌≡◌, refl, sym, ap, ◌∙◌, List, [], ◌∷◌, ◌++◌, append-nil, append_assoc, arith,
}
use head_write_muduo_epoll_c.Kernel.{Epoll, EventFd}
use head_write_muduo_epoll_c.EventLoop.{
  EventLoop, wakeup, handle_read, push_functor, notify, queue_in_loop, begin_pending, swap_pending,
  end_pending, is_in_loop_thread, mark_quit, quit,
}
use head_write_muduo_epoll_c.EventLoop.Threads.{
  Phase, rest_of, System, Step, push, wake, ask_quit, polled, read_wakeup, queue_own, swap, call,
  finish, stop, quit_own, Reach, here, next, start,
}

module _ (ep : Epoll) (ef : EventFd) (F : Type 0) where
  -- What was queued is what was called, what the running batch has left, and what is pending.
  abbrev pub IsOrdered : System ep ef F → Type 0
  IsOrdered s = s.queued ≡ s.called ++ (rest_of s.phase ++ s.loop.pending_functors)

  notify-pending_functors :
      (tid : ℕ) (l : EventLoop ep ef F)
      → (notify ep ef F tid l).pending_functors ≡ l.pending_functors
  unfolding notify wakeup
  notify-pending_functors tid l = ground arith

  quit-pending_functors :
      (tid : ℕ) (l : EventLoop ep ef F) → (quit ep ef F tid l).pending_functors ≡ l.pending_functors
  unfolding quit is_in_loop_thread mark_quit wakeup
  quit-pending_functors tid l = ground arith

  order_push :
      (queued called rest pending : List F) (f : F)
      → queued ≡ called ++ (rest ++ pending)
      → queued ++ f ∷ [] ≡ called ++ (rest ++ (pending ++ f ∷ []))
  order_push queued called rest pending f e = rw e (simp append_assoc)

  -- The order in a phase that is known.
  at_phase :
      (s : System ep ef F) {ph : Phase F}
      → s.phase ≡ ph
      → IsOrdered s
      → s.queued ≡ s.called ++ (rest_of ph ++ s.loop.pending_functors)
  at_phase s p v = v ∙ ap (λ ph. s.called ++ (rest_of ph ++ s.loop.pending_functors)) p

  same_pending :
      (s : System ep ef F) {pending : List F}
      → pending ≡ s.loop.pending_functors
      → IsOrdered s
      → s.queued ≡ s.called ++ (rest_of s.phase ++ pending)
  same_pending s e v = v ∙ ap (λ fs. s.called ++ (rest_of s.phase ++ fs)) (sym e)

  Step-IsOrdered : {s t : System ep ef F} → Step ep ef F s t → IsOrdered s → IsOrdered t
  unfolding push_functor mark_quit handle_read swap_pending begin_pending end_pending queue_in_loop
  Step-IsOrdered {s} (push f) v =
      order_push s.queued s.called (rest_of s.phase) s.loop.pending_functors f v
  Step-IsOrdered {s} (wake tid n other w) v = same_pending s (notify-pending_functors tid s.loop) v
  Step-IsOrdered ask_quit v = v
  Step-IsOrdered {s} (polled p) v = at_phase s p v
  Step-IsOrdered {s} (read_wakeup p) v = at_phase s p v
  Step-IsOrdered {s} (queue_own f p) v =
      order_push s.queued s.called (rest_of s.phase) s.loop.pending_functors f v
      ∙ ap (λ fs. s.called ++ (rest_of s.phase ++ fs))
          (sym (notify-pending_functors s.loop.thread_id (push_functor ep ef F f s.loop)))
  Step-IsOrdered {s} (swap p) v =
      at_phase s p v ∙ ap (◌++◌ s.called) (sym (append-nil s.loop.pending_functors))
  Step-IsOrdered {s} (call f rest p) v =
      at_phase s p v ∙ sym (append_assoc s.called (f ∷ []) (rest ++ s.loop.pending_functors))
  Step-IsOrdered {s} (finish p q) v = at_phase s p v
  Step-IsOrdered {s} (stop p q) v = at_phase s p v
  Step-IsOrdered {s} (quit_own p) v =
      same_pending s (quit-pending_functors s.loop.thread_id s.loop) v

  pub Reach-IsOrdered : {s t : System ep ef F} → Reach ep ef F s t → IsOrdered s → IsOrdered t
  Reach-IsOrdered here v = v
  Reach-IsOrdered (next r st) v = Step-IsOrdered st (Reach-IsOrdered r v)

  pub start-IsOrdered : (waking : ℕ) (l : EventLoop ep ef F) → IsOrdered (start ep ef F waking l)
  unfolding start
  start-IsOrdered waking l = refl
