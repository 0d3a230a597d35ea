-- ===== src/EventLoop/Threads/Keeps.antt =====
-- EventLoop.cc: the steps of EventLoop/Threads.antt and the invariant on wake-ups.
use head_write_muduo_epoll_c.Base.{
  ℕ, suc, ◌≡◌, ◌≢◌, refl, sym, ap, ◌∙◌, subst, inl, inr, Bool, true, false, List, [], ◌∷◌, ◌++◌,
  arith, ==_iff, Bool-cases,
}
use head_write_muduo_epoll_c.Kernel.{Epoll, EventFd}
use head_write_muduo_epoll_c.EventLoop.{
  EventLoop, wakeup, handle_read, push_functor, notify, queue_in_loop, begin_pending, swap_pending,
  end_pending, is_in_loop_thread, mark_quit, quit,
}
use head_write_muduo_epoll_c.EventLoop.Threads.{
  Phase, polling, handling, running, stopped, System, Step, push, wake, ask_quit, polled,
  read_wakeup, queue_own, swap, call, finish, stop, quit_own, IsAlerted, is_running, AlertIn, Inv,
}

module _ (ep : Epoll) (ef : EventFd) (F : Type 0) where
  -- A step that leaves somebody to wake the loop.
  alert_by : (ph : Phase F) (t : System ep ef F) → IsAlerted ep ef F t → AlertIn ep ef F ph t
  alert_by polling t a = λ w. a
  alert_by (handling b) t a = tt
  alert_by (running rest) t a = λ w. a
  alert_by stopped t a = tt

  -- A step of the loop thread outside `doPendingFunctors`.
  alert_idle :
      (ph : Phase F) (t : System ep ef F)
      → is_running ep ef F ph ≡ false
      → ph ≢ polling
      → AlertIn ep ef F ph t
  alert_idle polling t e p = absurd (p refl)
  alert_idle (handling b) t e p = tt
  alert_idle (running rest) t e p = absurd (cc)
  alert_idle stopped t e p = tt

  -- A step of the loop thread that only changes `quit_`.
  alert_same :
      (s : System ep ef F) (ph : Phase F)
      → ph ≢ polling
      → AlertIn ep ef F ph s
      → AlertIn ep ef F ph (record s { loop = record s.loop { quitting = true } })
  alert_same s polling p a = absurd (p refl)
  alert_same s (handling b) p a = tt
  alert_same s (running rest) p a = a
  alert_same s stopped p a = tt

  notify-other :
      (l : EventLoop ep ef F) (tid : ℕ)
      → tid ≢ l.thread_id
      → notify ep ef F tid l ≡ wakeup ep ef F l
  unfolding notify is_in_loop_thread
  notify-other l tid other = ground (arith, ==_iff l.thread_id tid)

  notify-calling :
      (l : EventLoop ep ef F) (tid : ℕ)
      → l.calling_pending_functors ≡ true
      → notify ep ef F tid l ≡ wakeup ep ef F l
  unfolding notify
  notify-calling l tid busy = ground arith

  notify-own :
      (l : EventLoop ep ef F)
      → l.calling_pending_functors ≡ false
      → notify ep ef F l.thread_id l ≡ l
  unfolding notify is_in_loop_thread
  notify-own l free = ground arith

  quit-own : (l : EventLoop ep ef F) → quit ep ef F l.thread_id l ≡ mark_quit ep ef F l
  unfolding quit is_in_loop_thread mark_quit
  quit-own l = ground arith

  push-Inv :
      {s : System ep ef F} (f : F)
      → Inv ep ef F s
      → Inv ep ef F (record s {
        loop = push_functor ep ef F f s.loop;
        waking = suc s.waking;
        queued = s.queued ++ f ∷ [];
      })
  unfolding push_functor
  push-Inv {s} f v = record {
    calling = v.calling;
    alerted = alert_by s.phase _ (inl (omega arith));
  }

  wake-Inv :
      {s : System ep ef F} (tid n : ℕ)
      → tid ≢ s.loop.thread_id
      → Inv ep ef F s
      → Inv ep ef F (record s { loop = notify ep ef F tid s.loop; waking = n })
  unfolding wakeup
  wake-Inv {s} tid n other v = rw (notify-other s.loop tid other) (record {
    calling = v.calling;
    alerted = alert_by s.phase _ (inr (ef.is_readable-write_one s.loop.wakeup_counter));
  })

  queue_own-Inv :
      {s : System ep ef F} (f : F)
      → s.phase ≢ polling
      → Inv ep ef F s
      → Inv ep ef F (record s {
        loop = queue_in_loop ep ef F s.loop.thread_id f s.loop;
        queued = s.queued ++ f ∷ [];
      })
  unfolding queue_in_loop push_functor wakeup
  queue_own-Inv {s} f p v = elim (Bool-cases s.loop.calling_pending_functors) [
    | inl busy ↦ rw (notify-calling (push_functor ep ef F f s.loop) s.loop.thread_id busy) (record {
      calling = v.calling;
      alerted = alert_by s.phase _ (inr (ef.is_readable-write_one s.loop.wakeup_counter));
    })
    | inr free ↦
        rw (notify-own (push_functor ep ef F f s.loop) free)
          (record { calling = v.calling; alerted = alert_idle s.phase _ (sym v.calling ∙ free) p })
  ]

  quit_own-Inv :
      {s : System ep ef F}
      → s.phase ≢ polling
      → Inv ep ef F s
      → Inv ep ef F (record s { loop = quit ep ef F s.loop.thread_id s.loop })
  unfolding mark_quit
  quit_own-Inv {s} p v =
      rw (quit-own s.loop)
        (record { calling = v.calling; alerted = alert_same s s.phase p v.alerted })

  ask_quit-Inv :
      {s : System ep ef F}
      → Inv ep ef F s
      → Inv ep ef F (record s { loop = mark_quit ep ef F s.loop; waking = suc s.waking })
  unfolding mark_quit
  ask_quit-Inv {s} v = record {
    calling = v.calling;
    alerted = alert_by s.phase _ (inl (omega arith));
  }

  polled-Inv :
      {s : System ep ef F} (b : Bool)
      → s.phase ≡ polling
      → Inv ep ef F s
      → Inv ep ef F (record s { phase = handling b })
  polled-Inv {s} b p v = record { calling = v.calling ∙ ap (is_running ep ef F) p; alerted = tt }

  read_wakeup-Inv :
      {s : System ep ef F}
      → s.phase ≡ handling true
      → Inv ep ef F s
      → Inv ep ef F (record s { loop = handle_read ep ef F s.loop; phase = handling false })
  unfolding handle_read
  read_wakeup-Inv {s} p v = record { calling = v.calling ∙ ap (is_running ep ef F) p; alerted = tt }

  stop-Inv :
      {s : System ep ef F}
      → s.phase ≡ running []
      → Inv ep ef F s
      → Inv ep ef F (record s { loop = end_pending ep ef F s.loop; phase = stopped })
  unfolding end_pending
  stop-Inv {s} p v = record { calling = refl; alerted = tt }

  swap-Inv :
      {s : System ep ef F}
      → s.phase ≡ handling false
      → Inv ep ef F s
      → Inv ep ef F (record s {
        loop = (swap_pending ep ef F (begin_pending ep ef F s.loop)).1;
        phase = running (swap_pending ep ef F (begin_pending ep ef F s.loop)).0;
      })
  unfolding swap_pending begin_pending
  swap-Inv {s} p v = record { calling = refl; alerted = λ w. absurd (w refl) }

  call-Inv :
      {s : System ep ef F} (f : F) (rest : List F)
      → s.phase ≡ running (f ∷ rest)
      → Inv ep ef F s
      → Inv ep ef F (record s { phase = running rest; called = s.called ++ f ∷ [] })
  call-Inv {s} f rest p v = record {
    calling = v.calling ∙ ap (is_running ep ef F) p;
    alerted = subst (λ ph. AlertIn ep ef F ph s) p v.alerted;
  }

  finish-Inv :
      {s : System ep ef F}
      → s.phase ≡ running []
      → s.loop.quitting ≡ false
      → Inv ep ef F s
      → Inv ep ef F (record s { loop = end_pending ep ef F s.loop; phase = polling })
  unfolding end_pending
  finish-Inv {s} p q v = record {
    calling = refl;
    alerted = λ w. elim w [
      | inl h ↦ subst (λ ph. AlertIn ep ef F ph s) p v.alerted h
      | inr e ↦ absurd (cc)
    ];
  }

  -- Every step keeps the invariant.
  pub Step-Inv : {s t : System ep ef F} → Step ep ef F s t → Inv ep ef F s → Inv ep ef F t
  Step-Inv (push f) v = push-Inv f v
  Step-Inv (wake tid n other w) v = wake-Inv tid n other v
  Step-Inv ask_quit v = ask_quit-Inv v
  Step-Inv (polled p) v = polled-Inv _ p v
  Step-Inv (read_wakeup p) v = read_wakeup-Inv p v
  Step-Inv (queue_own f p) v = queue_own-Inv f p v
  Step-Inv (swap p) v = swap-Inv p v
  Step-Inv (call f rest p) v = call-Inv f rest p v
  Step-Inv (finish p q) v = finish-Inv p q v
  Step-Inv (stop p q) v = stop-Inv p v
  Step-Inv (quit_own p) v = quit_own-Inv p v
