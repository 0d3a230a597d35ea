-- ===== src/EventLoop/Threads/Progress.antt =====
-- EventLoop.cc: the loop thread by itself, from wherever an interleaving of EventLoop/Threads.antt has
-- left it. `poll` comes back only for the wakeup channel here: no other channel is active, and the time
-- limit of the wait does not help.
use head_write_muduo_epoll_c.Base.{
  ℕ, ◌≡◌, ◌≢◌, refl, sym, ap, ◌∙◌, subst, inl, inr, Bool, true, false, Bool-cases, List-cases,
  Option, none, some, List, [], ◌∷◌, ◌++◌, append-nil, append_assoc, arith, if◌then◌else◌,
}
use head_write_muduo_epoll_c.Kernel.{Epoll, EventFd}
use head_write_muduo_epoll_c.EventLoop.{
  EventLoop, handle_read, begin_pending, swap_pending, end_pending,
}
use head_write_muduo_epoll_c.EventLoop.Threads.{
  Phase, polling, handling, running, stopped, rest_of, System, Step, polled, read_wakeup, swap,
  call, finish, stop, Reach, next, start, IsReady,
}
use head_write_muduo_epoll_c.EventLoop.Threads.Wakeup.{functors_in_order, no_lost_wakeup}

module _ (ep : Epoll) (ef : EventFd) (F : Type 0) where
  -- The next step of the loop thread; none where it waits in `poll` or has ended.
  unfoldable pub advance : Phase F → System ep ef F → Option (System ep ef F)
  advance polling s =
      if ef.is_readable s.loop.wakeup_counter
      then some (record s { phase = handling true })
      else none
  advance (handling true) s =
      some (record s { loop = handle_read ep ef F s.loop; phase = handling false })
  advance (handling false) s = some (record s {
    loop = (swap_pending ep ef F (begin_pending ep ef F s.loop)).1;
    phase = running (swap_pending ep ef F (begin_pending ep ef F s.loop)).0;
  })
  advance (running (f ∷ rest)) s =
      some (record s { phase = running rest; called = s.called ++ f ∷ [] })
  advance (running []) s = some (record s {
    loop = end_pending ep ef F s.loop;
    phase = if s.loop.quitting then stopped else polling;
  })
  advance stopped s = none

  -- Some steps of the loop thread alone.
  pub data Alone : System ep ef F → System ep ef F → Type 0 where
    rests : {s : System ep ef F} → Alone s s
    goes : {s t u : System ep ef F} → advance s.phase s ≡ some t → Alone t u → Alone s u

  abbrev Landed : System ep ef F → Option (System ep ef F) → Type 0
  Landed s none = Unit
  Landed s (some t) = Step ep ef F s t

  same_end :
      {s t u : System ep ef F}
      → Step ep ef F s t
      → ◌≡◌ {A = Option (System ep ef F)} (some t) (some u)
      → Step ep ef F s u
  same_end {s} st e = subst (λ (o : Option (System ep ef F)). Landed s o) e st

  advance-Step :
      (ph : Phase F) {s t : System ep ef F}
      → s.phase ≡ ph
      → advance ph s ≡ some t
      → Step ep ef F s t
  unfolding advance
  advance-Step polling {s} p e = elim (Bool-cases (ef.is_readable s.loop.wakeup_counter)) [
    | inl readable ↦
        same_end (subst (λ b. Step ep ef F s (record s { phase = handling b })) readable (polled p))
          (sym (rw readable refl) ∙ e)
    | inr not_readable ↦ absurd (ground (arith, e, not_readable))
  ]
  advance-Step (handling true) p e = same_end (read_wakeup p) e
  advance-Step (handling false) p e = same_end (swap p) e
  advance-Step (running (f ∷ rest)) p e = same_end (call f rest p) e
  advance-Step (running []) {s} p e = elim (Bool-cases s.loop.quitting) [
    | inl quits ↦ same_end (stop p quits) (sym (rw quits refl) ∙ e)
    | inr goes_on ↦ same_end (finish p goes_on) (sym (rw goes_on refl) ∙ e)
  ]
  advance-Step stopped p e = absurd (ground (arith, e))

  Alone-Reach : {r s t : System ep ef F} → Reach ep ef F r s → Alone s t → Reach ep ef F r t
  Alone-Reach reached rests = reached
  Alone-Reach reached (goes {s} e more) =
      Alone-Reach (next reached (advance-Step s.phase refl e)) more

  -- The functors of a batch, one after the other.
  run_batch :
      (rest : List F) (s : System ep ef F)
      → Alone
          (record s { phase = running rest })
          (record s { phase = running []; called = s.called ++ rest })
  unfolding advance
  run_batch [] s =
      subst
        (λ c. Alone (record s { phase = running [] }) (record s { phase = running []; called = c }))
        (sym (append-nil s.called)) rests
  run_batch (f ∷ rest) s = goes refl (
      subst
        (λ c.
          Alone (record s { phase = running rest; called = s.called ++ f ∷ [] })
            (record s { phase = running []; called = c }))
        (append_assoc s.called (f ∷ []) rest)
        (run_batch rest (record s { called = s.called ++ f ∷ [] })))

  -- What is pending when the batch is taken is called.
  last_round :
      (s : System ep ef F)
      → (t : System ep ef F) × Alone (record s { phase = handling false }) t
        × (t.called ≡ s.called ++ s.loop.pending_functors)
        × (t.queued ≡ s.queued)
  unfolding advance swap_pending begin_pending
  last_round s =
      let taken = (swap_pending ep ef F (begin_pending ep ef F s.loop)).1 in
      (
        record s { loop = taken; phase = running []; called = s.called ++ s.loop.pending_functors },
        goes refl (run_batch s.loop.pending_functors (record s { loop = taken })),
        refl,
        refl,
      )

  -- From the channels on: the wakeup channel first, if it is active.
  handled_round :
      (b : Bool) (s : System ep ef F)
      → (t : System ep ef F) × Alone (record s { phase = handling b }) t
        × (t.called ≡ s.called ++ s.loop.pending_functors)
        × (t.queued ≡ s.queued)
  unfolding advance handle_read
  handled_round false s = last_round s
  handled_round true s =
      let (t, run, called, queued) = last_round (record s { loop = handle_read ep ef F s.loop }) in
      (t, goes refl run, called, queued)

  CalledAll : System ep ef F → Type 0
  CalledAll s = (t : System ep ef F) × Alone s t × (t.called ≡ s.queued) × (t.queued ≡ s.queued)

  module _ (waking : ℕ) (l : EventLoop ep ef F) (ready : IsReady ep ef F waking l)
      {s : System ep ef F} (reached : Reach ep ef F (start ep ef F waking l) s)
      (quiet : s.waking ≡ 0) where
    polling-CalledAll : s.phase ≡ polling → CalledAll s
    unfolding advance CalledAll
    polling-CalledAll p = elim (List-cases s.loop.pending_functors) [
      | inl none_left ↦ (
        s,
        rests,
        sym (
            functors_in_order ep ef F waking l reached
            ∙ ap (λ ph. s.called ++ (rest_of ph ++ s.loop.pending_functors)) p
            ∙ ap (◌++◌ s.called) none_left
            ∙ append-nil s.called),
        refl,
      )
      | inr some_left ↦
          let readable = no_lost_wakeup ep ef F waking l ready reached p quiet (inl some_left) in
          let (t, run, called, queued) = handled_round true s in
          (
            t,
            goes (ap (λ ph. advance ph s) p ∙ rw readable refl) run,
            called
                ∙ sym (
                    functors_in_order ep ef F waking l reached
                    ∙ ap (λ ph. s.called ++ (rest_of ph ++ s.loop.pending_functors)) p),
            queued,
          )
    ]

    handling-CalledAll : (b : Bool) → s.phase ≡ handling b → CalledAll s
    unfolding CalledAll
    handling-CalledAll b p =
        let (t, run, called, queued) = handled_round b s in
        (
          t,
          subst (λ ph. Alone (record s { phase = ph }) t) (sym p) run,
          called
              ∙ sym (
                  functors_in_order ep ef F waking l reached
                  ∙ ap (λ ph. s.called ++ (rest_of ph ++ s.loop.pending_functors)) p),
          queued,
        )

  Alone-trans : {s t u : System ep ef F} → Alone s t → Alone t u → Alone s u
  Alone-trans rests more = more
  Alone-trans (goes e run) more = goes e (Alone-trans run more)

  -- From a batch on: to its end, and from there through the next `poll`.
  running-CalledAll :
      (waking : ℕ) (l : EventLoop ep ef F) {s : System ep ef F} (rest : List F)
      → IsReady ep ef F waking l
      → Reach ep ef F (start ep ef F waking l) s
      → s.waking ≡ 0
      → s.loop.quitting ≡ false
      → s.phase ≡ running rest
      → CalledAll s
  unfolding CalledAll advance end_pending
  running-CalledAll waking l {s} rest ready reached quiet goes_on p =
      let again : System ep ef F = record s {
        loop = end_pending ep ef F s.loop;
        phase = polling;
        called = s.called ++ rest;
      } in
      let run : Alone s again =
        Alone-trans
          (subst
            (λ ph.
              Alone (record s { phase = ph })
                (record s { phase = running []; called = s.called ++ rest }))
            (sym p) (run_batch rest s))
          (goes (rw goes_on refl) rests) in
      let (t, more, called, queued) =
        polling-CalledAll waking l ready (Alone-Reach reached run) quiet refl in
      (t, Alone-trans run more, called, queued)

  -- `loop` begins while no functor is being called and with any functors pending, but if there are
  -- some, then the eventfd is readable or another thread is about to write to it (what the loop's own
  -- thread queues before `loop` has no such wake-up). Whatever the interleaving since, if `quit_` is
  -- not set, the loop has not ended and no other thread stands between its queueing and its wake-up,
  -- then the loop thread by itself comes to a state in which every functor that was queued, those
  -- pending at the beginning included, has been called; and that state is one that the interleavings
  -- reach. `poll` needs no time limit for this: the wakeup channel is enough.
  pub all_get_called :
      (waking : ℕ) (l : EventLoop ep ef F) {s : System ep ef F}
      → IsReady ep ef F waking l
      → Reach ep ef F (start ep ef F waking l) s
      → s.waking ≡ 0
      → s.loop.quitting ≡ false
      → s.phase ≢ stopped
      → (t : System ep ef F) × Alone s t
        × (t.called ≡ s.queued)
        × (t.queued ≡ s.queued)
        × Reach ep ef F (start ep ef F waking l) t
  unfolding CalledAll
  all_get_called waking l {s} ready reached quiet goes_on lives =
      let (t, run, called, queued) = by_phase s.phase refl in
      (t, run, called, queued, Alone-Reach reached run)
    where
      by_phase : (ph : Phase F) → s.phase ≡ ph → CalledAll s
      by_phase polling p = polling-CalledAll waking l ready reached quiet p
      by_phase (handling b) p = handling-CalledAll waking l ready reached quiet b p
      by_phase (running rest) p = running-CalledAll waking l rest ready reached quiet goes_on p
      by_phase stopped p = absurd (lives p)
