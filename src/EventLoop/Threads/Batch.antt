-- ===== src/EventLoop/Threads/Batch.antt =====
-- EventLoop.cc: `doPendingFunctors` as it is written, as steps of EventLoop/Threads.antt.
use head_write_muduo_epoll_c.Base.{
  ◌≡◌, ◌≢◌, refl, sym, ap, ◌∙◌, subst, inl, inr, Bool, false, Bool-cases, List, [], ◌∷◌, ◌++◌,
  append-nil, append_assoc, arith, if◌then◌else◌, Outcome, ok,
}
use head_write_muduo_epoll_c.Kernel.{Epoll, EventFd}
use head_write_muduo_epoll_c.Poller.{Store}
use head_write_muduo_epoll_c.EventLoop.{
  EventLoop, World, each, queue_in_loop, push_functor, notify, wakeup, begin_pending, swap_pending,
  end_pending, do_pending_functors,
}
use head_write_muduo_epoll_c.EventLoop.Threads.{
  Phase, polling, handling, running, stopped, System, Step, queue_own, swap, call, finish, stop,
  Reach, here, next,
}

module _ (ep : Epoll) (ef : EventFd) (F : Type 0) where
  -- Some functors queued in the loop's own thread, one after the other.
  pub queue_all : List F → EventLoop ep ef F → EventLoop ep ef F
  queue_all [] l = l
  queue_all (g ∷ gs) l = queue_all gs (queue_in_loop ep ef F l.thread_id g l)

  -- A call of a functor queues the functors `own` of it, in this order, and does nothing else to the
  -- loop.
  abbrev pub QueuesOwn : (F → List F) → (F → World ep ef F → Outcome (World ep ef F)) → Type 0
  QueuesOwn own run =
      (f : F) (l : EventLoop ep ef F) (store : Store)
      → (store' : Store) × (run f (l, store) ≡ ok (queue_all (own f) l, store'))

  queue_in_loop-quitting :
      (f : F) (l : EventLoop ep ef F)
      → (queue_in_loop ep ef F l.thread_id f l).quitting ≡ l.quitting
  unfolding queue_in_loop push_functor notify wakeup
  queue_in_loop-quitting f l = ground arith

  queue_all-quitting :
      (gs : List F) (l : EventLoop ep ef F) → (queue_all gs l).quitting ≡ l.quitting
  unfolding queue_all
  queue_all-quitting [] l = refl
  queue_all-quitting (g ∷ gs) l =
      queue_all-quitting gs (queue_in_loop ep ef F l.thread_id g l) ∙ queue_in_loop-quitting g l

  running_not_polling : (rest : List F) → ◌≢◌ {A = Phase F} (running rest) polling
  running_not_polling rest e = ground (arith, e)

  queue_all-Reach :
      (gs : List F) {r : System ep ef F} (s : System ep ef F)
      → s.phase ≢ polling
      → Reach ep ef F r s
      → Reach ep ef F r (record s { loop = queue_all gs s.loop; queued = s.queued ++ gs })
  unfolding queue_all
  queue_all-Reach [] {r} s busy reached =
      subst (λ q. Reach ep ef F r (record s { queued = q })) (sym (append-nil s.queued)) reached
  queue_all-Reach (g ∷ gs) {r} s busy reached =
      subst (λ q. Reach ep ef F r (record s { loop = queue_all (g ∷ gs) s.loop; queued = q }))
        (append_assoc s.queued (g ∷ []) gs)
        (queue_all-Reach gs
          (record s {
            loop = queue_in_loop ep ef F s.loop.thread_id g s.loop;
            queued = s.queued ++ g ∷ [];
          })
          busy (next reached (queue_own g busy)))

  module _ (own : F → List F) (run : F → World ep ef F → Outcome (World ep ef F))
      (queues : QueuesOwn own run) where
    -- What the calls of a batch come to.
    Batch : List F → System ep ef F → System ep ef F → Store → Type 0
    Batch rest r s store =
        (t : System ep ef F) × (store' : Store) × Reach ep ef F r t
        × (each (run) rest (s.loop, store) ≡ ok (t.loop, store'))
        × (t.phase ≡ running [])
        × (t.called ≡ s.called ++ rest)
        × (t.loop.quitting ≡ s.loop.quitting)

    run-Batch :
        (rest : List F) {r : System ep ef F} (s : System ep ef F) (store : Store)
        → s.phase ≡ running rest
        → Reach ep ef F r s
        → Batch rest r s store
    unfolding Batch each
    run-Batch [] s store p reached = (s, store, reached, refl, p, sym (append-nil s.called), refl)
    run-Batch (f ∷ rest) {r} s store p reached =
        let (store', went) = queues f s.loop store in
        let now : System ep ef F = record s {
          loop = queue_all (own f) s.loop;
          phase = running rest;
          queued = s.queued ++ own f;
          called = s.called ++ f ∷ [];
        } in
        let (t, last, more, goes, ended, called, quits) = run-Batch rest now store' refl (
          queue_all-Reach (own f) (record s { phase = running rest; called = s.called ++ f ∷ [] })
            (running_not_polling rest) (next reached (call f rest p))) in
        (
          t,
          last,
          more,
          rw went goes,
          ended,
          called ∙ append_assoc s.called (f ∷ []) rest,
          quits ∙ queue_all-quitting (own f) s.loop,
        )

    ending-Step :
        (t : System ep ef F)
        → t.phase ≡ running []
        → Step ep ef F t (record t {
          loop = end_pending ep ef F t.loop;
          phase = if t.loop.quitting then stopped else polling;
        })
    ending-Step t p =
        let ended = λ (b : Bool). record t {
          loop = end_pending ep ef F t.loop;
          phase = if b then stopped else polling;
        } in
        elim (Bool-cases t.loop.quitting) [
          | inl quits ↦ subst (λ b. Step ep ef F t (ended b)) (sym quits) (stop p quits)
          | inr goes_on ↦ subst (λ b. Step ep ef F t (ended b)) (sym goes_on) (finish p goes_on)
        ]

    -- A run of `doPendingFunctors`, where the functors only queue functors of their own in the loop, is
    -- a run of the steps of the interleaving model: from the loop thread's place before the swap, with
    -- the same loop before and after it; it calls just the functors that were pending, in order, and
    -- leaves the loop thread at `poll`, or past `loop` if `quit_` is set.
    pub do_pending_functors-Reach :
        (s : System ep ef F) (store : Store)
        → s.phase ≡ handling false
        → (t : System ep ef F) × (store' : Store) × Reach ep ef F s t
          × (do_pending_functors ep ef F run (s.loop, store) ≡ ok (t.loop, store'))
          × (t.called ≡ s.called ++ s.loop.pending_functors)
          × (t.phase ≡ (if s.loop.quitting then stopped else polling))
    unfolding do_pending_functors swap_pending begin_pending Batch
    do_pending_functors-Reach s store p =
        let taken : System ep ef F = record s {
          loop = (swap_pending ep ef F (begin_pending ep ef F s.loop)).1;
          phase = running s.loop.pending_functors;
        } in
        let (t, last, reached, goes, ended, called, quits) =
          run-Batch s.loop.pending_functors taken store refl (next here (swap p)) in
        (
          record t {
            loop = end_pending ep ef F t.loop;
            phase = if t.loop.quitting then stopped else polling;
          },
          last,
          next reached (ending-Step t ended),
          rw goes refl,
          called,
          ap (λ b. if b then stopped else polling) quits,
        )
