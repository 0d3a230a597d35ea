-- ===== src/EventLoopThreadPool/RoundRobin.antt =====
-- EventLoopThreadPool.cc: `start`, and the choice of a loop by `getNextLoop`.
use head_write_muduo_epoll_c.Base.{
  ℕ, zero, suc, ◌+◌, ◌%◌, ◌<◌, ◌≡◌, refl, sym, ap, ◌∙◌, Bool, true, false, inl, inr, Option, List,
  [], ◌∷◌, ◌++◌, append_assoc, append-nil, length, get_elem?, leb, arith, ◌==◌, Bool-cases,
  if◌then◌else◌,
}
use native.Mathlib.Nat.{mod-add-mod, mod-eq_of_lt, mod_self, mod-lt}
use head_write_muduo_epoll_c.EventLoopThreadPool.{
  EventLoopThreadPool, start, start_threads, set_thread_num, new_pool, get_next_loop, get_all_loops,
  is_empty,
}

-- What `getNextLoop` answers the k-th time, counted from 0.
pub kth_loop : ℕ → EventLoopThreadPool → Option ℕ
kth_loop zero p = (get_next_loop p).0
kth_loop (suc k) p = kth_loop k (get_next_loop p).1

is_empty-length : (xs : List ℕ) → 0 < length xs → is_empty xs ≡ false
is_empty-length [] h = absurd (omega arith)
is_empty-length (x ∷ xs) h = refl

step_round : (n i : ℕ) → i < n → (if leb n (i + 1) then 0 else i + 1) ≡ (i + 1) % n
step_round n i h = elim (Bool-cases (leb n (i + 1))) [
  | inl last ↦
      let whole : i + 1 ≡ n = ground arith in rw last (sym (ap (λ k. k % n) whole ∙ mod_self n))
  | inr before ↦ rw before (sym (mod-eq_of_lt (ground arith)))
]

module _ (p : EventLoopThreadPool) (some_loops : 0 < length p.loops) where
  chosen : (get_next_loop p).0 ≡ get_elem? p.loops p.next
  unfolding get_next_loop
  chosen = ground (arith, is_empty-length p.loops some_loops)

  loops_kept : (get_next_loop p).1.loops ≡ p.loops
  unfolding get_next_loop
  loops_kept = ground arith

  next_round : p.next < length p.loops → (get_next_loop p).1.next ≡ (p.next + 1) % length p.loops
  unfolding get_next_loop
  next_round h =
      ground (arith, is_empty-length p.loops some_loops, step_round (length p.loops) p.next h)

-- With n loops, n not 0, and the index in range, the k-th call answers with the loop k places on from the
-- index, counted round the n loops: every loop has its turn in any n calls, in the same order.
pub kth_loop-round :
    (k : ℕ) (p : EventLoopThreadPool)
    → p.next < length p.loops
    → kth_loop k p ≡ get_elem? p.loops ((p.next + k) % length p.loops)
unfolding kth_loop
kth_loop-round zero p h =
    chosen p (omega arith)
    ∙ ap (get_elem? p.loops)
        (sym (mod-eq_of_lt (omega arith)) ∙ ap (λ i. i % length p.loops) (omega arith))
kth_loop-round (suc k) p h =
    let q = (get_next_loop p).1 in
    let kept = loops_kept p (omega arith) in
    let moved = next_round p (omega arith) h in
    kth_loop-round k q
      (omega (arith, moved, ap length kept, mod-lt (p.next + 1) {m = length p.loops} (omega arith)))
    ∙ ap (λ xs. get_elem? xs ((q.next + k) % length xs)) kept
    ∙ ap (get_elem? p.loops) (
        ap (λ i. (i + k) % length p.loops) moved
        ∙ mod-add-mod (p.next + 1) (length p.loops) k
        ∙ ap (λ i. i % length p.loops) (omega arith))

module _ (decimal : ℕ → List ℕ) (start_loop : ℕ → ℕ) (has_callback : Bool) where
  -- The loops of the threads `i`, `i + 1` and so on, `k` of them.
  abbrev pub from_to : ℕ → ℕ → List ℕ
  from_to zero i = []
  from_to (suc k) i = start_loop i ∷ from_to k (i + 1)

  start_threads-loops :
      (k i : ℕ) (p : EventLoopThreadPool)
      → ((start_threads decimal start_loop has_callback k i p).loops ≡ p.loops ++ from_to k i)
        × ((start_threads decimal start_loop has_callback k i p).initialised
            ≡ p.initialised ++ (if has_callback then from_to k i else []))
        × ((start_threads decimal start_loop has_callback k i p).num_threads ≡ p.num_threads)
        × ((start_threads decimal start_loop has_callback k i p).base_loop ≡ p.base_loop)
  unfolding start_threads
  start_threads-loops zero i p = ground (arith, append-nil p.loops, append-nil p.initialised)
  start_threads-loops (suc k) i p =
      let p' : EventLoopThreadPool = record p {
        thread_names = p.thread_names ++ (p.name ++ decimal i) ∷ [];
        loops = p.loops ++ start_loop i ∷ [];
        initialised = if has_callback then p.initialised ++ start_loop i ∷ [] else p.initialised;
      } in
      ground (
        arith,
        start_threads-loops k (i + 1) p',
        append_assoc p.loops (start_loop i ∷ []) (from_to k (i + 1)),
        append_assoc p.initialised (start_loop i ∷ []) (from_to k (i + 1)),
      )

  abbrev new_started : ℕ → ℕ → List ℕ → EventLoopThreadPool
  new_started n base_loop name = record (set_thread_num n (new_pool base_loop name)) {
    started = true;
  }

  -- `start` on a new pool that is to have n threads makes one loop for each of them, in order, and
  -- calls the initial callback, if it is set, once with each loop that will run: those of the
  -- threads, or with no threads the base loop. Those are the loops of `getAllLoops`.
  pub start-get_all_loops :
      (n base_loop : ℕ) (name : List ℕ)
      → let p =
          start decimal start_loop has_callback (set_thread_num n (new_pool base_loop name)) in
        (p.loops ≡ from_to n 0)
        × (get_all_loops p ≡ (if n == 0 then base_loop ∷ [] else from_to n 0))
        × (p.initialised ≡ (if has_callback then get_all_loops p else []))
  unfolding start set_thread_num new_pool get_all_loops
  start-get_all_loops zero base_loop name =
      ground (arith, start_threads-loops zero 0 (new_started zero base_loop name))
  start-get_all_loops (suc n) base_loop name =
      ground (arith, start_threads-loops (suc n) 0 (new_started (suc n) base_loop name))
