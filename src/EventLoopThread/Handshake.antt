-- ===== src/EventLoopThread/Handshake.antt =====
-- EventLoopThread.cc: `startLoop` against `threadFunc`.
use head_write_muduo_epoll_c.Base.{
  ℕ, ◌≡◌, refl, ap, ◌∙◌, subst, Bool, true, false, Option, none, some, List, [], ◌∷◌, if◌then◌else◌,
  arith,
}
use head_write_muduo_epoll_c.EventLoopThread.{
  LoopThread, Owner, unstarted, at_sem, waiting, got, asking, joining, finished, Runner, absent,
  spawned, posted, made, published, running, quitted, ended, new_loop_thread, Move, spawn, post,
  sem_passed, make, publish, take_loop, begin, leave, ask_quit, retire, destroy_idle, destroy,
  quit_loop, join, Moves, stay, move,
}

-- Whether the runner is past the notification.
abbrev pub is_published : Runner → Bool
is_published absent = false
is_published spawned = false
is_published posted = false
is_published (made a) = false
is_published (published a) = true
is_published (running a) = true
is_published (quitted a) = true
is_published ended = true

-- The calls of the callback that loop `a` has had once it is made.
abbrev pub initial_calls : Bool → ℕ → List ℕ
initial_calls has_callback a = if has_callback then a ∷ [] else []

-- `loop_` for each place of the runner.
abbrev PointerAt : Runner → Option ℕ → Type 0
PointerAt (published a) p = p ≡ some a
PointerAt (running a) p = p ≡ some a
PointerAt (quitted a) p = p ≡ some a
PointerAt _ p = p ≡ none

abbrev CalledAt : Bool → Runner → List ℕ → Type 0
CalledAt has absent calls = calls ≡ []
CalledAt has spawned calls = calls ≡ []
CalledAt has posted calls = calls ≡ []
CalledAt has (made a) calls = calls ≡ initial_calls has a
CalledAt has (published a) calls = calls ≡ initial_calls has a
CalledAt has (running a) calls = calls ≡ initial_calls has a
CalledAt has (quitted a) calls = calls ≡ initial_calls has a
CalledAt has ended calls = Unit

abbrev ReturnedAt : Bool → Owner → Runner → List ℕ → Type 0
ReturnedAt has (got a) r calls = (calls ≡ initial_calls has a) × (is_published r ≡ true)
ReturnedAt has _ r calls = Unit

record Inv (t : LoopThread) : Type 0 where
  pointer : PointerAt t.runner t.loop
  called : CalledAt t.has_callback t.runner t.called
  returned : ReturnedAt t.has_callback t.owner t.runner t.called

-- What `startLoop` has returned stays true while the runner goes on, and it has not returned before.
goes_on :
    (has : Bool) (o : Owner) (r s : Runner) (calls : List ℕ)
    → is_published s ≡ true
    → ReturnedAt has o r calls
    → ReturnedAt has o s calls
goes_on has (got a) r s calls late h = (h.0, late)
goes_on has unstarted r s calls late h = tt
goes_on has at_sem r s calls late h = tt
goes_on has waiting r s calls late h = tt
goes_on has (asking a) r s calls late h = tt
goes_on has joining r s calls late h = tt
goes_on has finished r s calls late h = tt

not_yet :
    (has : Bool) (o : Owner) (r s : Runner) (calls calls' : List ℕ)
    → is_published r ≡ false
    → ReturnedAt has o r calls
    → ReturnedAt has o s calls'
not_yet has (got a) r s calls calls' early h = absurd (ground (arith, h, early))
not_yet has unstarted r s calls calls' early h = tt
not_yet has at_sem r s calls calls' early h = tt
not_yet has waiting r s calls calls' early h = tt
not_yet has (asking a) r s calls calls' early h = tt
not_yet has joining r s calls calls' early h = tt
not_yet has finished r s calls calls' early h = tt

-- A pointer that is set is that of a loop that has been made.
seen :
    (has : Bool) (r : Runner) (p : Option ℕ) (calls : List ℕ) {a : ℕ}
    → PointerAt r p
    → CalledAt has r calls
    → p ≡ some a
    → (calls ≡ initial_calls has a) × (is_published r ≡ true)
seen has absent p calls at c e = absurd (ground (arith, at, e))
seen has spawned p calls at c e = absurd (ground (arith, at, e))
seen has posted p calls at c e = absurd (ground (arith, at, e))
seen has (made b) p calls at c e = absurd (ground (arith, at, e))
seen has (published b) p calls at c e = ground (arith, at, c, e)
seen has (running b) p calls at c e = ground (arith, at, c, e)
seen has (quitted b) p calls at c e = ground (arith, at, c, e)
seen has ended p calls at c e = absurd (ground (arith, at, e))

module _ {t : LoopThread} (v : Inv t) where
  at_runner : {r : Runner} → t.runner ≡ r → PointerAt r t.loop × CalledAt t.has_callback r t.called
  at_runner e =
      subst (λ r. PointerAt r t.loop × CalledAt t.has_callback r t.called) e (v.pointer, v.called)

  early_runner :
      {r : Runner} → t.runner ≡ r → is_published r ≡ false → is_published t.runner ≡ false
  early_runner e early = ap is_published e ∙ early

  advance : (s : Runner) → is_published s ≡ true → ReturnedAt t.has_callback t.owner s t.called
  advance s late = goes_on t.has_callback t.owner t.runner s t.called late v.returned

  before :
      {r : Runner} (s : Runner) (calls : List ℕ)
      → t.runner ≡ r
      → is_published r ≡ false
      → ReturnedAt t.has_callback t.owner s calls
  before s calls e early =
      not_yet t.has_callback t.owner t.runner s t.called calls (early_runner e early) v.returned

Move-Inv : {t u : LoopThread} → Move t u → Inv t → Inv u
Move-Inv {t} (spawn e f) v = record {
  pointer = (at_runner v f).0;
  called = (at_runner v f).1;
  returned = tt;
}
Move-Inv {t} (post e) v = record {
  pointer = (at_runner v e).0;
  called = (at_runner v e).1;
  returned = before v posted t.called e refl;
}
Move-Inv {t} (sem_passed e f) v = record { pointer = v.pointer; called = v.called; returned = tt }
Move-Inv {t} (make a e) v = record {
  pointer = (at_runner v e).0;
  called = ground (arith, (at_runner v e).1);
  returned = before v (made a) _ e refl;
}
Move-Inv {t} (publish a e) v = record {
  pointer = refl;
  called = (at_runner v e).1;
  returned = advance v (published a) refl;
}
Move-Inv {t} (take_loop a e f) v = record {
  pointer = v.pointer;
  called = v.called;
  returned = seen t.has_callback t.runner t.loop t.called v.pointer v.called f;
}
Move-Inv {t} (begin a e) v = record {
  pointer = (at_runner v e).0;
  called = (at_runner v e).1;
  returned = advance v (running a) refl;
}
Move-Inv {t} (leave a e q) v = record {
  pointer = (at_runner v e).0;
  called = (at_runner v e).1;
  returned = advance v (quitted a) refl;
}
Move-Inv {t} (ask_quit a e) v = record {
  pointer = v.pointer;
  called = v.called;
  returned = v.returned;
}
Move-Inv {t} (retire a e) v = record {
  pointer = refl;
  called = tt;
  returned = advance v ended refl;
}
Move-Inv {t} (destroy_idle a e f) v = record {
  pointer = v.pointer;
  called = v.called;
  returned = tt;
}
Move-Inv {t} (destroy a b e f) v = record { pointer = v.pointer; called = v.called; returned = tt }
Move-Inv {t} (quit_loop b e) v = record { pointer = v.pointer; called = v.called; returned = tt }
Move-Inv {t} (join e f) v = record { pointer = v.pointer; called = v.called; returned = tt }

new_loop_thread-Inv : (has_callback : Bool) → Inv (new_loop_thread has_callback)
unfolding new_loop_thread
new_loop_thread-Inv has_callback = record { pointer = refl; called = refl; returned = tt }

Moves-Inv : {t u : LoopThread} → Moves t u → Inv t → Inv u
Moves-Inv stay v = v
Moves-Inv (move ms m) v = Move-Inv m (Moves-Inv ms v)

-- In every interleaving, when `startLoop` has returned a loop, the thread is past the notification,
-- and the callback, if the thread has one, has been called once, with this loop.
pub start_loop_returns_initialised :
    (has_callback : Bool) {t : LoopThread} {a : ℕ}
    → Moves (new_loop_thread has_callback) t
    → t.owner ≡ got a
    → (t.called ≡ initial_calls t.has_callback a) × (is_published t.runner ≡ true)
start_loop_returns_initialised has_callback {t} ms e =
    subst (λ o. ReturnedAt t.has_callback o t.runner t.called) e
      (Moves-Inv ms (new_loop_thread-Inv has_callback)).returned
