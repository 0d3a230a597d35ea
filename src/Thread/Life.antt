-- ===== src/Thread/Life.antt =====
-- Thread.cc: the life of a Thread, up to its destructor.
use head_write_muduo_epoll_c.Base.{ℕ, ◌≡◌, refl, List, [], ◌∷◌, Outcome, ok, ◌>>=◌, Returns}
use head_write_muduo_epoll_c.Kernel.{Decimal}
use head_write_muduo_epoll_c.Thread.{
  StdThread, absent, joinable, waited_for, detached, Thread, new_thread, put_thread, start,
  std_join, std_detach, join, drop_thread, destroy,
}

-- What the owner calls.
pub data ThreadCall : Type 0 where
  starts : ℕ → ThreadCall
  joins : ThreadCall

pub run_call : ThreadCall → Thread → Outcome Thread
run_call (starts tid) t = start tid t
run_call joins t = join t

pub run_calls : List ThreadCall → Thread → Outcome Thread
run_calls [] t = ok t
run_calls (c ∷ calls) t = run_call c t >>= run_calls calls

-- At most one start, and at most one join behind it.
abbrev pub AreInOrder : StdThread → List ThreadCall → Type 0
AreInOrder h [] = Unit
AreInOrder absent (starts tid ∷ calls) = AreInOrder joinable calls
AreInOrder absent (joins ∷ calls) = ⊥
AreInOrder joinable (starts tid ∷ calls) = ⊥
AreInOrder joinable (joins ∷ calls) = AreInOrder waited_for calls
AreInOrder waited_for (c ∷ calls) = ⊥
AreInOrder detached (c ∷ calls) = ⊥

-- What the destructor leaves of the std::thread: none was made, it was joined, or it runs on, detached.
abbrev pub ended_as : List ThreadCall → StdThread
ended_as [] = absent
ended_as (starts tid ∷ []) = detached
ended_as (starts tid ∷ c ∷ calls) = waited_for
ended_as (joins ∷ calls) = absent

-- A Thread that is started at most once, and joined at most once and then after the start, goes
-- through these calls and is destroyed without std::terminate: what is left of the std::thread is
-- nothing if it was not started, a thread that was joined if it was joined, and a thread that was
-- detached if it was started and not joined.
pub destroy-ended :
    (dec : Decimal) (name : List ℕ) (num_created : ℕ) (calls : List ThreadCall)
    → AreInOrder absent calls
    → Returns
        (λ t. destroy t ≡ ok (ended_as calls))
        (run_calls calls (new_thread dec name num_created).0)
unfolding new_thread run_calls run_call start put_thread join std_join destroy std_detach
    drop_thread
destroy-ended dec name num_created [] order = refl
destroy-ended dec name num_created (starts tid ∷ []) order = refl
destroy-ended dec name num_created (starts tid ∷ starts other ∷ calls) order = absurd order
destroy-ended dec name num_created (starts tid ∷ joins ∷ []) order = refl
destroy-ended dec name num_created (starts tid ∷ joins ∷ c ∷ calls) order = absurd order
destroy-ended dec name num_created (joins ∷ calls) order = absurd order
