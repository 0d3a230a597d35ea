-- ===== src/Thread/Handshake.antt =====
-- Thread.cc: `start`, between the thread that calls it and the new one, which has the number `n`.
use head_write_muduo_epoll_c.Base.{ℕ, suc, ◌+◌, ◌≡◌, refl, subst, Bool, true, false, arith}

-- The caller is before `start`, at `sem_wait`, or past it.
pub data Caller : Type 0 where
  before_start at_sem returned : Caller

-- The new thread is not there, begins, has written `tid_`, has posted and is in `func_`, or has ended.
pub data Child : Type 0 where
  none_yet : Child
  began wrote_tid in_func done : ℕ → Child

pub record Starting : Type 0 where
  pub started : Bool
  pub tid : ℕ
  pub sem : ℕ
  pub caller : Caller
  pub child : Child

unfoldable pub unstarted : Starting
unstarted = record { started = false; tid = 0; sem = 0; caller = before_start; child = none_yet }

pub data Move (s : Starting) : Starting → Type 0 where
  spawn :
      (n : ℕ)
      → s.caller ≡ before_start
      → s.child ≡ none_yet
      → Move s (record s { started = true; sem = 0; caller = at_sem; child = began n })
  write_tid : (n : ℕ) → s.child ≡ began n → Move s (record s { tid = n; child = wrote_tid n })
  post : (n : ℕ) → s.child ≡ wrote_tid n → Move s (record s { sem = s.sem + 1; child = in_func n })
  finish : (n : ℕ) → s.child ≡ in_func n → Move s (record s { child = done n })
  sem_passed :
      (k : ℕ) → s.caller ≡ at_sem → s.sem ≡ suc k → Move s (record s { sem = k; caller = returned })

pub data Moves (s : Starting) : Starting → Type 0 where
  stay : Moves s s
  move : {t u : Starting} → Moves s t → Move t u → Moves s u

-- The new thread is past its post, and this is its number.
abbrev pub PastPost : Child → ℕ → Type 0
PastPost (in_func n) tid = tid ≡ n
PastPost (done n) tid = tid ≡ n
PastPost _ tid = ⊥

abbrev SemAt : Child → ℕ → ℕ → Type 0
SemAt none_yet sem tid = sem ≡ 0
SemAt (began n) sem tid = sem ≡ 0
SemAt (wrote_tid n) sem tid = (sem ≡ 0) × (tid ≡ n)
SemAt (in_func n) sem tid = tid ≡ n
SemAt (done n) sem tid = tid ≡ n

abbrev CallerAt : Caller → Child → ℕ → Bool → Type 0
CallerAt before_start child tid started = Unit
CallerAt at_sem child tid started = started ≡ true
CallerAt returned child tid started = PastPost child tid × (started ≡ true)

record Inv (s : Starting) : Type 0 where
  sem_at : SemAt s.child s.sem s.tid
  caller_at : CallerAt s.caller s.child s.tid s.started

-- Nobody has returned before the post.
early :
    (caller : Caller) (child : Child) (tid tid' : ℕ) (other : Child) (started : Bool)
    → (PastPost child tid → PastPost other tid')
    → CallerAt caller child tid started
    → CallerAt caller other tid' started
early before_start child tid tid' other started f h = tt
early at_sem child tid tid' other started f h = h
early returned child tid tid' other started f h = (f h.0, h.1)

sem_of : (child : Child) (sem tid k : ℕ) → sem ≡ suc k → SemAt child sem tid → PastPost child tid
sem_of none_yet sem tid k e h = absurd (omega arith)
sem_of (began n) sem tid k e h = absurd (omega arith)
sem_of (wrote_tid n) sem tid k e h = absurd (omega arith)
sem_of (in_func n) sem tid k e h = h
sem_of (done n) sem tid k e h = h

taken : (child : Child) (sem tid k : ℕ) → sem ≡ suc k → SemAt child sem tid → SemAt child k tid
taken none_yet sem tid k e h = absurd (omega arith)
taken (began n) sem tid k e h = absurd (omega arith)
taken (wrote_tid n) sem tid k e h = absurd (omega arith)
taken (in_func n) sem tid k e h = h
taken (done n) sem tid k e h = h

Move-Inv : {s t : Starting} → Move s t → Inv s → Inv t
Move-Inv (spawn n p q) v = record { sem_at = refl; caller_at = refl }
Move-Inv {s} (write_tid n p) v = record {
  sem_at = (subst (λ c. SemAt c s.sem s.tid) p v.sem_at, refl);
  caller_at =
      early s.caller (began n) s.tid n (wrote_tid n) s.started (λ no. absurd no)
        (subst (λ c. CallerAt s.caller c s.tid s.started) p v.caller_at);
}
Move-Inv {s} (post n p) v =
    let same : s.tid ≡ n = (subst (λ c. SemAt c s.sem s.tid) p v.sem_at).1 in
    record {
      sem_at = same;
      caller_at =
          early s.caller (wrote_tid n) s.tid s.tid (in_func n) s.started (λ no. same)
            (subst (λ c. CallerAt s.caller c s.tid s.started) p v.caller_at);
    }
Move-Inv {s} (finish n p) v = record {
  sem_at = subst (λ c. SemAt c s.sem s.tid) p v.sem_at;
  caller_at =
      early s.caller (in_func n) s.tid s.tid (done n) s.started (λ same. same)
        (subst (λ c. CallerAt s.caller c s.tid s.started) p v.caller_at);
}
Move-Inv {s} (sem_passed k p e) v = record {
  sem_at = taken s.child s.sem s.tid k e v.sem_at;
  caller_at = (
    sem_of s.child s.sem s.tid k e v.sem_at,
    subst (λ c. CallerAt c s.child s.tid s.started) p v.caller_at,
  );
}

Moves-Inv : {t : Starting} → Moves unstarted t → Inv t
unfolding unstarted
Moves-Inv stay = record { sem_at = refl; caller_at = tt }
Moves-Inv (move r m) = Move-Inv m (Moves-Inv r)

-- However the two threads interleave, when `start` has returned, the new thread has posted and is in
-- its function or past it, `tid_` is its number, and `started_` is set.
pub start_returns_tid :
    {t : Starting}
    → Moves unstarted t
    → t.caller ≡ returned
    → PastPost t.child t.tid × (t.started ≡ true)
start_returns_tid {t} r p =
    subst (λ c. CallerAt c t.child t.tid t.started) p (Moves-Inv r).caller_at
