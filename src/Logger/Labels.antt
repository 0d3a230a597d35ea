-- ===== src/Logger/Labels.antt =====
-- Logger.h: the macros of several threads, one call of the Logger after the other.
use head_write_muduo_epoll_c.Base.{
  ℕ, zero, suc, ==_iff, subst, sym, ◌<◌, true, ◌≡◌, refl, ap, ◌∙◌, List, [], ◌∷◌, ◌++◌, take, arith,
}
use head_write_muduo_epoll_c.Logger.{
  Logger, info, error, fatal, debug, set_log_level, label, line, log, in_buf, log_info, log_error,
  log_fatal, log_debug,
}

-- The two calls that every macro makes, of whatever thread.
pub data LogCall : Type 0 where
  sets : ℕ → LogCall
  logs : List ℕ → List ℕ → LogCall

unfoldable pub run_call : LogCall → Logger → Logger
run_call (sets level) l = set_log_level level l
run_call (logs stamp msg) l = log stamp (in_buf msg) l

unfoldable pub run_calls : List LogCall → Logger → Logger
run_calls [] l = l
run_calls (c ∷ calls) l = run_calls calls (run_call c l)

-- The level that was set last.
abbrev pub last_set : ℕ → List LogCall → ℕ
last_set level [] = level
last_set level (sets other ∷ calls) = last_set other calls
last_set level (logs stamp msg ∷ calls) = last_set level calls

run_calls-append :
    (before calls : List LogCall) (l : Logger)
    → run_calls (before ++ calls) l ≡ run_calls calls (run_calls before l)
unfolding run_calls
run_calls-append [] calls l = refl
run_calls-append (c ∷ before) calls l = run_calls-append before calls (run_call c l)

run_calls-log_level :
    (calls : List LogCall) (l : Logger) → (run_calls calls l).log_level ≡ last_set l.log_level calls
unfolding run_calls run_call set_log_level log
run_calls-log_level [] l = refl
run_calls-log_level (sets level ∷ calls) l =
    run_calls-log_level calls (record l { log_level = level })
run_calls-log_level (logs stamp msg ∷ calls) l =
    run_calls-log_level calls (log stamp (in_buf msg) l)

-- The macros, uninterrupted, as their calls.
macro_calls :
    (stamp msg : List ℕ) (l : Logger)
    → let calls = λ (level : ℕ). run_calls (sets level ∷ logs stamp msg ∷ []) l in
      (log_info stamp msg l ≡ calls info)
      × (log_error stamp msg l ≡ calls error)
      × ((log_fatal stamp msg l).0 ≡ calls fatal)
      × (log_debug true stamp msg l ≡ calls debug)
unfolding run_calls run_call log_info log_error log_fatal log_debug
macro_calls stamp msg l = (refl, refl, refl, refl)

-- The labels of the levels INFO, ERROR, FATAL and DEBUG of LogLevel, by their numbers; another number
-- has none.
pub data Labelled : ℕ → List ℕ → Type 0 where
  says_info : Labelled 0 (b'[' ∷ b'I' ∷ b'N' ∷ b'F' ∷ b'O' ∷ b']' ∷ [])
  says_error : Labelled 1 (b'[' ∷ b'E' ∷ b'R' ∷ b'R' ∷ b'O' ∷ b'R' ∷ b']' ∷ [])
  says_fatal : Labelled 2 (b'[' ∷ b'F' ∷ b'A' ∷ b'T' ∷ b'A' ∷ b'L' ∷ b']' ∷ [])
  says_debug : Labelled 3 (b'[' ∷ b'D' ∷ b'E' ∷ b'B' ∷ b'U' ∷ b'G' ∷ b']' ∷ [])
  says_nothing : {k : ℕ} → 3 < k → Labelled k []

label-other : (k : ℕ) → 3 < k → label k ≡ []
unfolding label
label-other k more = ground (arith, more, ==_iff k 0, ==_iff k 1, ==_iff k 2, ==_iff k 3)

label-Labelled : (k : ℕ) → Labelled k (label k)
unfolding label
label-Labelled zero = says_info
label-Labelled (suc zero) = says_error
label-Labelled (suc (suc zero)) = says_fatal
label-Labelled (suc (suc (suc zero))) = says_debug
label-Labelled (suc (suc (suc (suc k)))) =
    let other = suc (suc (suc (suc k))) in
    subst (Labelled other) (sym (label-other other (omega arith))) (says_nothing (omega arith))

line-Labelled :
    (k : ℕ) (stamp msg : List ℕ)
    → (text : List ℕ) × Labelled k text
      × (line k stamp msg ≡ text ++ (stamp ++ (b' ' ∷ b':' ∷ b' ' ∷ msg)))
unfolding line
line-Labelled k stamp msg = (label k, label-Labelled k, refl)

-- Each macro is a call that sets its level, 0 to 3, and then one that logs. Where calls of other
-- threads come in between, the line that the macro adds behind all others is the label of the level
-- that was set last by any thread, the time, " : " and at most 1023 characters of the message; so it
-- has the macro's own label if nobody set another level in between.
pub log-last_set :
    (level : ℕ) (between : List LogCall) (stamp msg : List ℕ) (l : Logger)
    → let calls = λ (k : ℕ). run_calls (sets k ∷ logs stamp msg ∷ []) l in
      let before = run_calls (sets level ∷ between) l in
      let after = run_calls ((sets level ∷ between) ++ logs stamp msg ∷ []) l in
      ((text : List ℕ) × Labelled (last_set level between) text
        × (after.lines
            ≡ before.lines ++ (text ++ (stamp ++ (b' ' ∷ b':' ∷ b' ' ∷ take 1023 msg))) ∷ []))
      × (log_info stamp msg l ≡ calls 0)
      × (log_error stamp msg l ≡ calls 1)
      × ((log_fatal stamp msg l).0 ≡ calls 2)
      × (log_debug true stamp msg l ≡ calls 3)
unfolding log run_call run_calls in_buf
log-last_set level between stamp msg l =
    let m = macro_calls stamp msg l in
    let (text, labelled, shown) = line-Labelled (last_set level between) stamp (take 1023 msg) in
    (
      (
        text,
        labelled,
        ap (λ (m : Logger). m.lines)
              (run_calls-append (sets level ∷ between) (logs stamp msg ∷ []) l)
            ∙ ap (λ k. (run_calls (sets level ∷ between) l).lines ++ line k stamp (in_buf msg) ∷ [])
                (run_calls-log_level (sets level ∷ between) l)
            ∙ ap (λ shows. (run_calls (sets level ∷ between) l).lines ++ shows ∷ []) shown,
      ),
      m.0,
      m.1,
      m.2,
      m.3,
    )
