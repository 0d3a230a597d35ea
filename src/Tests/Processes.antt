-- ===== src/Tests/Processes.antt =====
-- The theorems on threads and on the log.
use head_write_muduo_epoll_c.Base.{ℕ, ◌≡◌, refl, true, List, [], ◌∷◌, ◌++◌, ok, Returns}
use head_write_muduo_epoll_c.Logger.{Logger, info, error, log_info, log_error, log_fatal, log_debug}
use head_write_muduo_epoll_c.Logger.Labels.{sets, logs, run_calls, Labelled, log-last_set}
use head_write_muduo_epoll_c.Thread.{detached, new_thread, destroy}
use head_write_muduo_epoll_c.Thread.Life.{starts, run_calls as run_thread, destroy-ended}
use head_write_muduo_epoll_c.Thread.Handshake.{
  Starting, Moves, unstarted, spawn, write_tid, post, sem_passed, stay, move, returned, in_func,
  PastPost, start_returns_tid,
}
use head_write_muduo_epoll_c.Tests.Printing.{decimal}

destroy-ended_example :
    Returns (λ t. destroy t ≡ ok detached) (run_thread (starts 7 ∷ []) (new_thread decimal [] 4).0)
destroy-ended_example = destroy-ended decimal [] 4 (starts 7 ∷ []) tt

abbrev with_thread_7 : Starting
with_thread_7 = record { started = true; tid = 7; sem = 0; caller = returned; child = in_func 7 }

with_thread_7-Moves : Moves unstarted with_thread_7
unfolding unstarted
with_thread_7-Moves =
    move (move (move (move stay (spawn 7 refl refl)) (write_tid 7 refl)) (post 7 refl))
      (sem_passed 0 refl refl)

start_returns_tid_example : PastPost with_thread_7.child 7 × (with_thread_7.started ≡ true)
start_returns_tid_example = start_returns_tid with_thread_7-Moves refl

abbrev quiet_log : Logger
quiet_log = record { log_level = info; lines = [] }

-- One thread logs an error, and another sets its level before the line is out.
log-last_set_example :
    let calls = λ (k : ℕ). run_calls (sets k ∷ logs (48 ∷ []) (7 ∷ 8 ∷ []) ∷ []) quiet_log in
    let before = run_calls (sets error ∷ sets info ∷ []) quiet_log in
    let after = run_calls (sets error ∷ sets info ∷ logs (48 ∷ []) (7 ∷ 8 ∷ []) ∷ []) quiet_log in
    ((text : List ℕ) × Labelled 0 text
      × (after.lines ≡ before.lines ++ (text ++ (48 ∷ b' ' ∷ b':' ∷ b' ' ∷ 7 ∷ 8 ∷ [])) ∷ []))
    × (log_info (48 ∷ []) (7 ∷ 8 ∷ []) quiet_log ≡ calls 0)
    × (log_error (48 ∷ []) (7 ∷ 8 ∷ []) quiet_log ≡ calls 1)
    × ((log_fatal (48 ∷ []) (7 ∷ 8 ∷ []) quiet_log).0 ≡ calls 2)
    × (log_debug true (48 ∷ []) (7 ∷ 8 ∷ []) quiet_log ≡ calls 3)
log-last_set_example = log-last_set error (sets info ∷ []) (48 ∷ []) (7 ∷ 8 ∷ []) quiet_log
