-- ===== src/EventLoopThreadPool.antt =====
-- EventLoopThreadPool.h and EventLoopThreadPool.cc. A loop is named by a number. The loop that the
-- i-th thread's `startLoop` returns is an argument, and so is whether a callback is set; the loops
-- that the initial callback was called with are listed in `initialised`. The number of threads is
-- not negative, and `next_` stays far below the range of int.
pub mod RoundRobin
use head_write_muduo_epoll_c.Base.{
  ℕ, zero, suc, ◌+◌, Bool, true, false, ◌&&◌, Option, none, some, List, [], ◌∷◌, ◌++◌, length,
  get_elem?, leb, ◌==◌, if◌then◌else◌,
}

pub record EventLoopThreadPool : Type 0 where
  pub base_loop : ℕ
  pub name : List ℕ
  pub started : Bool
  pub num_threads : ℕ
  pub next : ℕ
  pub thread_names : List (List ℕ)
  pub loops : List ℕ
  pub initialised : List ℕ

unfoldable pub new_pool : ℕ → List ℕ → EventLoopThreadPool
new_pool base_loop name = record {
  base_loop = base_loop;
  name = name;
  started = false;
  num_threads = 0;
  next = 0;
  thread_names = [];
  loops = [];
  initialised = [];
}

unfoldable pub set_thread_num : ℕ → EventLoopThreadPool → EventLoopThreadPool
set_thread_num n p = record p { num_threads = n }

module _ (decimal : ℕ → List ℕ) (start_loop : ℕ → ℕ) (has_callback : Bool) where
  -- The `for` loop of `start` from `i` on, with the number of rounds left. The thread calls the
  -- callback with its loop before `startLoop` returns.
  unfoldable pub start_threads : ℕ → ℕ → EventLoopThreadPool → EventLoopThreadPool
  start_threads zero i p = p
  start_threads (suc k) i p = start_threads k (i + 1) (record p {
    thread_names = p.thread_names ++ (p.name ++ decimal i) ∷ [];
    loops = p.loops ++ start_loop i ∷ [];
    initialised = if has_callback then p.initialised ++ start_loop i ∷ [] else p.initialised;
  })

  unfoldable pub start : EventLoopThreadPool → EventLoopThreadPool
  start p =
      let p' = start_threads p.num_threads 0 (record p { started = true }) in
      if p'.num_threads == 0 && has_callback
      then record p' { initialised = p'.initialised ++ p'.base_loop ∷ [] }
      else p'

abbrev pub is_empty : List ℕ → Bool
is_empty [] = true
is_empty (x ∷ xs) = false

-- `loops_[next_]` is none where the index is out of range.
unfoldable pub get_next_loop : EventLoopThreadPool → Option ℕ × EventLoopThreadPool
get_next_loop p = if is_empty p.loops then (some p.base_loop, p) else (
  get_elem? p.loops p.next,
  record p { next = if leb (length p.loops) (p.next + 1) then 0 else p.next + 1 },
)

unfoldable pub get_all_loops : EventLoopThreadPool → List ℕ
get_all_loops p = if is_empty p.loops then p.base_loop ∷ [] else p.loops
