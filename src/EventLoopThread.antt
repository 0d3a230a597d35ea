-- ===== src/EventLoopThread.antt =====
-- EventLoopThread.h and EventLoopThread.cc, with the thread of Thread.cc: the thread that owns the object and the thread that runs the loop, interleaved in
-- any order. A mutex that is held over a few statements makes them one step; a wait on the condition
-- variable may end at any time, so it is the test that follows it which is a step. `loop` of
-- EventLoop.cc enters by the point at which it has cleared `quit_`, and ends only with `quit_` set.
pub mod Handshake
use head_write_muduo_epoll_c.Base.{
  ℕ, ◌≡◌, ◌≢◌, Bool, true, false, Option, none, some, List, [], ◌∷◌, ◌++◌, ◌==◌, if◌then◌else◌,
}

-- Where the owner is: before `startLoop`, in `Thread::start` at `sem_wait`, at the test of the wait,
-- past `startLoop` with the pointer that it returns, in the destructor before `quit` or at `join`, or
-- done.
pub data Owner : Type 0 where
  unstarted at_sem waiting : Owner
  got asking : ℕ → Owner
  joining finished : Owner

-- Where the loop thread is: not there yet, before `sem_post`, before the `EventLoop` is made, in the
-- callback or past it with the loop at this address, past the notification, in `loop` after `quit_`
-- was cleared, past `loop`, or ended.
pub data Runner : Type 0 where
  absent spawned posted : Runner
  made published running quitted : ℕ → Runner
  ended : Runner

-- `quitting` is `quit_` of the loop while it exists. `called` lists the loops that the callback was
-- called with.
pub record LoopThread : Type 0 where
  pub loop : Option ℕ
  pub exiting : Bool
  pub has_callback : Bool
  pub semaphore : ℕ
  pub quitting : Bool
  pub called : List ℕ
  pub owner : Owner
  pub runner : Runner

unfoldable pub new_loop_thread : Bool → LoopThread
new_loop_thread has_callback = record {
  loop = none;
  exiting = false;
  has_callback = has_callback;
  semaphore = 0;
  quitting = false;
  called = [];
  owner = unstarted;
  runner = absent;
}

pub data Move (t : LoopThread) : LoopThread → Type 0 where
  -- `thread_.start()` up to its `sem_wait`.
  spawn :
      t.owner ≡ unstarted
      → t.runner ≡ absent
      → Move t (record t { owner = at_sem; runner = spawned })
  -- The new thread has its number and posts.
  post : t.runner ≡ spawned → Move t (record t { semaphore = 1; runner = posted })
  sem_passed :
      t.owner ≡ at_sem → t.semaphore ≡ 1 → Move t (record t { semaphore = 0; owner = waiting })
  -- The constructor of the `EventLoop` and the callback.
  make :
      (a : ℕ)
      → t.runner ≡ posted
      → Move t (record t {
        quitting = false;
        called = if t.has_callback then t.called ++ a ∷ [] else t.called;
        runner = made a;
      })
  -- `loop_ = &loop` and the notification, under the mutex.
  publish : (a : ℕ) → t.runner ≡ made a → Move t (record t { loop = some a; runner = published a })
  -- The test of `startLoop` after a wait finds the pointer set.
  take_loop : (a : ℕ) → t.owner ≡ waiting → t.loop ≡ some a → Move t (record t { owner = got a })
  -- `loop` clears `quit_` and begins.
  begin :
      (a : ℕ) → t.runner ≡ published a → Move t (record t { quitting = false; runner = running a })
  -- `loop` ends after `quit_` was set, by a functor or by another thread.
  leave :
      (a : ℕ) → t.runner ≡ running a → t.quitting ≡ true → Move t (record t { runner = quitted a })
  ask_quit : (a : ℕ) → t.runner ≡ running a → Move t (record t { quitting = true })
  -- `loop_ = nullptr` under the mutex, and the end of the thread.
  retire : (a : ℕ) → t.runner ≡ quitted a → Move t (record t { loop = none; runner = ended })
  -- The destructor: with no loop it does not join, and otherwise it quits the loop and joins. It
  -- reads `loop_` without the mutex, so the thread can go on between the test and `quit`.
  destroy_idle :
      (a : ℕ)
      → t.owner ≡ got a
      → t.loop ≡ none
      → Move t (record t { exiting = true; owner = finished })
  destroy :
      (a b : ℕ)
      → t.owner ≡ got a
      → t.loop ≡ some b
      → Move t (record t { exiting = true; owner = asking b })
  quit_loop : (b : ℕ) → t.owner ≡ asking b → Move t (record t { quitting = true; owner = joining })
  join : t.owner ≡ joining → t.runner ≡ ended → Move t (record t { owner = finished })

pub data Moves (t : LoopThread) : LoopThread → Type 0 where
  stay : Moves t t
  move : {u v : LoopThread} → Moves t u → Move u v → Moves t v
