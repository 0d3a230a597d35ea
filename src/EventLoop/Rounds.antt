-- ===== src/EventLoop/Rounds.antt =====
-- EventLoop.cc: `loop` in the loop thread alone.
use head_write_muduo_epoll_c.Base.{ℕ, ◌≡◌, List, if◌then◌else◌, Outcome, arith}
use head_write_muduo_epoll_c.Kernel.{Epoll, EventFd}
use head_write_muduo_epoll_c.Poller.{EpollWait, Store}
use head_write_muduo_epoll_c.EventLoop.{
  EventLoop, World, quit, mark_quit, is_in_loop_thread, wakeup, loop,
}

module _ (ep : Epoll) (ef : EventFd) (F : Type 0) where
  module _ (handle : ℕ → World ep ef F → Outcome (World ep ef F))
      (call : F → World ep ef F → Outcome (World ep ef F)) where
    -- A `quit` that comes before `loop` is forgotten: `loop` then does what it does without it, but
    -- for the wake-up that a quit from another thread has left.
    pub loop_forgets_quit :
        (tid : ℕ) (waits : List EpollWait) (l : EventLoop ep ef F) (store : Store)
        → loop ep ef F handle call waits (quit ep ef F tid l, store)
          ≡ loop ep ef F handle call waits
              ((if is_in_loop_thread ep ef F l tid then l else wakeup ep ef F l), store)
    unfolding loop quit mark_quit is_in_loop_thread wakeup
    loop_forgets_quit tid waits l store = ground arith
