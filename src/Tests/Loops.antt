-- ===== src/Tests/Loops.antt =====
-- The theorems on event loops, on the thread pool and on the acceptor, at loop 1 of thread 1 and a
-- functor that another thread queues.
use head_write_muduo_epoll_c.Base.{
  ℕ, ◌+◌, ◌*◌, ◌≡◌, ◌≢◌, refl, true, false, inl, some, List, [], ◌∷◌, ◌++◌, Outcome, ok, IfOk,
  OkUnless, arith, ltb, length, ap,
}
use head_write_muduo_epoll_c.Poller.{wait_failed, Store}
use head_write_muduo_epoll_c.Channel.{new_channel}
use head_write_muduo_epoll_c.EventLoop.{
  EventLoop, World, new_event_loop, loop, quit, is_in_loop_thread, wakeup, push_functor, notify,
}
use head_write_muduo_epoll_c.EventLoop.Threads.{
  System, Step, Reach, here, next, push, wake, polling, stopped, rest_of, HasWork, IsReady,
}
use head_write_muduo_epoll_c.EventLoop.Threads.Wakeup.{functors_in_order, no_lost_wakeup}
use head_write_muduo_epoll_c.EventLoop.Threads.Progress.{Alone, all_get_called}
use head_write_muduo_epoll_c.EventLoop.Lifetime.{CannotBegin, Watches, new_then_destroy}
use head_write_muduo_epoll_c.EventLoop.Rounds.{loop_forgets_quit}
use head_write_muduo_epoll_c.EventLoopThreadPool.{
  EventLoopThreadPool, new_pool, set_thread_num, get_all_loops,
}
use head_write_muduo_epoll_c.EventLoopThreadPool.RoundRobin.{
  kth_loop, kth_loop-round, start-get_all_loops,
}
use head_write_muduo_epoll_c.EventLoopThreadPool
use head_write_muduo_epoll_c.EventLoop.Threads
use head_write_muduo_epoll_c.Acceptor.{new_acceptor}
use head_write_muduo_epoll_c.Acceptor.Handover.{new_acceptor_ignores_reuseport}
use head_write_muduo_epoll_c.Tests.{table_epoll, count_fd}

abbrev pub idle_loop : EventLoop table_epoll count_fd ℕ
idle_loop = record {
  looping = false;
  quitting = false;
  calling_pending_functors = false;
  thread_id = 1;
  poller = record { epoll = []; channels = []; events_size = 16 };
  wakeup_counter = 0;
  active_channels = [];
  pending_functors = [];
}

-- Another thread has queued functor 41 and has still to write to the eventfd.
abbrev fed_loop : EventLoop table_epoll count_fd ℕ
fed_loop = record idle_loop { pending_functors = 41 ∷ [] }

fed_loop-IsReady : IsReady table_epoll count_fd ℕ 1 fed_loop
fed_loop-IsReady = (refl, λ e. inl (omega arith))

abbrev at_poll : System table_epoll count_fd ℕ
at_poll = Threads.start table_epoll count_fd ℕ 1 fed_loop

-- After a thread queued functor 42, too.
abbrev pushed : System table_epoll count_fd ℕ
pushed = record at_poll {
  loop = push_functor table_epoll count_fd ℕ 42 at_poll.loop;
  waking = 2;
  queued = 41 ∷ 42 ∷ [];
}

abbrev once_woken : System table_epoll count_fd ℕ
once_woken = record pushed { loop = notify table_epoll count_fd ℕ 2 pushed.loop; waking = 1 }

abbrev woken : System table_epoll count_fd ℕ
woken = record once_woken { loop = notify table_epoll count_fd ℕ 2 once_woken.loop; waking = 0 }

pushed_thread : 2 ≢ pushed.loop.thread_id
unfolding push_functor Threads.start
pushed_thread = λ e. absurd (omega arith)

once_woken_thread : 2 ≢ once_woken.loop.thread_id
unfolding push_functor notify wakeup Threads.start is_in_loop_thread
once_woken_thread = λ e. absurd (omega arith)

woken-Reach : Reach table_epoll count_fd ℕ at_poll woken
unfolding Threads.start
woken-Reach =
    next (next (next here (push 42)) (wake 2 1 pushed_thread refl))
      (wake 2 0 once_woken_thread refl)

functors_in_order_example :
    woken.queued ≡ woken.called ++ (rest_of woken.phase ++ woken.loop.pending_functors)
functors_in_order_example = functors_in_order table_epoll count_fd ℕ 1 fed_loop woken-Reach

woken-HasWork : HasWork table_epoll count_fd ℕ woken
unfolding push_functor notify wakeup Threads.start is_in_loop_thread
woken-HasWork = inl (λ e. absurd (omega (arith, ap length e)))

no_lost_wakeup_example : ltb 0 woken.loop.wakeup_counter ≡ true
unfolding Threads.start
no_lost_wakeup_example =
    no_lost_wakeup table_epoll count_fd ℕ 1 fed_loop fed_loop-IsReady woken-Reach refl refl
      woken-HasWork

woken_goes_on : woken.loop.quitting ≡ false
unfolding push_functor notify wakeup Threads.start is_in_loop_thread
woken_goes_on = refl

woken_lives : woken.phase ≢ stopped
unfolding Threads.start
woken_lives e = ground (arith, e)

all_get_called_example :
    (t : System table_epoll count_fd ℕ) × Alone table_epoll count_fd ℕ woken t
    × (t.called ≡ woken.queued)
    × (t.queued ≡ woken.queued)
    × Reach table_epoll count_fd ℕ at_poll t
all_get_called_example =
    all_get_called table_epoll count_fd ℕ 1 fed_loop fed_loop-IsReady woken-Reach refl woken_goes_on
      woken_lives

abbrev no_channel : ℕ → World table_epoll count_fd ℕ → Outcome (World table_epoll count_fd ℕ)
no_channel a w = ok w

-- Every functor sets `quit_`.
abbrev call_quit : ℕ → World table_epoll count_fd ℕ → Outcome (World table_epoll count_fd ℕ)
call_quit f (l, store) = ok (quit table_epoll count_fd ℕ 1 l, store)

abbrev no_channels : Store
no_channels a = new_channel a 0

new_then_destroy_example :
    OkUnless
      (CannotBegin table_epoll count_fd ℕ false false (some []) (some 0) 300 3)
      (Watches table_epoll count_fd ℕ 1 300 3)
      (new_event_loop table_epoll count_fd ℕ 1 false false (some []) (some 0) 300 3)
new_then_destroy_example =
    new_then_destroy table_epoll count_fd ℕ 1 false false (some []) (some 0) 300 3

loop_forgets_quit_example :
    loop table_epoll count_fd ℕ no_channel call_quit
      (wait_failed 4 ∷ [])
      (quit table_epoll count_fd ℕ 1 idle_loop, no_channels)
    ≡ loop table_epoll count_fd ℕ no_channel call_quit (wait_failed 4 ∷ []) (idle_loop, no_channels)
unfolding is_in_loop_thread
loop_forgets_quit_example =
    loop_forgets_quit table_epoll count_fd ℕ no_channel call_quit 1 (wait_failed 4 ∷ []) idle_loop
      no_channels

abbrev three_loops : EventLoopThreadPool
three_loops = record {
  base_loop = 1;
  name = [];
  started = true;
  num_threads = 3;
  next = 1;
  thread_names = [];
  loops = 10 ∷ 20 ∷ 30 ∷ [];
  initialised = [];
}

kth_loop-round_example : kth_loop 2 three_loops ≡ some 10
kth_loop-round_example = kth_loop-round 2 three_loops (omega arith)

abbrev digit : ℕ → List ℕ
digit i = (48 + i) ∷ []

abbrev loop_of : ℕ → ℕ
loop_of i = 10 * (i + 1)

start-get_all_loops_example :
    let p = EventLoopThreadPool.start digit loop_of true (set_thread_num 2 (new_pool 1 [])) in
    (p.loops ≡ 10 ∷ 20 ∷ []) × (get_all_loops p ≡ 10 ∷ 20 ∷ []) × (p.initialised ≡ get_all_loops p)
start-get_all_loops_example = start-get_all_loops digit loop_of true 2 1 []

new_acceptor_ignores_reuseport_example :
    (new_acceptor (some 4) true 300 true ≡ new_acceptor (some 4) true 300 false)
    × IfOk (λ a. a.accept_socket.reuse_port ≡ true) (new_acceptor (some 4) true 300 true)
new_acceptor_ignores_reuseport_example = new_acceptor_ignores_reuseport (some 4) true 300 true
