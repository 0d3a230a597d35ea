-- ===== src/Tests/Batches.antt =====
-- The theorem on `doPendingFunctors`, with the functors 42 and 43 pending; 42 queues 7.
use head_write_muduo_epoll_c.Base.{
  ℕ, ◌≡◌, refl, false, List, [], ◌∷◌, ◌==◌, if◌then◌else◌, Outcome, ok,
}
use head_write_muduo_epoll_c.Channel.{new_channel}
use head_write_muduo_epoll_c.Poller.{Store}
use head_write_muduo_epoll_c.EventLoop.{World, do_pending_functors}
use head_write_muduo_epoll_c.EventLoop.Threads.{System, Reach, handling, polling}
use head_write_muduo_epoll_c.EventLoop.Threads.Batch.{
  QueuesOwn, queue_all, do_pending_functors-Reach,
}
use head_write_muduo_epoll_c.Tests.{table_epoll, count_fd}
use head_write_muduo_epoll_c.Tests.Loops.{idle_loop}

abbrev queued_by : ℕ → List ℕ
queued_by f = if f == 42 then 7 ∷ [] else []

run_functor : ℕ → World table_epoll count_fd ℕ → Outcome (World table_epoll count_fd ℕ)
run_functor f (l, store) = ok (queue_all table_epoll count_fd ℕ (queued_by f) l, store)

run_functor-QueuesOwn : QueuesOwn table_epoll count_fd ℕ queued_by run_functor
unfolding run_functor
run_functor-QueuesOwn f l store = (store, refl)

abbrev handled : System table_epoll count_fd ℕ
handled = record {
  loop = record idle_loop { pending_functors = 42 ∷ 43 ∷ [] };
  phase = handling false;
  waking = 0;
  queued = 42 ∷ 43 ∷ [];
  called = [];
}

abbrev no_channels : Store
no_channels a = new_channel a 0

do_pending_functors-Reach_example :
    (t : System table_epoll count_fd ℕ) × (store' : Store) × Reach table_epoll count_fd ℕ handled t
    × (do_pending_functors table_epoll count_fd ℕ run_functor (handled.loop, no_channels)
        ≡ ok (t.loop, store'))
    × (t.called ≡ 42 ∷ 43 ∷ [])
    × (t.phase ≡ polling)
do_pending_functors-Reach_example =
    do_pending_functors-Reach table_epoll count_fd ℕ queued_by run_functor run_functor-QueuesOwn
      handled no_channels refl
