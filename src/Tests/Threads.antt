-- ===== src/Tests/Threads.antt =====
-- The theorem on the start of a loop thread, at a thread with a callback and the loop at 500, and a run
-- in which the destructor waits for a loop that does not end.
use head_write_muduo_epoll_c.Base.{◌≡◌, refl, true, false, some, [], ◌∷◌}
use head_write_muduo_epoll_c.EventLoopThread.{
  LoopThread, new_loop_thread, Moves, stay, move, spawn, post, sem_passed, make, publish, take_loop,
  begin, destroy, quit_loop, got, joining, published, running,
}
use head_write_muduo_epoll_c.EventLoopThread.Handshake.{
  is_published, start_loop_returns_initialised,
}

abbrev returned_loop : LoopThread
returned_loop = record {
  loop = some 500;
  exiting = false;
  has_callback = true;
  semaphore = 0;
  quitting = false;
  called = 500 ∷ [];
  owner = got 500;
  runner = published 500;
}

returned_loop-Moves : Moves (new_loop_thread true) returned_loop
unfolding new_loop_thread
returned_loop-Moves =
    move
      (move
        (move (move (move (move stay (spawn refl refl)) (post refl)) (sem_passed refl refl))
          (make 500 refl))
        (publish 500 refl))
      (take_loop 500 refl refl)

start_loop_returns_initialised_example :
    (returned_loop.called ≡ 500 ∷ []) × (is_published returned_loop.runner ≡ true)
start_loop_returns_initialised_example =
    start_loop_returns_initialised true returned_loop-Moves refl

-- The destructor sets `quit_` before `loop` clears it, and then joins.
abbrev quit_lost : LoopThread
quit_lost = record returned_loop { exiting = true; owner = joining; runner = running 500 }

quit_lost-Moves : Moves (new_loop_thread true) quit_lost
quit_lost-Moves =
    move (move (move returned_loop-Moves (destroy 500 500 refl refl)) (quit_loop 500 refl))
      (begin 500 refl)
