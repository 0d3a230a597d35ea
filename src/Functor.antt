-- ===== src/Functor.antt =====
-- The functors that the program queues in its loops, each the `std::bind` of a member function with
-- its arguments. A connection is named by the address of its object. `user` is a functor of a client.
use head_write_muduo_epoll_c.Base.{ℕ, List}

pub data Functor : Type 0 where
  call_connect_established call_connect_destroyed call_shutdown_in_loop : ℕ → Functor
  call_write_complete call_remove_connection_in_loop : ℕ → Functor
  call_send_in_loop : ℕ → List ℕ → Functor
  call_high_water_mark : ℕ → ℕ → Functor
  call_listen : Functor
  user : ℕ → Functor
