-- ===== src/TcpServer/Pending.antt =====
-- TcpServer.cc and EventLoop.cc: the functors of a connection among those that a loop has still to
-- call. What becomes of the whole list of a loop is in EventLoop/Threads.antt.
use head_write_muduo_epoll_c.Base.{
  ℕ, ◌≡◌, Bool, true, false, ◌||◌, List, [], ◌∷◌, ◌++◌, arith, ==_refl, ◌==◌,
}
use head_write_muduo_epoll_c.Kernel.{Epoll, EventFd, Decimal}
use head_write_muduo_epoll_c.Functor.{
  Functor, call_connect_established, call_connect_destroyed, call_remove_connection_in_loop,
}
use head_write_muduo_epoll_c.EventLoop.{queue_in_loop}
use head_write_muduo_epoll_c.TcpServer.{Net, put_loop}
use head_write_muduo_epoll_c.TcpServer.Left.{queue_in_loop-poller}

abbrev pub any_functor : (Functor → Bool) → List Functor → Bool
any_functor p [] = false
any_functor p (f ∷ fs) = p f || any_functor p fs

pub any_functor-append :
    (p : Functor → Bool) (fs : List Functor) (f : Functor)
    → p f ≡ true
    → any_functor p (fs ++ f ∷ []) ≡ true
any_functor-append p [] f h = ground (arith, h)
any_functor-append p (g ∷ fs) f h = ground (arith, any_functor-append p fs f h)

abbrev pub is_establishment : ℕ → Functor → Bool
is_establishment a (call_connect_established b) = a == b
is_establishment a _ = false

abbrev pub is_removal : ℕ → Functor → Bool
is_removal a (call_remove_connection_in_loop b) = a == b
is_removal a _ = false

abbrev pub is_destruction : ℕ → Functor → Bool
is_destruction a (call_connect_destroyed b) = a == b
is_destruction a _ = false

module _ (dec : Decimal) (ep : Epoll) (ef : EventFd) where
  -- Some functor of the kind `p` is pending in the loop `l`.
  abbrev pub awaits : (Functor → Bool) → ℕ → Net dec ep ef → Bool
  awaits p l net = any_functor p (net.loops l).pending_functors

  pub queued-awaits :
      (p : Functor → Bool) (l tid : ℕ) (f : Functor) (n : Net dec ep ef)
      → p f ≡ true
      → awaits p l (put_loop dec ep ef l (queue_in_loop ep ef Functor tid f (n.loops l)) n) ≡ true
  unfolding put_loop
  queued-awaits p l tid f n h =
      rw (==_refl l, (queue_in_loop-poller dec ep ef tid f (n.loops l)).2)
        (any_functor-append p (n.loops l).pending_functors f h)
