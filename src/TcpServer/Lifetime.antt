-- ===== src/TcpServer/Lifetime.antt =====
-- TcpServer.cc and TcpConnection.cc: who holds a `TcpConnectionPtr` while a closed connection goes
-- through the base loop and its own loop to `connectDestoryed`.
use head_write_muduo_epoll_c.Base.{
  ℕ, ◌≡◌, Bool, true, false, ◌||◌, List, [], ◌∷◌, arith, ==_refl, ◌==◌, ok, Outcome, Returns,
  if_cases,
}
use head_write_muduo_epoll_c.Kernel.{Epoll, EventFd, Decimal}
use head_write_muduo_epoll_c.Functor.{
  Functor, call_connect_established, call_connect_destroyed, call_write_complete,
  call_remove_connection_in_loop, call_high_water_mark,
}
use head_write_muduo_epoll_c.EventLoop.{run_in_loop, is_in_loop_thread, queue_in_loop}
use head_write_muduo_epoll_c.TcpConnection.{Session}
use head_write_muduo_epoll_c.TcpConnection.Flow.{IsWatched}
use head_write_muduo_epoll_c.TcpConnection.Closing.{handle_close-Closed}
use head_write_muduo_epoll_c.TcpServer.{
  TcpServer, Net, put_loop, on_conn, remove_connection, remove_connection_in_loop,
}
use head_write_muduo_epoll_c.TcpServer.Pending.{any_functor, is_removal, awaits, queued-awaits}
use head_write_muduo_epoll_c.TcpServer.Closing.{close_connection, removal}

-- The functors that have bound a `TcpConnectionPtr` to the connection at `a`; `sendInLoop` and
-- `shutdownInLoop` are bound to a plain pointer.
abbrev pub holds : ℕ → Functor → Bool
holds a (call_connect_established b) = a == b
holds a (call_connect_destroyed b) = a == b
holds a (call_write_complete b) = a == b
holds a (call_remove_connection_in_loop b) = a == b
holds a (call_high_water_mark b size) = a == b
holds a _ = false

abbrev pub any_holds : ℕ → List Functor → Bool
any_holds a fs = any_functor (holds a) fs

abbrev pub any_entry : ℕ → List (List ℕ × (ℕ × ℕ)) → Bool
any_entry a [] = false
any_entry a ((name, item) ∷ entries) = (a == item.0) || any_entry a entries

module _ (dec : Decimal) (ep : Epoll) (ef : EventFd) where
  -- Some `TcpConnectionPtr` to the connection is in the map, or bound in a functor that the base loop or
  -- its own loop has still to take.
  abbrev pub is_held : ℕ → ℕ → TcpServer × Net dec ep ef → Bool
  is_held a io (s, net) =
      any_entry a s.connections
      || any_holds a (net.loops s.base_loop).pending_functors
      || any_holds a (net.loops io).pending_functors

  -- A functor that holds the connection is in its loop.
  abbrev pub IsDue : ℕ → ℕ → TcpServer × Net dec ep ef → Type 0
  IsDue a io r = any_holds a (r.1.loops io).pending_functors ≡ true

  or_middle : (b c d : Bool) → c ≡ true → (b || c || d) ≡ true
  or_middle b c d h = ground (arith, h)

  or_last : (b c : Bool) → c ≡ true → (b || c) ≡ true
  or_last b c h = ground (arith, h)

  IsDue-is_held : (a io : ℕ) (r : TcpServer × Net dec ep ef) → IsDue a io r → is_held a io r ≡ true
  IsDue-is_held a io r due = or_last _ _ due

  remove_in_loop-IsDue :
      (tid a io : ℕ) (r : TcpServer × Net dec ep ef)
      → IsDue a io (remove_connection_in_loop dec ep ef tid a io r)
  unfolding remove_connection_in_loop
  remove_in_loop-IsDue tid a io (s, n) =
      queued-awaits dec ep ef (holds a) io tid (call_connect_destroyed a) n (==_refl a)

  -- Whether or not the base loop has a functor to call, once it has done so.
  removal-IsDue :
      (base_tid a io : ℕ) (r : TcpServer × Net dec ep ef)
      → (awaits dec ep ef (is_removal a) r.0.base_loop r.1 ≡ false → IsDue a io r)
      → Returns (IsDue a io) (removal dec ep ef base_tid a io r)
  unfolding removal
  removal-IsDue base_tid a io (s, n) due =
      if_cases {A = Outcome (TcpServer × Net dec ep ef)}
        {taken = ok (remove_connection_in_loop dec ep ef base_tid a io (s, n))} {other = ok (s, n)}
        (Returns (IsDue a io)) (awaits dec ep ef (is_removal a) s.base_loop n)
        (λ pending. remove_in_loop-IsDue base_tid a io (s, n)) due

  -- What `removeConnection` leaves, and then the base loop's functor.
  abbrev pub HandedOn : ℕ → ℕ → ℕ → TcpServer × Net dec ep ef → Type 0
  HandedOn base_tid a io r =
      (is_held a io r ≡ true) × Returns (IsDue a io) (removal dec ep ef base_tid a io r)

  true_not_false : {b : Bool} → b ≡ true → b ≡ false → ⊥
  true_not_false e e' = absurd (cc)

  remove_connection-HandedOn :
      (tid base_tid a io : ℕ) (s : TcpServer) (n : Net dec ep ef)
      → Returns (HandedOn base_tid a io) (remove_connection dec ep ef tid a io (s, n))
  unfolding remove_connection run_in_loop
  remove_connection-HandedOn tid base_tid a io s n =
      let f = call_remove_connection_in_loop a in
      let l = s.base_loop in
      let posted = put_loop dec ep ef l (queue_in_loop ep ef Functor tid f (n.loops l)) n in
      let removed = remove_connection_in_loop dec ep ef tid a io (s, n) in
      let due = remove_in_loop-IsDue tid a io (s, n) in
      if_cases {A = Outcome (TcpServer × Net dec ep ef)} {taken = ok removed}
        {other = ok (s, posted)} (Returns (HandedOn base_tid a io))
        (is_in_loop_thread ep ef Functor (n.loops l) tid)
        (λ here. (IsDue-is_held a io removed due, removal-IsDue base_tid a io removed (λ e. due)))
        (λ away. (
          or_middle _ _ _ (queued-awaits dec ep ef (holds a) l tid f n (==_refl a)),
          removal-IsDue base_tid a io (s, posted)
              (λ e.
                absurd (
                  true_not_false (queued-awaits dec ep ef (is_removal a) l tid f n (==_refl a)) e)),
        ))

  -- The peer of a connection that epoll watches closes it, in the thread `tid` of its loop. After
  -- `handleClose` and `removeConnection`, and again after the base loop has called what they left
  -- it, a `TcpConnectionPtr` to the connection is still held: first by the map or by a functor of
  -- one of the two loops, then by a functor that its own loop has still to take. All of these calls
  -- go through.
  pub closing_keeps_alive :
      (tid base_tid a io : ℕ) (s : TcpServer) (net : Net dec ep ef)
      → IsWatched ep ef (net.loops io) (net.conns a).channel
      → Returns (HandedOn base_tid a io) (close_connection dec ep ef tid a io (s, net))
  unfolding close_connection on_conn
  closing_keeps_alive tid base_tid a io s net w =
      let here : Session ep ef = record {
        loop = net.loops io;
        conn = net.conns a;
        calls = net.calls a;
      } in
      let (t, closes, closed) = handle_close-Closed ep ef here w.index_added in
      rw closes (remove_connection-HandedOn tid base_tid a io s _)
