-- ===== src/TcpServer/Destructor.antt =====
-- TcpServer.cc: the destructor, where the loops of the connections belong to other threads.
use head_write_muduo_epoll_c.Base.{
  ℕ, ◌≡◌, refl, sym, ap, ◌∙◌, Bool, true, false, inl, inr, Bool-cases, List, [], ◌∷◌, ◌++◌, arith,
  ==_refl, ==_iff, ◌==◌, ok, Outcome, ◌>>=◌,
}
use head_write_muduo_epoll_c.Kernel.{Epoll, EventFd, Decimal}
use head_write_muduo_epoll_c.Functor.{Functor, call_connect_destroyed}
use head_write_muduo_epoll_c.EventLoop.{run_in_loop, is_in_loop_thread, queue_in_loop, each}
use head_write_muduo_epoll_c.TcpConnection.{connect_destroyed}
use head_write_muduo_epoll_c.TcpServer.{TcpServer, Net, put_loop, run_on_conn, destroy_server}
use head_write_muduo_epoll_c.TcpServer.Left.{queue_in_loop-poller}
use head_write_muduo_epoll_c.TcpServer.Pending.{is_destruction, any_functor, any_functor-append}

any_functor-more :
    (p : Functor → Bool) (fs : List Functor) (f : Functor)
    → any_functor p fs ≡ true
    → any_functor p (fs ++ f ∷ []) ≡ true
any_functor-more p [] f h = absurd (cc)
any_functor-more p (g ∷ fs) f h = elim (Bool-cases (p g)) [
  | inl here ↦ rw here refl
  | inr there ↦ rw there (any_functor-more p fs f (ground (arith, h, there)))
]

module _ (dec : Decimal) (ep : Epoll) (ef : EventFd) where
  -- The call of `connectDestoryed` for the connection at `a` waits in the loop `io`.
  abbrev pub Due : Net dec ep ef → ℕ → ℕ → Type 0
  Due net a io = any_functor (is_destruction a) (net.loops io).pending_functors ≡ true

  abbrev pub AllDue : Net dec ep ef → List (List ℕ × (ℕ × ℕ)) → Type 0
  AllDue net [] = Unit
  AllDue net (item ∷ items) = Due net item.1.0 item.1.1 × AllDue net items

  -- The loops of the connections belong to other threads than `tid`.
  abbrev pub AllAway : Net dec ep ef → ℕ → List (List ℕ × (ℕ × ℕ)) → Type 0
  AllAway net tid [] = Unit
  AllAway net tid (item ∷ items) =
      (is_in_loop_thread ep ef Functor (net.loops item.1.1) tid ≡ false) × AllAway net tid items

  -- Connections, pollers and threads are as before, and what waited still waits.
  pub record Untouched (net net' : Net dec ep ef) : Type 0 where
    pub conns : net'.conns ≡ net.conns
    pub calls : net'.calls ≡ net.calls
    pub poller : (j : ℕ) → (net'.loops j).poller ≡ (net.loops j).poller
    pub thread : (j : ℕ) → (net'.loops j).thread_id ≡ (net.loops j).thread_id
    pub due : (a j : ℕ) → Due net a j → Due net' a j

  abbrev after_queue : ℕ → ℕ → Functor → Net dec ep ef → Net dec ep ef
  after_queue tid io f net =
      put_loop dec ep ef io (queue_in_loop ep ef Functor tid f (net.loops io)) net

  queue-Untouched :
      (tid io : ℕ) (f : Functor) (net : Net dec ep ef) → Untouched net (after_queue tid io f net)
  unfolding put_loop
  queue-Untouched tid io f net =
      let (poller, thread, pending) = queue_in_loop-poller dec ep ef tid f (net.loops io) in
      record {
        conns = refl;
        calls = refl;
        poller = λ j. elim (Bool-cases (j == io)) [
          | inl here ↦
              rw here (poller ∙ ap (λ i. (net.loops i).poller) (sym ((==_iff j io).0 here)))
          | inr there ↦ rw there refl
        ];
        thread = λ j. elim (Bool-cases (j == io)) [
          | inl here ↦
              rw here (thread ∙ ap (λ i. (net.loops i).thread_id) (sym ((==_iff j io).0 here)))
          | inr there ↦ rw there refl
        ];
        due = λ a j h. elim (Bool-cases (j == io)) [
          | inl here ↦
              rw (here, pending)
                (any_functor-more (is_destruction a) (net.loops io).pending_functors f (
                  ap (λ i. any_functor (is_destruction a) (net.loops i).pending_functors)
                    (sym ((==_iff j io).0 here))
                  ∙ h))
          | inr there ↦ rw there h
        ];
      }

  Untouched-trans : {n n' n'' : Net dec ep ef} → Untouched n n' → Untouched n' n'' → Untouched n n''
  Untouched-trans p q = record {
    conns = q.conns ∙ p.conns;
    calls = q.calls ∙ p.calls;
    poller = λ j. q.poller j ∙ p.poller j;
    thread = λ j. q.thread j ∙ p.thread j;
    due = λ a j h. q.due a j (p.due a j h);
  }

  AllAway-Untouched :
      (tid : ℕ) (items : List (List ℕ × (ℕ × ℕ))) {net net' : Net dec ep ef}
      → Untouched net net'
      → AllAway net tid items
      → AllAway net' tid items
  unfolding is_in_loop_thread
  AllAway-Untouched tid [] u h = h
  AllAway-Untouched tid (item ∷ items) u (away, h) =
      (ap (λ k. k == tid) (u.thread item.1.1) ∙ away, AllAway-Untouched tid items u h)

  run_on_conn_away :
      (tid a io : ℕ) (net : Net dec ep ef)
      → is_in_loop_thread ep ef Functor (net.loops io) tid ≡ false
      → run_on_conn dec ep ef tid a io (connect_destroyed ep ef) (call_connect_destroyed a) net
        ≡ ok (after_queue tid io (call_connect_destroyed a) net)
  unfolding run_on_conn run_in_loop
  run_on_conn_away tid a io net away = rw away refl

  queue-Due :
      (tid a io : ℕ) (net : Net dec ep ef)
      → Due (after_queue tid io (call_connect_destroyed a) net) a io
  unfolding put_loop
  queue-Due tid a io net =
      rw
        (
          ==_refl io,
          (queue_in_loop-poller dec ep ef tid (call_connect_destroyed a) (net.loops io)).2,
        )
        (any_functor-append (is_destruction a) (net.loops io).pending_functors
          (call_connect_destroyed a) (==_refl a))

  abbrev destroy_item : ℕ → List ℕ × (ℕ × ℕ) → Net dec ep ef → Outcome (Net dec ep ef)
  destroy_item tid item n =
      run_on_conn dec ep ef tid item.1.0 item.1.1 (connect_destroyed ep ef)
        (call_connect_destroyed item.1.0) n

  each-Untouched :
      (tid : ℕ) (items : List (List ℕ × (ℕ × ℕ))) (net : Net dec ep ef)
      → AllAway net tid items
      → (net' : Net dec ep ef) × (each (destroy_item tid) items net ≡ ok net')
        × AllDue net' items
        × Untouched net net'
  unfolding each
  each-Untouched tid [] net h = (
    net,
    refl,
    tt,
    record {
      conns = refl;
      calls = refl;
      poller = λ j. refl;
      thread = λ j. refl;
      due = λ a j due. due;
    },
  )
  each-Untouched tid (item ∷ items) net (away, h) =
      let a = item.1.0 in
      let io = item.1.1 in
      let u = queue-Untouched tid io (call_connect_destroyed a) net in
      let (net', went, dues, u') =
        each-Untouched tid items (after_queue tid io (call_connect_destroyed a) net)
          (AllAway-Untouched tid items u h) in
      (
        net',
        ap (λ m. m >>= each (destroy_item tid) items) (run_on_conn_away tid a io net away) ∙ went,
        (u'.due a io (queue-Due tid a io net), dues),
        Untouched-trans u u',
      )

  -- The destructor of a server whose connections all belong to loops of other threads always comes to
  -- its end. It changes no connection and no poller itself: for every connection of the map
  -- the call of `connectDestoryed` then waits in its own loop, and so does every such call that
  -- waited before.
  pub destroy_server_hands_over :
      (tid : ℕ) (s : TcpServer) (net : Net dec ep ef)
      → AllAway net tid s.connections
      → (net' : Net dec ep ef) × (destroy_server dec ep ef tid (s, net) ≡ ok net')
        × AllDue net' s.connections
        × Untouched net net'
  unfolding destroy_server
  destroy_server_hands_over tid s net h = each-Untouched tid s.connections net h
