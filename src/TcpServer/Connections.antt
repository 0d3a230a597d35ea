-- ===== src/TcpServer/Connections.antt =====
-- TcpServer.cc: the map of connections in `newConnection` and `removeConnectionInLoop`, and `start`.
use head_write_muduo_epoll_c.Base.{
  ℕ, ◌+◌, ◌≤◌, ◌<◌, ◌≡◌, refl, subst, sym, ap, ◌∙◌, Bool, false, inl, inr, Bool-cases, none, some,
  List, length, arith, ok, IfOk, IfOk-always, OkUnless, OkUnless-IfOk, IfOk-bind, IfOk-map, lookup,
  insert, erase, text_key, same_text, lookup-insert, if◌then◌else◌, ◌==◌,
}
use head_write_muduo_epoll_c.Kernel.{Epoll, EventFd, Decimal}
use head_write_muduo_epoll_c.Functor.{Functor, call_connect_established}
use head_write_muduo_epoll_c.EventLoop.{run_in_loop, is_in_loop_thread}
use head_write_muduo_epoll_c.EventLoopThreadPool.{get_next_loop}
use head_write_muduo_epoll_c.TcpConnection.{
  Session, connect_established, set_state, with_channel, note_call, connected, TcpConnection,
  set_write_complete_callback, set_connection_callback, set_message_callback,
}
use head_write_muduo_epoll_c.TcpConnection
use head_write_muduo_epoll_c.TcpServer.{
  Ends, local_addr, set_callbacks, TcpServer, Net, conn_name, connect_on, connect_chosen,
  new_connection, remove_connection_in_loop, start, listen_now, put_conn,
}
use head_write_muduo_epoll_c.TcpServer.Entries.{
  Numbered, Numbered-insert, Numbered-erase, lookup-Numbered, erase-insert,
}
use head_write_muduo_epoll_c.TcpServer.Kept.{run_on_conn-name, new_conn-name}
use head_write_muduo_epoll_c.TcpServer.Refusal.{RefusedIn, new_connection-OkUnless}
use head_write_muduo_epoll_c.TcpServer.Names.{conn_name-injective}

module _ (dec : Decimal) (ep : Epoll) (ef : EventFd) where
  abbrev pub IsNumbered : TcpServer → Type 0
  IsNumbered s = Numbered (conn_name dec s) s.next_conn_id s.connections

  -- The next name is not in the map.
  pub next_is_free :
      (s : TcpServer)
      → IsNumbered s
      → length s.ip_port ≤ 51
      → s.next_conn_id < 2147483648
      → lookup (conn_name dec s s.next_conn_id) s.connections ≡ none
  next_is_free s v short small =
      lookup-Numbered (conn_name dec s) s.next_conn_id s.connections v λ id below same.
        absurd (
          omega (arith, conn_name-injective dec s id s.next_conn_id short (omega arith) small same))

  -- What a new connection leaves, whether it is established at once or by its own loop later.
  abbrev pub Added : List ℕ → ℕ × ℕ → TcpServer → TcpServer × Net dec ep ef → Type 0
  Added name entry s (s', net') =
      ((j : List ℕ)
        → lookup j s'.connections
          ≡ (if same_text name j then some entry else lookup j s.connections))
      × IsNumbered s'
      × (s'.next_conn_id ≡ s.next_conn_id + 1)

  connect_on_adds :
      (tid io address channel_address sockfd : ℕ) (ends : Ends) (s : TcpServer)
      (net : Net dec ep ef)
      → IsNumbered s
      → IfOk
          (Added (conn_name dec s s.next_conn_id) (address, io) s)
          (connect_on dec ep ef tid io address channel_address sockfd ends (s, net))
  unfolding connect_on conn_name
  connect_on_adds tid io address channel_address sockfd ends s net v =
      let name = conn_name dec s s.next_conn_id in
      IfOk-always (Added name (address, io) s) _ _ λ net'. (
        λ j. lookup-insert name j (address, io) s.connections,
        Numbered-insert (conn_name dec s) s.next_conn_id (address, io) s.connections v,
        refl,
      )

  -- `newConnection` gives the connection a name that no connection of the map has; the map then has
  -- the connection under that name, with the loop that the pool chose, and every other connection
  -- as before; and every name still belongs to a number that was given out. The process ends only if
  -- epoll refuses the descriptor. The address of the server takes at most 51 characters, and fewer
  -- than 2 ^ 31 connections were made.
  pub new_connection_adds :
      (tid address channel_address sockfd : ℕ) (ends : Ends) (s : TcpServer) (net : Net dec ep ef)
      {io : ℕ}
      → (get_next_loop s.thread_pool).0 ≡ some io
      → IsNumbered s
      → length s.ip_port ≤ 51
      → s.next_conn_id < 2147483648
      → let name = conn_name dec s s.next_conn_id in
        (lookup name s.connections ≡ none)
        × OkUnless
            (RefusedIn dec ep ef io channel_address sockfd net)
            (Added name (address, io) s)
            (new_connection dec ep ef tid address channel_address sockfd ends (s, net))
  unfolding new_connection connect_chosen conn_name
  new_connection_adds tid address channel_address sockfd ends s net {io} chosen v short small =
      let name = conn_name dec s s.next_conn_id in
      let s' = record s { thread_pool = (get_next_loop s.thread_pool).1 } in
      (
        next_is_free s v short small,
        OkUnless-IfOk (RefusedIn dec ep ef io channel_address sockfd net)
            (Added name (address, io) s)
            (new_connection dec ep ef tid address channel_address sockfd ends (s, net))
            (new_connection-OkUnless dec ep ef tid address channel_address sockfd ends s net chosen)
            (subst
              (λ o.
                IfOk (Added name (address, io) s)
                  (connect_chosen dec ep ef tid o address channel_address sockfd ends (s', net)))
              (sym chosen) (connect_on_adds tid io address channel_address sockfd ends s' net v)),
      )

  -- After the removal of the connection at `address`, the map answers as it does for `s`.
  abbrev pub PutBack : ℕ → ℕ → ℕ → TcpServer → TcpServer × Net dec ep ef → Type 0
  PutBack tid address io s r =
      (j : List ℕ)
      → lookup j (remove_connection_in_loop dec ep ef tid address io r).0.connections
        ≡ lookup j s.connections

  connect_on-PutBack :
      (tid io address channel_address sockfd : ℕ) (ends : Ends) (s : TcpServer)
      (net : Net dec ep ef)
      → lookup (conn_name dec s s.next_conn_id) s.connections ≡ none
      → IfOk
          (PutBack tid address io s)
          (connect_on dec ep ef tid io address channel_address sockfd ends (s, net))
  unfolding connect_on conn_name remove_connection_in_loop
  connect_on-PutBack tid io address channel_address sockfd ends s net free =
      let name = conn_name dec s s.next_conn_id in
      let conn = set_callbacks s (
        TcpConnection.new_connection address channel_address name sockfd (local_addr ends)
          ends.peer_addr) in
      IfOk-bind
        (λ (n : Net dec ep ef).
          (n.conns address).name ≡ ((put_conn dec ep ef address conn net).conns address).name)
        (PutBack tid address io s) _ _
        (run_on_conn-name dec ep ef tid address io (call_connect_established address)
          (put_conn dec ep ef address conn net))
        λ n e j.
          ap (λ i. lookup j (erase i (insert name (address, io) s.connections)))
            (e ∙ new_conn-name dec ep ef address channel_address sockfd ends name s net)
          ∙ erase-insert name j (address, io) s.connections free

  -- Under the conditions of `new_connection_adds`, the removal of the connection that `newConnection`
  -- has just made leaves the map of connections as it was before. The process ends only if epoll
  -- refuses the descriptor.
  pub remove_undoes_new :
      (tid address channel_address sockfd : ℕ) (ends : Ends) (s : TcpServer) (net : Net dec ep ef)
      {io : ℕ}
      → (get_next_loop s.thread_pool).0 ≡ some io
      → IsNumbered s
      → length s.ip_port ≤ 51
      → s.next_conn_id < 2147483648
      → OkUnless
          (RefusedIn dec ep ef io channel_address sockfd net)
          (PutBack tid address io s)
          (new_connection dec ep ef tid address channel_address sockfd ends (s, net))
  unfolding new_connection connect_chosen conn_name
  remove_undoes_new tid address channel_address sockfd ends s net {io} chosen v short small =
      let s' = record s { thread_pool = (get_next_loop s.thread_pool).1 } in
      OkUnless-IfOk (RefusedIn dec ep ef io channel_address sockfd net) (PutBack tid address io s)
        (new_connection dec ep ef tid address channel_address sockfd ends (s, net))
        (new_connection-OkUnless dec ep ef tid address channel_address sockfd ends s net chosen)
        (subst
          (λ o.
            IfOk (PutBack tid address io s)
              (connect_chosen dec ep ef tid o address channel_address sockfd ends (s', net)))
          (sym chosen)
          (connect_on-PutBack tid io address channel_address sockfd ends s' net
            (next_is_free s v short small)))

  -- The other operations that change the map keep its names numbered.
  pub remove_connection_in_loop-IsNumbered :
      (tid address io : ℕ) (s : TcpServer) (net : Net dec ep ef)
      → IsNumbered s
      → IsNumbered (remove_connection_in_loop dec ep ef tid address io (s, net)).0
  unfolding remove_connection_in_loop conn_name
  remove_connection_in_loop-IsNumbered tid address io s net v =
      Numbered-erase (conn_name dec s) s.next_conn_id (net.conns address).name s.connections v

  starts_no_more :
      (tid : ℕ) (start_loop : ℕ → ℕ) (listens : Bool) (r : TcpServer × Net dec ep ef)
      → (r.0.started == 0) ≡ false
      → start dec ep ef tid start_loop listens r
        ≡ ok (record r.0 { started = r.0.started + 1 }, r.1)
  unfolding start
  starts_no_more tid start_loop listens (s, net) e = rw e refl

  start-counts :
      (tid : ℕ) (start_loop : ℕ → ℕ) (listens : Bool) (s : TcpServer) (net : Net dec ep ef)
      → IfOk
          (λ (r : TcpServer × Net dec ep ef). (r.0.started == 0) ≡ false)
          (start dec ep ef tid start_loop listens (s, net))
  unfolding start run_in_loop listen_now
  start-counts tid start_loop listens s net = elim (Bool-cases (s.started == 0)) [
    | inl first ↦
        rw first (elim (Bool-cases (is_in_loop_thread ep ef Functor (net.loops s.base_loop) tid)) [
          | inl here ↦ rw here (
              IfOk-always (λ (r : TcpServer × Net dec ep ef). (r.0.started == 0) ≡ false) _ _
                λ r. refl)
          | inr there ↦ rw there refl
        ])
    | inr again ↦ rw again (ground arith)
  ]

  -- A server that has been started does not start again: a second `start` only counts the call.
  pub start_twice :
      (tid tid' : ℕ) (start_loop start_loop' : ℕ → ℕ) (listens listens' : Bool) (s : TcpServer)
      (net : Net dec ep ef)
      → IfOk
          (λ r.
            start dec ep ef tid' start_loop' listens' r
            ≡ ok (record r.0 { started = r.0.started + 1 }, r.1))
          (start dec ep ef tid start_loop listens (s, net))
  start_twice tid tid' start_loop start_loop' listens listens' s net =
      IfOk-map _ _ _ (λ r. starts_no_more tid' start_loop' listens' r)
        (start-counts tid start_loop listens s net)
