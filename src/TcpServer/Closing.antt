-- ===== src/TcpServer/Closing.antt =====
-- TcpServer.cc and TcpConnection.cc: the end of a connection whose peer has closed it, through the
-- connection's loop, the base loop and the connection's loop again.
use head_write_muduo_epoll_c.Base.{
  ℕ, ◌≡◌, ◌≢◌, refl, sym, ap, ◌∙◌, inl, inr, Bool-cases, true, none, List, [], ◌∷◌, ◌++◌, arith,
  ==_refl, ==_iff, ◌==◌, Outcome, ok, ◌>>=◌, lookup, nat_key, text_key, same_text, lookup-erase,
  if◌then◌else◌,
}
use head_write_muduo_epoll_c.Kernel.{Epoll, EventFd, Decimal}
use head_write_muduo_epoll_c.Functor.{
  Functor, call_connect_destroyed, call_remove_connection_in_loop,
}
use head_write_muduo_epoll_c.EventLoop.{run_in_loop, is_in_loop_thread, queue_in_loop}
use head_write_muduo_epoll_c.TcpConnection.{
  Session, disconnected, connection_callback, close_callback, handle_close, connect_destroyed,
}
use head_write_muduo_epoll_c.TcpConnection.Flow.{IsWatched}
use head_write_muduo_epoll_c.TcpConnection.Closing.{Closed, handle_close-Closed, destroy_closed}
use head_write_muduo_epoll_c.TcpServer.{
  TcpServer, Net, put_loop, on_conn, remove_connection, remove_connection_in_loop,
}
use head_write_muduo_epoll_c.TcpServer.Pending.{is_removal, is_destruction, awaits, queued-awaits}
use head_write_muduo_epoll_c.TcpServer.Left.{Left, on_conn-Left, queue-Left}

module _ (dec : Decimal) (ep : Epoll) (ef : EventFd) where
  -- `handleClose` in the thread of the loop `io`, with the callback that the server has set.
  unfoldable pub close_connection :
      ℕ → ℕ → ℕ → TcpServer × Net dec ep ef → Outcome (TcpServer × Net dec ep ef)
  close_connection tid a io (s, net) = on_conn dec ep ef a io (handle_close ep ef) net >>= λ n.
      remove_connection dec ep ef tid a io (s, n)

  -- The base loop's call of `removeConnectionInLoop`, if that is among its pending functors.
  unfoldable pub removal :
      ℕ → ℕ → ℕ → TcpServer × Net dec ep ef → Outcome (TcpServer × Net dec ep ef)
  removal base_tid a io (s, net) =
      if awaits dec ep ef (is_removal a) s.base_loop net
      then ok (remove_connection_in_loop dec ep ef base_tid a io (s, net))
      else ok (s, net)

  -- The call of `connectDestoryed` by the loop `io`, if that is among its pending functors.
  unfoldable pub destruction :
      ℕ → ℕ → TcpServer × Net dec ep ef → Outcome (TcpServer × Net dec ep ef)
  destruction a io (s, net) =
      if awaits dec ep ef (is_destruction a) io net
      then (on_conn dec ep ef a io (connect_destroyed ep ef) net >>= λ n. ok (s, n))
      else ok (s, net)

  abbrev session_at : ℕ → ℕ → Net dec ep ef → Session ep ef
  session_at a io net = record { loop = net.loops io; conn = net.conns a; calls = net.calls a }

  module _ (a io : ℕ) (net : Net dec ep ef) (t : Session ep ef) where
    -- The server has forgotten the connection, whose destruction is pending.
    record Forgotten (s : TcpServer) (r : TcpServer × Net dec ep ef) : Type 0 where
      due : awaits dec ep ef (is_destruction a) io r.1 ≡ true
      left : Left dec ep ef a io net t r.1
      names :
          (j : List ℕ)
          → lookup j r.0.connections
            ≡ (if same_text t.conn.name j then none else lookup j s.connections)

    remove-Forgotten :
        (tid : ℕ) (s : TcpServer) {n : Net dec ep ef}
        → Left dec ep ef a io net t n
        → Forgotten s (remove_connection_in_loop dec ep ef tid a io (s, n))
    unfolding remove_connection_in_loop
    remove-Forgotten tid s {n} v = record {
      due =
          queued-awaits dec ep ef (is_destruction a) io tid (call_connect_destroyed a) n
            (==_refl a);
      left = queue-Left dec ep ef a io net t io tid (call_connect_destroyed a) v;
      names = λ j.
          lookup-erase (n.conns a).name j s.connections
          ∙ ap (λ c. if same_text c.name j then none else lookup j s.connections) v.conn;
    }

    -- A second call changes nothing of this.
    again-Forgotten :
        (tid : ℕ) (s s' : TcpServer) {n : Net dec ep ef}
        → Forgotten s (s', n)
        → Forgotten s (remove_connection_in_loop dec ep ef tid a io (s', n))
    again-Forgotten tid s s' {n} f =
        let g = remove-Forgotten tid s' f.left in
        record {
          due = g.due;
          left = g.left;
          names = λ j. elim (Bool-cases (same_text t.conn.name j)) [
            | inl e ↦
                g.names j
                ∙ ap (λ b. if b then none else lookup j s'.connections) e
                ∙ sym (ap (λ b. if b then none else lookup j s.connections) e)
            | inr e ↦
                g.names j ∙ ap (λ b. if b then none else lookup j s'.connections) e ∙ f.names j
          ];
        }

    removal-Forgotten :
        (tid base_tid : ℕ) (s : TcpServer) {n : Net dec ep ef}
        → Left dec ep ef a io net t n
        → (r : TcpServer × Net dec ep ef) × ((remove_connection dec ep ef tid a io (s, n)
              >>= removal base_tid a io)
            ≡ ok r)
          × Forgotten s r
    unfolding remove_connection run_in_loop removal is_in_loop_thread
    removal-Forgotten tid base_tid s {n} v =
        elim (Bool-cases ((n.loops s.base_loop).thread_id == tid)) [
          | inl here ↦
              let r = remove_connection_in_loop dec ep ef tid a io (s, n) in
              let f = remove-Forgotten tid s v in
              elim (Bool-cases (awaits dec ep ef (is_removal a) r.0.base_loop r.1)) [
                | inl pending ↦ (
                  remove_connection_in_loop dec ep ef base_tid a io r,
                  rw here (rw pending refl),
                  again-Forgotten base_tid s r.0 f,
                )
                | inr none_left ↦ (r, rw here (rw none_left refl), f)
              ]
          | inr away ↦
              let l = s.base_loop in
              let f = call_remove_connection_in_loop a in
              let n' = put_loop dec ep ef l (queue_in_loop ep ef Functor tid f (n.loops l)) n in
              (
                remove_connection_in_loop dec ep ef base_tid a io (s, n'),
                rw away (rw (queued-awaits dec ep ef (is_removal a) l tid f n (==_refl a)) refl),
                remove-Forgotten base_tid s (queue-Left dec ep ef a io net t l tid f v),
              )
        ]

  -- Nothing is left of the connection at `a` in the server, in epoll and in the map of channels, and the
  -- pollers of the other loops and the other connections are as they were.
  pub record Gone (a io : ℕ) (s : TcpServer) (net : Net dec ep ef) (r : TcpServer × Net dec ep ef)
      : Type 0 where
    pub names :
        (j : List ℕ)
        → lookup j r.0.connections
          ≡ (if same_text (net.conns a).name j then none else lookup j s.connections)
    pub state : (r.1.conns a).state ≡ disconnected
    pub calls : r.1.calls a ≡ net.calls a ++ connection_callback disconnected ∷ close_callback ∷ []
    pub unwatched : ep.interest (r.1.loops io).poller.epoll (net.conns a).channel.fd ≡ none
    pub unlisted : lookup (net.conns a).channel.fd (r.1.loops io).poller.channels ≡ none
    pub other_loops : (j : ℕ) → j ≢ io → (r.1.loops j).poller ≡ (net.loops j).poller
    pub other_conns : (b : ℕ) → b ≢ a → r.1.conns b ≡ net.conns b

  destruction-Gone :
      (a io : ℕ) (s : TcpServer) (net : Net dec ep ef) (t : Session ep ef)
      (r : TcpServer × Net dec ep ef)
      → Closed ep ef (session_at a io net) t
      → Forgotten a io net t s r
      → (u : TcpServer × Net dec ep ef) × (destruction a io r ≡ ok u) × Gone a io s net u
  unfolding destruction on_conn
  destruction-Gone a io s net t (s', n) closed f =
      let v = f.left in
      let here = session_at a io n in
      let fd = ap (λ c. c.channel.fd) v.conn ∙ closed.fd in
      let (u, went, state, calls, unwatched, unlisted) =
        destroy_closed ep ef here (ap (λ c. c.state) v.conn ∙ closed.state)
          (ap (λ c. c.channel.index) v.conn ∙ closed.index)
          (ap (λ q. ep.interest q.epoll here.conn.channel.fd) v.poller
            ∙ ap (ep.interest t.loop.poller.epoll) fd
            ∙ closed.unwatched) in
      (
        (
          s',
          record {
            loops = λ j. if j == io then u.loop else n.loops j;
            conns = λ j. if j == a then u.conn else n.conns j;
            calls = λ j. if j == a then u.calls else n.calls j;
          },
        ),
        rw (f.due, went) refl,
        record {
          names = λ j.
              f.names j
              ∙ ap (λ name. if same_text name j then none else lookup j s.connections) closed.name;
          state = rw (==_refl a) state;
          calls = rw (==_refl a) (calls ∙ v.calls ∙ closed.calls);
          unwatched = rw (==_refl io) (ap (ep.interest u.loop.poller.epoll) (sym fd) ∙ unwatched);
          unlisted =
              rw (==_refl io) (ap (λ k. lookup k u.loop.poller.channels) (sym fd) ∙ unlisted);
          other_loops = λ j ne. ground (arith, ne, ==_iff j io, v.other_loops j ne);
          other_conns = λ b ne. ground (arith, ne, ==_iff b a, v.other_conns b ne);
        },
      )

  -- The peer of a connection that epoll watches closes it. `handleClose` in the connection's loop,
  -- with `removeConnection` as its last call, then the base loop's call of `removeConnectionInLoop`
  -- if that is pending there, and then the own loop's call of `connectDestoryed` if that is pending
  -- there, always go through. They leave: the map of connections without this one's name
  -- and otherwise as it was; the state kDisconnected; one call of the connection callback and one of
  -- the close callback; no trace of the descriptor in the loop's epoll or map of channels; and the
  -- other connections and the pollers of the other loops as they were.
  pub closed_connection-Gone :
      (tid base_tid a io : ℕ) (s : TcpServer) (net : Net dec ep ef)
      → IsWatched ep ef (net.loops io) (net.conns a).channel
      → (u : TcpServer × Net dec ep ef) × ((close_connection tid a io (s, net)
            >>= removal base_tid a io
            >>= destruction a io)
          ≡ ok u)
        × Gone a io s net u
  unfolding close_connection on_conn
  closed_connection-Gone tid base_tid a io s net w =
      let (t, closes, closed) = handle_close-Closed ep ef (session_at a io net) w.index_added in
      let left = on_conn-Left dec ep ef a io net t closed.thread in
      let (r, removes, f) = removal-Forgotten a io net t tid base_tid s left in
      let (u, destroys, gone) = destruction-Gone a io s net t r closed f in
      (u, rw closes (ap (λ m. m >>= destruction a io) removes ∙ destroys), gone)
