-- ===== src/TcpServer/Passing.antt =====
-- Acceptor.cc, TcpServer.cc and TcpConnection.cc: a connection from the accept to its end.
use head_write_muduo_epoll_c.Base.{
  ℕ, ◌≤◌, ◌<◌, ◌≡◌, refl, sym, ap, ◌∙◌, subst, Bool, true, false, ==_refl, ◌==◌, inl, inr,
  Bool-cases, Option, none, some, List, [], ◌∷◌, ◌++◌, length, arith, ok, Outcome, ◌>>=◌, OkUnless,
  OkUnless-bind, lookup, text_key, nat_key, same_text, same_text_iff, if◌then◌else◌,
}
use head_write_muduo_epoll_c.Kernel.{Epoll, EventFd, Decimal}
use head_write_muduo_epoll_c.InetAddress.{InetAddress, SockAddr}
use head_write_muduo_epoll_c.Functor.{Functor, call_connect_established}
use head_write_muduo_epoll_c.EventLoop.{is_in_loop_thread}
use head_write_muduo_epoll_c.EventLoopThreadPool.{get_next_loop}
use head_write_muduo_epoll_c.TcpConnection.{
  TcpConnection, Session, connect_established, connected, disconnected, connection_callback,
  close_callback,
}
use head_write_muduo_epoll_c.TcpServer.{
  Ends, TcpServer, Net, conn_name, conn_suffix, handle_accept, on_conn,
}
use head_write_muduo_epoll_c.TcpServer.Refusal.{RefusedIn}
use head_write_muduo_epoll_c.TcpServer.Connections.{IsNumbered, next_is_free}
use head_write_muduo_epoll_c.TcpServer.Establishing.{wanted, Up, connect_established-Up}
use head_write_muduo_epoll_c.Channel.{
  new, tie, with_reading, new_channel, set_read_callback, set_write_callback, set_close_callback,
  set_error_callback,
}
use head_write_muduo_epoll_c.Channel.Masks.{IsInterest}
use head_write_muduo_epoll_c.Poller.Sync.{Refused}
use head_write_muduo_epoll_c.TcpConnection.Flow.{IsWatched}
use head_write_muduo_epoll_c.TcpServer.Accepting.{AcceptedAs, accepted_is_connected}
use head_write_muduo_epoll_c.TcpServer.Pending.{
  any_functor, any_functor-append, is_establishment, awaits,
}
use head_write_muduo_epoll_c.TcpServer.Closing.{
  close_connection, removal, destruction, closed_connection-Gone,
}

module _ (dec : Decimal) (ep : Epoll) (ef : EventFd) where
  -- `handleClose`, `removeConnection` with the base loop's functor, and `connectDestoryed`.
  unfoldable pub close_through :
      ℕ → ℕ → ℕ → ℕ → TcpServer × Net dec ep ef → Outcome (TcpServer × Net dec ep ef)
  close_through tid base_tid a io r =
      close_connection dec ep ef tid a io r
      >>= removal dec ep ef base_tid a io
      >>= destruction dec ep ef a io

  -- The server has the connections that it had before, this one has called its callbacks, and the loop
  -- has no trace of the descriptor.
  pub record PassedBy (a io fd : ℕ) (s : TcpServer) (u : TcpServer × Net dec ep ef) : Type 0 where
    pub names : (j : List ℕ) → lookup j u.0.connections ≡ lookup j s.connections
    pub state : (u.1.conns a).state ≡ disconnected
    pub calls :
        u.1.calls a
        ≡ connection_callback connected ∷ connection_callback disconnected ∷ close_callback ∷ []
    pub unwatched : ep.interest (u.1.loops io).poller.epoll fd ≡ none
    pub unlisted : lookup fd (u.1.loops io).poller.channels ≡ none

  -- The call of `connectEstablished` by the loop `io`, if that is among its pending functors.
  unfoldable pub establishment :
      ℕ → ℕ → TcpServer × Net dec ep ef → Outcome (TcpServer × Net dec ep ef)
  establishment a io (s, net) =
      if awaits dec ep ef (is_establishment a) io net
      then (on_conn dec ep ef a io (connect_established ep ef) net >>= λ n. ok (s, n))
      else ok (s, net)

  -- The connection is up, under its name.
  record Settled (a io fd : ℕ) (name : List ℕ) (s : TcpServer) (r : TcpServer × Net dec ep ef)
      : Type 0 where
    names :
        (j : List ℕ)
        → lookup j r.0.connections
          ≡ (if same_text name j then some (a, io) else lookup j s.connections)
    named : (r.1.conns a).name ≡ name
    fd_kept : (r.1.conns a).channel.fd ≡ fd
    calls : r.1.calls a ≡ connection_callback connected ∷ []
    watched : IsWatched ep ef (r.1.loops io) (r.1.conns a).channel

  close_through-PassedBy :
      (tid base_tid a io fd : ℕ) (name : List ℕ) (s : TcpServer) (r : TcpServer × Net dec ep ef)
      → lookup name s.connections ≡ none
      → Settled a io fd name s r
      → (u : TcpServer × Net dec ep ef) × (close_through tid base_tid a io r ≡ ok u)
        × PassedBy a io fd s u
  unfolding close_through
  close_through-PassedBy tid base_tid a io fd name s (s', n) free h =
      let (u, went, gone) = closed_connection-Gone dec ep ef tid base_tid a io s' n h.watched in
      (
        u,
        went,
        record {
          names = λ j.
              let left =
                gone.names j
                ∙ ap (λ k. if same_text k j then none else lookup j s'.connections) h.named in
              elim (Bool-cases (same_text name j)) [
                | inl e ↦
                    left
                    ∙ ap (λ b. if b then none else lookup j s'.connections) e
                    ∙ sym free
                    ∙ ap (λ k. lookup k s.connections) ((same_text_iff name j).0 e)
                | inr e ↦
                    left
                    ∙ ap (λ b. if b then none else lookup j s'.connections) e
                    ∙ h.names j
                    ∙ ap (λ b. if b then some (a, io) else lookup j s.connections) e
              ];
          state = gone.state;
          calls =
              gone.calls
              ∙ ap (λ cs. cs ++ connection_callback disconnected ∷ close_callback ∷ []) h.calls;
          unwatched =
              subst (λ k. ep.interest (u.1.loops io).poller.epoll k ≡ none) h.fd_kept
                gone.unwatched;
          unlisted =
              subst (λ k. lookup k (u.1.loops io).poller.channels ≡ none) h.fd_kept gone.unlisted;
        },
      )

  -- `connectEstablished` of a connection that waits for it.
  on_conn-Settled :
      (a io fd : ℕ) (c : TcpConnection) (name : List ℕ) (s s' : TcpServer) (n : Net dec ep ef)
      → n.conns a ≡ c
      → n.calls a ≡ []
      → c.channel.index ≡ new
      → IsInterest c.channel
      → c.channel.fd ≡ fd
      → c.name ≡ name
      → ((j : List ℕ)
          → lookup j s'.connections
            ≡ (if same_text name j then some (a, io) else lookup j s.connections))
      → OkUnless
          (Refused ep (n.loops io).poller (with_reading (tie c.channel)))
          (Settled a io fd name s)
          (on_conn dec ep ef a io (connect_established ep ef) n >>= λ n'. ok (s', n'))
  unfolding on_conn
  on_conn-Settled a io fd c name s s' n conn calls index interest fd_kept named names =
      let E = Refused ep (n.loops io).poller (with_reading (tie c.channel)) in
      let before : Session ep ef = record { loop = n.loops io; conn = c; calls = [] } in
      let same : ◌≡◌ {A = Session ep ef} before
          (record { loop = n.loops io; conn = n.conns a; calls = n.calls a }) =
        ap (λ k. record { loop = n.loops io; conn = k; calls = [] }) (sym conn)
        ∙ ap (λ k. record { loop = n.loops io; conn = n.conns a; calls = k }) (sym calls) in
      let put : Session ep ef → Net dec ep ef = λ t. record {
        loops = λ j. if j == io then t.loop else n.loops j;
        conns = λ j. if j == a then t.conn else n.conns j;
        calls = λ j. if j == a then t.calls else n.calls j;
      } in
      subst
        (λ b.
          OkUnless E (Settled a io fd name s)
            ((connect_established ep ef b >>= λ t. ok (put t)) >>= λ n'. ok (s', n')))
        same
        (OkUnless-bind E (λ n'. Settled a io fd name s (s', n')) (Settled a io fd name s)
          (connect_established ep ef before >>= λ t. ok (put t)) _
          (OkUnless-bind E (Up dec ep ef before) (λ n'. Settled a io fd name s (s', n'))
            (connect_established ep ef before) _
            (connect_established-Up dec ep ef before index interest)
            λ t u. record {
              names = names;
              named = rw (==_refl a) (ap (λ k. k.name) u.conn ∙ named);
              fd_kept = rw (==_refl a) (u.fd ∙ fd_kept);
              calls = rw (==_refl a) u.calls;
              watched = rw (==_refl a, ==_refl io) u.watched;
            })
          λ n' h. h)

  -- However the accepting thread and the chosen loop stand to each other, the connection comes up.
  establishment-Settled :
      (tid io address channel_address fd : ℕ) (ends : Ends) (s : TcpServer) (net : Net dec ep ef)
      (r : TcpServer × Net dec ep ef)
      → awaits dec ep ef (is_establishment address) io net ≡ false
      → AcceptedAs dec ep ef tid io address channel_address fd ends s net r
      → OkUnless
          (RefusedIn dec ep ef io channel_address fd net)
          (Settled address io fd (conn_name dec s s.next_conn_id) s)
          (establishment address io r)
  unfolding establishment with_reading tie new_channel set_read_callback set_write_callback
      set_close_callback set_error_callback conn_name conn_suffix
  establishment-Settled tid io address channel_address fd ends s net (s', n) unused (names, up) =
      let name = conn_name dec s s.next_conn_id in
      let c = wanted dec ep ef address channel_address name fd ends s in
      let here = is_in_loop_thread ep ef Functor (net.loops io) tid in
      let conn_as = λ (b : Bool).
        if b then record c { state = connected; channel = (n.conns address).channel } else c in
      let calls_as = λ (b : Bool). if b then connection_callback connected ∷ [] else [] in
      let pending = any_functor (is_establishment address) in
      elim (Bool-cases here) [
        | inl e ↦ rw (ap pending (up.kept e) ∙ unused) (record {
          names = names;
          named = ap (λ k. k.name) (up.conn ∙ ap conn_as e);
          fd_kept = up.fd;
          calls = up.calls ∙ ap calls_as e;
          watched = up.watched e;
        })
        | inr e ↦
            let queued =
              ap pending (up.queued e)
              ∙ any_functor-append (is_establishment address) (net.loops io).pending_functors
                  (call_connect_established address) (==_refl address) in
            rw queued (
              subst
                (λ q.
                  OkUnless (Refused ep q (with_reading (tie c.channel)))
                    (Settled address io fd name s)
                    (on_conn dec ep ef address io (connect_established ep ef) n >>= λ n'.
                      ok (s', n')))
                (up.poller e)
                (on_conn-Settled address io fd c name s s' n (up.conn ∙ ap conn_as e)
                  (up.calls ∙ ap calls_as e) refl (omega arith) refl refl names))
      ]

  -- A server accepts a descriptor under a name that no connection has, and for a connection at an
  -- address for which no `connectEstablished` is pending in the chosen loop. The connection comes up,
  -- at once or by that loop's call of the pending `connectEstablished`, and its peer closes it later:
  -- `handleClose` runs, then `removeConnectionInLoop` if it is pending in the base loop, then
  -- `connectDestoryed` if it is pending in the connection's loop. Unless epoll refuses the descriptor,
  -- all these calls go through, and they leave: the map as it was before the accept; a connection
  -- that is kDisconnected and that has called the connection callback when it came up, the
  -- connection callback when it went down and the close callback, once each and in this order; and
  -- no trace of the descriptor in epoll and in the map of channels. The address of the server takes
  -- at most 51 characters, fewer than 2 ^ 31 connections were made, and every name of the map was
  -- given out by the server.
  pub accept_then_close :
      (tid io_tid base_tid address channel_address connfd : ℕ) (peer_addr blank : InetAddress)
      (sockname : Option SockAddr) (s : TcpServer) (net : Net dec ep ef) {io : ℕ}
      → s.acceptor.has_new_connection ≡ true
      → (get_next_loop s.thread_pool).0 ≡ some io
      → IsNumbered dec ep ef s
      → length s.ip_port ≤ 51
      → s.next_conn_id < 2147483648
      → awaits dec ep ef (is_establishment address) io net ≡ false
      → OkUnless
          (RefusedIn dec ep ef io channel_address connfd net)
          (PassedBy address io connfd s)
          (handle_accept dec ep ef tid address channel_address
              (some (connfd, peer_addr))
              blank
              sockname
              (s, net)
            >>= establishment address io
            >>= close_through io_tid base_tid address io)
  accept_then_close tid io_tid base_tid address channel_address connfd peer_addr blank sockname s
        net {io} set chosen v short small unused =
      let ends : Ends = record { sockname = sockname; peer_addr = peer_addr } in
      let name = conn_name dec s s.next_conn_id in
      let E = RefusedIn dec ep ef io channel_address connfd net in
      let up =
        OkUnless-bind E (AcceptedAs dec ep ef tid io address channel_address connfd ends s net)
          (Settled address io connfd name s) _ (establishment address io)
          (accepted_is_connected dec ep ef tid address channel_address connfd peer_addr blank
            sockname s net set chosen).0
          λ r h.
            establishment-Settled tid io address channel_address connfd ends s net r unused h in
      OkUnless-bind E (Settled address io connfd name s) (PassedBy address io connfd s) _
        (close_through io_tid base_tid address io) up
        λ r h.
          let (u, went, passed) =
            close_through-PassedBy io_tid base_tid address io connfd name s r
              (next_is_free dec ep ef s v short small) h in
          subst (OkUnless E (PassedBy address io connfd s)) (sym went) passed
