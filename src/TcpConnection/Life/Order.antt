-- ===== src/TcpConnection/Life/Order.antt =====
-- TcpConnection.cc: the order of the callbacks and of the states, over every run of calls.
use head_write_muduo_epoll_c.Base.{
  ℕ, ◌≤◌, ◌<◌, ◌↔◌, ◌≡◌, ◌≢◌, refl, sym, subst, Bool, true, none, some, List, [], arith, ok,
  Outcome, IfOk,
}
use head_write_muduo_epoll_c.InetAddress.{InetAddress}
use head_write_muduo_epoll_c.Kernel.{Epoll, EventFd}
use head_write_muduo_epoll_c.Channel.{
  new_channel, set_read_callback, set_write_callback, set_close_callback, set_error_callback,
}
use head_write_muduo_epoll_c.Functor.{Functor}
use head_write_muduo_epoll_c.EventLoop.{EventLoop}
use head_write_muduo_epoll_c.TcpConnection.{
  State, disconnected, connecting, connected, disconnecting, Session, write_complete_callback,
  high_water_mark_callback, set_state, new_connection, set_write_complete_callback,
  set_high_water_mark_callback,
}
use head_write_muduo_epoll_c.TcpConnection.Flow.{IsWatched}
use head_write_muduo_epoll_c.TcpConnection.Handling.{Logged}
use head_write_muduo_epoll_c.TcpConnection.Life.{
  Phase, unreported, up, down, given_back, phase_after, next_phase, agrees, rank, entry, Step,
  Steps, establishes, reports, sends, shuts, sends_queued, shuts_queued, tells_written, tells_mark,
  destroys, sets_write_complete, sets_mark, turns, here, then_,
}
use head_write_muduo_epoll_c.TcpConnection.Life.Standing.{Standing, Standing-same}
use head_write_muduo_epoll_c.TcpConnection.Life.Steady.{
  send_in_loop-Steady, shutdown_in_loop-Steady,
}
use head_write_muduo_epoll_c.TcpConnection.Life.Lawful.{
  Lawful, Next, Next-trans, Steady-Next, Lawful-Steady, told-Next,
}
use head_write_muduo_epoll_c.TcpConnection.Life.Changes.{connect_established-Next}
use head_write_muduo_epoll_c.TcpConnection.Life.Ending.{connect_destroyed-Next}
use head_write_muduo_epoll_c.TcpConnection.Life.Reports.{handle_report-Next}
use head_write_muduo_epoll_c.TcpConnection.Life.Calls.{open_state-IsUp, send-Steady, shutdown-Next}

module _ (ep : Epoll) (ef : EventFd) where
  went : {A : Type 0} (P : A → Type 0) {m : Outcome A} {t : A} → m ≡ ok t → IfOk P m → P t
  went P e h = subst (IfOk P) e h

  set_write-Next :
      {p : Phase} {s : Session ep ef} (is_set : Bool)
      → Lawful ep ef p s
      → Next ep ef s (record s { conn = set_write_complete_callback is_set s.conn })
  unfolding set_write_complete_callback
  set_write-Next {p} is_set v = (
    p,
    record { protocol = v.protocol; agreement = v.agreement; standing = v.standing },
    omega arith,
  )

  set_mark-Next :
      {p : Phase} {s : Session ep ef} (mark : ℕ)
      → Lawful ep ef p s
      → Next ep ef s (record s { conn = set_high_water_mark_callback mark s.conn })
  unfolding set_high_water_mark_callback
  set_mark-Next {p} mark v = (
    p,
    record { protocol = v.protocol; agreement = v.agreement; standing = v.standing },
    omega arith,
  )

  -- Once the connection is reported, its functors may be called.
  allows_functors :
      (state : State) (p : Phase) (size : ℕ)
      → state ≢ connecting
      → agrees state p ≡ true
      → (next_phase p write_complete_callback ≡ some p)
        × (next_phase p (high_water_mark_callback size) ≡ some p)
  allows_functors state up size begun h = (refl, refl)
  allows_functors state down size begun h = (refl, refl)
  allows_functors state given_back size begun h = (refl, refl)
  allows_functors connecting unreported size begun h = absurd (begun refl)
  allows_functors connected unreported size begun h = absurd (cc)
  allows_functors disconnecting unreported size begun h = absurd (cc)
  allows_functors disconnected unreported size begun h = absurd (cc)

  Step-Next : {p : Phase} {s t : Session ep ef} → Lawful ep ef p s → Step ep ef s t → Next ep ef s t
  Step-Next v (establishes fresh e) = went _ e (connect_established-Next ep ef v fresh)
  Step-Next {p} {s} v (reports tid a revents alive errors errors' watched plain e) =
      went (λ (r : Logged ep ef). Next ep ef s r.0) e
        (handle_report-Next ep ef tid a revents alive s errors v watched plain)
  Step-Next {p} {s} v (sends tid result bytes e) =
      Steady-Next ep ef v (went _ e (send-Steady ep ef tid result bytes v))
  Step-Next v (shuts tid e) = went _ e (shutdown-Next ep ef tid v)
  Step-Next {p} {s} v (sends_queued tid result bytes begun e) = Steady-Next ep ef v (
      went _ e (
        send_in_loop-Steady ep ef s.conn.state s.calls tid result bytes
          (open_state-IsUp ep ef s.conn.state begun) (Lawful-Steady ep ef v)))
  Step-Next {p} {s} v (shuts_queued e) = subst (Next ep ef s) (sym e) (
      Steady-Next ep ef v
        (shutdown_in_loop-Steady ep ef s.conn.state s.calls (Lawful-Steady ep ef v)))
  Step-Next {p} {s} v (tells_written begun e) = subst (Next ep ef s) (sym e) (
      told-Next ep ef write_complete_callback v
        (allows_functors s.conn.state p 0 begun v.agreement).0)
  Step-Next {p} {s} v (tells_mark size begun e) = subst (Next ep ef s) (sym e) (
      told-Next ep ef (high_water_mark_callback size) v
        (allows_functors s.conn.state p size begun v.agreement).1)
  Step-Next v (destroys begun e) = went _ e (connect_destroyed-Next ep ef v begun)
  Step-Next {p} {s} v (sets_write_complete is_set e) =
      subst (Next ep ef s) (sym e) (set_write-Next is_set v)
  Step-Next {p} {s} v (sets_mark mark e) = subst (Next ep ef s) (sym e) (set_mark-Next mark v)
  Step-Next {p} {s} v (turns l same e) = subst (Next ep ef s) (sym e) (
    p,
    record {
      protocol = v.protocol;
      agreement = v.agreement;
      standing = Standing-same ep ef s.conn.state s.loop l s.conn.channel same v.standing;
    },
    omega arith,
  )

  Steps-Next :
      {p : Phase} {s t : Session ep ef} → Lawful ep ef p s → Steps ep ef s t → Next ep ef s t
  Steps-Next {p} v here = (p, v, omega arith)
  Steps-Next {p} {s} {t} v (then_ {t = m} run step) =
      let (q, w, le) = Steps-Next v run in Next-trans ep ef s m t le (Step-Next w step)

  -- The assignment of `shutdown` sets the state back only where the connection is closed.
  goes_back : (state : State) → (2 < rank state) ↔ (state ≡ disconnected)
  goes_back disconnected = (λ h. refl, λ e. omega arith)
  goes_back connecting = (λ h. absurd (omega (arith, h)), λ e. absurd (cc))
  goes_back connected = (λ h. absurd (omega (arith, h)), λ e. absurd (cc))
  goes_back disconnecting = (λ h. absurd (omega (arith, h)), λ e. absurd (cc))

  module _ (address channel_address : ℕ) (name : List ℕ) (fd : ℕ)
      (local_addr peer_addr : InetAddress) (l : EventLoop ep ef Functor) where
    -- A connection as the constructor makes it, in a loop.
    abbrev pub newborn : Session ep ef
    newborn = record {
      loop = l;
      conn = new_connection address channel_address name fd local_addr peer_addr;
      calls = [];
    }

    newborn-Lawful : entry ep ef l fd ≡ none → Lawful ep ef unreported newborn
    unfolding new_connection new_channel set_read_callback set_write_callback set_close_callback
        set_error_callback
    newborn-Lawful unwatched = record {
      protocol = refl;
      agreement = refl;
      standing = (refl, refl, unwatched);
    }

    -- Over every run of calls on a connection from its construction on a descriptor that epoll does
    -- not watch: its user is told first that it is up, then of messages, then at most once that it is
    -- down, and only after that is it given back to the server, at most once; and the state is
    -- kConnecting before the first of these, kConnected or kDisconnecting while it is up, and
    -- kDisconnected after. The functors that report written data and the high-water mark come in
    -- between. Each call of `shutdown` is one step. A hang-up that comes with urgent data as its only
    -- input is left out.
    pub callbacks_in_order :
        {t : Session ep ef}
        → entry ep ef l fd ≡ none
        → Steps ep ef newborn t
        → (q : Phase) × (phase_after unreported t.calls ≡ some q) × (agrees t.conn.state q ≡ true)
    callbacks_in_order unwatched run =
        let (q, v, le) = Steps-Next (newborn-Lawful unwatched) run in (q, v.protocol, v.agreement)

    -- Over every run of calls on a connection from its construction on a descriptor that epoll does
    -- not watch, where each call of `shutdown` is one step, the state only advances, from kConnecting
    -- by kConnected and kDisconnecting to kDisconnected. The assignment of a `shutdown` of another
    -- thread that tested the state earlier, `setState(kDisconnecting)` by itself, makes the state go
    -- back just if the connection has been closed by then, and is kDisconnected. A hang-up that comes
    -- with urgent data as its only input is left out.
    pub states_advance :
        {t u : Session ep ef}
        → entry ep ef l fd ≡ none
        → Steps ep ef newborn t
        → Steps ep ef t u
        → (rank t.conn.state ≤ rank u.conn.state)
          × ((rank (set_state ep ef disconnecting u).conn.state < rank u.conn.state)
              ↔ (u.conn.state ≡ disconnected))
    unfolding set_state
    states_advance {u = u} unwatched run further =
        let (q, v, le) = Steps-Next (newborn-Lawful unwatched) run in
        ((Steps-Next v further).2, goes_back u.conn.state)

    -- Over every run of calls on a connection from its construction on a descriptor that epoll does
    -- not watch, the state says what epoll watches: a connection that is kConnected is watched for
    -- input, and one that is kDisconnected is not watched and asks for nothing. Each call of
    -- `shutdown` is one step. A hang-up that comes with urgent data as its only input is left out.
    pub state_tells_registration :
        {t : Session ep ef}
        → entry ep ef l fd ≡ none
        → Steps ep ef newborn t
        → (t.conn.state ≡ connected → IsWatched ep ef t.loop t.conn.channel)
          × (t.conn.state ≡ disconnected
              → (entry ep ef t.loop t.conn.channel.fd ≡ none) × (t.conn.channel.events ≡ 0))
    state_tells_registration {t} unwatched run =
        let (q, v, le) = Steps-Next (newborn-Lawful unwatched) run in
        (
          λ e. subst (λ st. Standing ep ef st t.loop t.conn.channel) e v.standing,
          λ e. subst (λ st. Standing ep ef st t.loop t.conn.channel) e v.standing,
        )
