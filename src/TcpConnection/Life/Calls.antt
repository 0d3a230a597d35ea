-- ===== src/TcpConnection/Life/Calls.antt =====
-- TcpConnection.cc: `send` and `shutdown`, from any thread, keep the invariant.
use head_write_muduo_epoll_c.Base.{
  ℕ, ◌≡◌, ◌≢◌, refl, sym, ap, ◌∙◌, subst, true, false, List, arith, ok, Outcome, IfOk, if_either,
  if_cases,
}
use head_write_muduo_epoll_c.Kernel.{Epoll, EventFd}
use head_write_muduo_epoll_c.Buffer.{Written}
use head_write_muduo_epoll_c.Functor.{Functor, call_send_in_loop, call_shutdown_in_loop}
use head_write_muduo_epoll_c.EventLoop.{EventLoop, run_in_loop, is_in_loop_thread, queue_in_loop}
use head_write_muduo_epoll_c.TcpConnection.{
  State, disconnected, connecting, connected, disconnecting, same_state, Session, send,
  send_in_loop, shutdown, shutdown_in_loop, set_state, queue,
}
use head_write_muduo_epoll_c.Poller.Sync.{UnwatchedAs}
use head_write_muduo_epoll_c.TcpConnection.Life.{
  Phase, unreported, up, down, given_back, phase_after, agrees, rank,
}
use head_write_muduo_epoll_c.TcpConnection.Life.Standing.{Standing, IsUp}
use head_write_muduo_epoll_c.TcpConnection.Life.Steady.{
  Steady, queue-Steady, send_in_loop-Steady, shutdown_in_loop-Steady,
}
use head_write_muduo_epoll_c.TcpConnection.Life.Lawful.{Lawful, Next, Lawful-Steady}

module _ (ep : Epoll) (ef : EventFd) where
  run_in_loop-IfOk :
      {S : Type 0} (P : S → Type 0) (call : Outcome S) (put : EventLoop ep ef Functor → S) (tid : ℕ)
      (f : Functor) (l : EventLoop ep ef Functor)
      → IfOk P call
      → P (put (queue_in_loop ep ef Functor tid f l))
      → IfOk P (run_in_loop ep ef Functor call put tid f l)
  unfolding run_in_loop
  run_in_loop-IfOk P call put tid f l now later =
      if_either (IfOk P) (is_in_loop_thread ep ef Functor l tid) now later

  pub open_state-IsUp :
      (state : State)
      → state ≢ connecting
      → same_state state disconnected ≡ false
      → IsUp ep ef state
  open_state-IsUp disconnected begun h = absurd (cc)
  open_state-IsUp connecting begun h = absurd (begun refl)
  open_state-IsUp connected begun h = tt
  open_state-IsUp disconnecting begun h = tt

  connected-begun : (state : State) → same_state state connected ≡ true → state ≡ connected
  connected-begun disconnected h = absurd (cc)
  connected-begun connecting h = absurd (cc)
  connected-begun connected h = refl
  connected-begun disconnecting h = absurd (cc)

  still_agrees : (p : Phase) → agrees connected p ≡ true → agrees disconnecting p ≡ true
  still_agrees up h = refl
  still_agrees unreported h = absurd (cc)
  still_agrees down h = absurd (cc)
  still_agrees given_back h = absurd (cc)

  connected-IsUp : (state : State) → same_state state connected ≡ true → IsUp ep ef state
  connected-IsUp state h = subst (IsUp ep ef) (sym (connected-begun state h)) tt

  pub send-Steady :
      {p : Phase} {s : Session ep ef} (tid : ℕ) (result : Written) (bytes : List ℕ)
      → Lawful ep ef p s
      → IfOk (Steady ep ef s.conn.state s.calls) (send ep ef tid result bytes s)
  unfolding send queue
  send-Steady {p} {s} tid result bytes v =
      let still = Lawful-Steady ep ef v in
      if_cases (IfOk (Steady ep ef s.conn.state s.calls)) (same_state s.conn.state connected)
        (λ open_.
          let sends =
            send_in_loop-Steady ep ef s.conn.state s.calls tid result bytes
              (λ e. connected-IsUp s.conn.state open_) still in
          if_cases (IfOk (Steady ep ef s.conn.state s.calls))
            (is_in_loop_thread ep ef Functor s.loop tid) (λ here_. sends)
            (λ away.
              run_in_loop-IfOk (Steady ep ef s.conn.state s.calls)
                (send_in_loop ep ef tid result bytes s) (λ l. record s { loop = l }) tid
                (call_send_in_loop s.conn.address bytes) s.loop sends
                (queue-Steady ep ef s.conn.state s.calls tid
                  (call_send_in_loop s.conn.address bytes) still)))
        (λ not_open. still)

  -- `shutdown` of a connection that is up, before the rest of it.
  disconnecting-Steady :
      {p : Phase} {s : Session ep ef}
      → Lawful ep ef p s
      → s.conn.state ≡ connected
      → Steady ep ef disconnecting s.calls (set_state ep ef disconnecting s)
  unfolding set_state
  disconnecting-Steady {p} {s} v open_ =
      let w = subst (λ st. Standing ep ef st s.loop s.conn.channel) open_ v.standing in
      record {
        told = refl;
        in_state = refl;
        standing =
            subst (λ i. UnwatchedAs ep i s.loop.poller.epoll s.conn.channel) (sym w.index_added) tt;
      }

  closing-Next :
      {p : Phase} {s t : Session ep ef}
      → Lawful ep ef p s
      → s.conn.state ≡ connected
      → Steady ep ef disconnecting s.calls t
      → Next ep ef s t
  closing-Next {p} {s} {t} v open_ h = (
    p,
    record {
      protocol = ap (phase_after unreported) h.told ∙ v.protocol;
      agreement =
          ap (λ st. agrees st p) h.in_state
          ∙ still_agrees p (ap (λ st. agrees st p) (sym open_) ∙ v.agreement);
      standing = subst (λ st. Standing ep ef st t.loop t.conn.channel) (sym h.in_state) h.standing;
    },
    omega (arith, ap rank open_, ap rank h.in_state),
  )

  pub shutdown-Next :
      {p : Phase} {s : Session ep ef} (tid : ℕ)
      → Lawful ep ef p s
      → IfOk (Next ep ef s) (shutdown ep ef tid s)
  unfolding shutdown queue
  shutdown-Next {p} {s} tid v =
      if_cases (IfOk (Next ep ef s)) (same_state s.conn.state connected)
        (λ was_up.
          let open_ = connected-begun s.conn.state was_up in
          let h = disconnecting-Steady v open_ in
          let s' = set_state ep ef disconnecting s in
          run_in_loop-IfOk (Next ep ef s) (ok (shutdown_in_loop ep ef s'))
            (λ l. record s' { loop = l }) tid (call_shutdown_in_loop s.conn.address) s'.loop
            (closing-Next v open_ (shutdown_in_loop-Steady ep ef disconnecting s.calls h))
            (closing-Next v open_ (
              queue-Steady ep ef disconnecting s.calls tid (call_shutdown_in_loop s.conn.address)
                h)))
        (λ was_not. (p, v, omega arith))
