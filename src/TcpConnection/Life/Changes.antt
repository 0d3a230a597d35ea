-- ===== src/TcpConnection/Life/Changes.antt =====
-- TcpConnection.cc: `connectEstablished`, `handleClose` and `handleRead` keep the invariant.
use head_write_muduo_epoll_c.Base.{
  ℕ, ◌≤◌, ◌≡◌, ◌≢◌, refl, sym, ◌∙◌, ap, subst, Option, none, some, [], ◌∷◌, arith, ◌==◌, IfOk,
  IfOk-bind, IfOk-OkUnless, if_either,
}
use head_write_muduo_epoll_c.Kernel.{Epoll, EventFd}
use head_write_muduo_epoll_c.Buffer.{Readv, read_fd}
use head_write_muduo_epoll_c.Channel.{tie}
use head_write_muduo_epoll_c.Functor.{Functor}
use head_write_muduo_epoll_c.EventLoop.{enable_reading}
use head_write_muduo_epoll_c.TcpConnection.{
  connecting, connected, connection_callback, message_callback, Session, note_call, set_state,
  with_channel, connect_established, handle_close, handle_read, after_read,
}
use head_write_muduo_epoll_c.TcpConnection.Closing.{handle_close-Closed}
use head_write_muduo_epoll_c.TcpConnection.Flow.{enable_reading-IsWatched}
use head_write_muduo_epoll_c.TcpConnection.Life.{
  Phase, unreported, up, given_back, phase_after, agrees, rank, entry,
}
use head_write_muduo_epoll_c.TcpConnection.Life.Standing.{Standing, watched-IsUp, Standing-added}
use head_write_muduo_epoll_c.TcpConnection.Life.Lawful.{
  phase_after-append, Lawful, Next, phase_of_up, phase_of_connecting, rank_most, told-Next,
}

module _ (ep : Epoll) (ef : EventFd) where
  pub handle_close-Next :
      {p : Phase} {s : Session ep ef}
      → Lawful ep ef p s
      → entry ep ef s.loop s.conn.channel.fd ≢ none
      → IfOk (Next ep ef s) (handle_close ep ef s)
  handle_close-Next {p} {s} v watched =
      let index = Standing-added ep ef s.conn.state s.loop s.conn.channel v.standing watched in
      let (t, closes, c) = handle_close-Closed ep ef s index in
      let was_up =
        phase_of_up ep ef s.conn.state p
          (watched-IsUp ep ef s.conn.state s.loop s.conn.channel v.standing watched) v.agreement in
      subst (IfOk (Next ep ef s)) (sym closes) (
        given_back,
        record {
          protocol =
              ap (phase_after unreported) c.calls
              ∙ phase_after-append unreported s.calls _ (v.protocol ∙ ap some was_up);
          agreement = ap (λ st. agrees st given_back) c.state;
          standing =
              subst (λ st. Standing ep ef st t.loop t.conn.channel) (sym c.state)
                (ap (entry ep ef t.loop) c.fd ∙ c.unwatched, c.events);
        },
        subst (λ st. rank s.conn.state ≤ rank st) (sym c.state) (rank_most ep ef s.conn.state),
      )

  after_read-Next :
      {p : Phase} (o : Option ℕ) {s : Session ep ef}
      → Lawful ep ef p s
      → entry ep ef s.loop s.conn.channel.fd ≢ none
      → IfOk (Next ep ef s) (after_read ep ef o s)
  unfolding after_read
  after_read-Next {p} none v watched = (p, v, omega arith)
  after_read-Next {p} (some n) {s} v watched =
      if_either (IfOk (Next ep ef s)) (n == 0) (handle_close-Next v watched) (
        told-Next ep ef message_callback v (
          let was_up =
            phase_of_up ep ef s.conn.state p
              (watched-IsUp ep ef s.conn.state s.loop s.conn.channel v.standing watched)
              v.agreement in
          rw was_up refl))

  pub handle_read-Next :
      {p : Phase} (readv : ℕ → ℕ → Readv) {s : Session ep ef}
      → Lawful ep ef p s
      → entry ep ef s.loop s.conn.channel.fd ≢ none
      → IfOk (Next ep ef s) (handle_read ep ef readv s)
  unfolding handle_read
  handle_read-Next readv {s} v watched =
      after_read-Next (read_fd readv s.conn.input).0
        (record { protocol = v.protocol; agreement = v.agreement; standing = v.standing }) watched

  pub connect_established-Next :
      {p : Phase} {s : Session ep ef}
      → Lawful ep ef p s
      → s.conn.state ≡ connecting
      → IfOk (Next ep ef s) (connect_established ep ef s)
  unfolding connect_established with_channel note_call set_state tie
  connect_established-Next {p} {s} v fresh =
      let (index, quiet, unwatched) =
        subst (λ st. Standing ep ef st s.loop s.conn.channel) fresh v.standing in
      IfOk-bind _ (Next ep ef s) (enable_reading ep ef Functor s.loop (tie s.conn.channel)) _
        (IfOk-OkUnless _ _ (enable_reading ep ef Functor s.loop (tie s.conn.channel))
          (enable_reading-IsWatched ep ef s.loop (tie s.conn.channel) index (omega (arith, quiet))))
        λ r w. (
          up,
          record {
            protocol = phase_after-append unreported s.calls (connection_callback connected ∷ []) (
                v.protocol
                ∙ ap some (
                    phase_of_connecting ep ef p
                      (ap (λ st. agrees st p) (sym fresh) ∙ v.agreement)));
            agreement = refl;
            standing = w.0;
          },
          subst (λ st. rank st ≤ 1) (sym fresh) (omega arith),
        )
