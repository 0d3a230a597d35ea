-- ===== src/TcpConnection/Writing/Closing.antt =====
-- TcpConnection.cc: a shutdown in the thread of the loop, and the reports of room to write after it.
use head_write_muduo_epoll_c.Base.{
  ℕ, ◌≤◌, ◌≡◌, ◌⊎◌, ◌||◌, length-append, refl, sym, ap, ◌∙◌, true, inl, inr, Bool-cases, List, [],
  ◌++◌, append-nil, length, arith, Returns, Returns-map,
}
use head_write_muduo_epoll_c.Kernel.{Epoll, EventFd}
use head_write_muduo_epoll_c.Buffer.Contents.{contents}
use head_write_muduo_epoll_c.Channel.{is_writing}
use head_write_muduo_epoll_c.Functor.{Functor}
use head_write_muduo_epoll_c.EventLoop.{is_in_loop_thread, run_in_loop}
use head_write_muduo_epoll_c.Socket.{shutdown_write}
use head_write_muduo_epoll_c.TcpConnection.{
  Session, connected, disconnecting, same_state, shutdown, shutdown_in_loop, set_state,
}
use head_write_muduo_epoll_c.TcpConnection.Flow.{Flowing}
use head_write_muduo_epoll_c.TcpConnection.Writing.{shutdown_in_loop-Flowing, set_state-Flowing}
use head_write_muduo_epoll_c.TcpConnection.Writing.Flush.{
  AllPositive, Flushed, drain, drain-quiet, flush_finishes,
}

module _ (ep : Epoll) (ef : EventFd) where
  -- What a shutdown in the loop's own thread leaves.
  pub record Closing (payload : List ℕ) (t : Session ep ef) : Type 0 where
    pub flows : Flowing ep ef payload t
    pub state : t.conn.state ≡ disconnecting
    pub shut : (is_writing t.conn.channel ≡ true) ⊎ (t.conn.socket.write_shut ≡ true)

  pub shuts_or_writes :
      (s : Session ep ef)
      → let t = shutdown_in_loop ep ef s in
        ((is_writing t.conn.channel ≡ true) ⊎ (t.conn.socket.write_shut ≡ true))
        × (t.conn.state ≡ s.conn.state)
  unfolding shutdown_in_loop shutdown_write
  shuts_or_writes s = elim (Bool-cases (is_writing s.conn.channel)) [
    | inl writes ↦ rw writes (inl writes, refl)
    | inr idle ↦ rw idle (inr refl, refl)
  ]

  pub shutdown-Closing :
      {payload : List ℕ} (tid : ℕ) (s : Session ep ef)
      → Flowing ep ef payload s
      → s.conn.state ≡ connected
      → is_in_loop_thread ep ef Functor s.loop tid ≡ true
      → Returns (Closing payload) (shutdown ep ef tid s)
  unfolding shutdown run_in_loop set_state
  shutdown-Closing {payload} tid s v open_ here =
      let t = set_state ep ef disconnecting s in
      let (shut, state) = shuts_or_writes t in
      rw (ap (λ st. same_state st connected) open_, here)
        (record {
          flows = shutdown_in_loop-Flowing ep ef (set_state-Flowing ep ef disconnecting refl v);
          state = state;
          shut = shut;
        })

  pub drain-Closing :
      {payload : List ℕ} (tid errno : ℕ) (counts : List ℕ) (t : Session ep ef)
      → Closing payload t
      → AllPositive ep ef counts
      → length payload ≤ length counts
      → Returns
          (λ u.
            (u.conn.socket.wire ≡ payload)
            × (contents u.conn.output ≡ [])
            × (u.conn.socket.write_shut ≡ true))
          (drain ep ef tid errno counts t)
  drain-Closing {payload} tid errno counts t c positive enough =
      elim (Bool-cases (is_writing t.conn.channel)) [
        | inl writes ↦
            Returns-map (Flushed ep ef payload t) _ (drain ep ef tid errno counts t)
              (λ u f. (
                f.0,
                f.1,
                f.3 ∙ ap (λ st. same_state st disconnecting || t.conn.socket.write_shut) c.state,
              ))
              (flush_finishes ep ef tid errno counts t c.flows (c.flows.busy writes) positive (
                omega (
                  arith,
                  enough,
                  ap length c.flows.stream,
                  length-append t.conn.socket.wire (contents t.conn.output),
                )))
        | inr idle ↦
            let none_left = c.flows.flushed idle in
            rw (drain-quiet ep ef tid errno counts t idle) (
              sym (append-nil t.conn.socket.wire)
                  ∙ ap (◌++◌ t.conn.socket.wire) (sym none_left)
                  ∙ c.flows.stream,
              none_left,
              elim c.shut [ inl writes ↦ cc | inr shut ↦ shut ],
            )
      ]
