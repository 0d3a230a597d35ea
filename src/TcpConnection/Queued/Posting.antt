-- ===== src/TcpConnection/Queued/Posting.antt =====
-- TcpConnection.cc, EventLoop.cc: what `send` and `shutdown` of another thread leave.
use head_write_muduo_epoll_c.Base.{
  ℕ, ◌≡◌, refl, sym, ap, ◌∙◌, subst, true, false, List, [], ◌∷◌, ◌++◌, append-nil, append_assoc,
  arith, ◌==◌, Outcome, ◌>>=◌, Returns, Returns-bind, Returns-map,
}
use head_write_muduo_epoll_c.Kernel.{Epoll, EventFd}
use head_write_muduo_epoll_c.Buffer.{Written}
use head_write_muduo_epoll_c.Functor.{Functor, call_send_in_loop, call_shutdown_in_loop}
use head_write_muduo_epoll_c.EventLoop.{
  is_in_loop_thread, run_in_loop, queue_in_loop, push_functor, notify, wakeup, each,
}
use head_write_muduo_epoll_c.TcpConnection.{
  Session, connected, disconnecting, same_state, send, shutdown, set_state,
}
use head_write_muduo_epoll_c.TcpConnection.Flow.{Flowing}
use head_write_muduo_epoll_c.TcpConnection.Writing.{set_state-Flowing}

-- The functors that the messages become.
abbrev pub bound : ℕ → List (List ℕ) → List Functor
bound address [] = []
bound address (bytes ∷ messages) = call_send_in_loop address bytes ∷ bound address messages

module _ (ep : Epoll) (ef : EventFd) where
  -- One `send` for each message. The result of `write` is not used in another thread.
  pub send_all : ℕ → Written → List (List ℕ) → Session ep ef → Outcome (Session ep ef)
  send_all tid result messages s = each (send ep ef tid result) messages s

  -- The same connection, and more functors pending.
  record Posted (functors : List Functor) (s t : Session ep ef) : Type 0 where
    conn : t.conn ≡ s.conn
    thread : t.loop.thread_id ≡ s.loop.thread_id
    poller : t.loop.poller ≡ s.loop.poller
    pending : t.loop.pending_functors ≡ s.loop.pending_functors ++ functors

  queue_in_loop-Posted :
      (tid : ℕ) (f : Functor) (s : Session ep ef)
      → Posted (f ∷ []) s (record s { loop = queue_in_loop ep ef Functor tid f s.loop })
  unfolding queue_in_loop push_functor notify wakeup
  queue_in_loop-Posted tid f s = ground arith

  send-Posted :
      (tid : ℕ) (result : Written) (bytes : List ℕ) (s : Session ep ef)
      → same_state s.conn.state connected ≡ true
      → is_in_loop_thread ep ef Functor s.loop tid ≡ false
      → Returns
          (Posted (call_send_in_loop s.conn.address bytes ∷ []) s)
          (send ep ef tid result bytes s)
  unfolding send run_in_loop
  send-Posted tid result bytes s open_ away =
      rw (open_, away) (queue_in_loop-Posted tid (call_send_in_loop s.conn.address bytes) s)

  send_all-Posted :
      (tid : ℕ) (result : Written) (messages : List (List ℕ)) (s : Session ep ef)
      → same_state s.conn.state connected ≡ true
      → is_in_loop_thread ep ef Functor s.loop tid ≡ false
      → Returns (Posted (bound s.conn.address messages) s) (send_all tid result messages s)
  unfolding send_all each is_in_loop_thread
  send_all-Posted tid result [] s open_ away = record {
    conn = refl;
    thread = refl;
    poller = refl;
    pending = sym (append-nil s.loop.pending_functors);
  }
  send_all-Posted tid result (bytes ∷ messages) s open_ away =
      Returns-bind _ (Posted (bound s.conn.address (bytes ∷ messages)) s)
        (send ep ef tid result bytes s) (send_all tid result messages)
        (send-Posted tid result bytes s open_ away)
        λ t p.
          Returns-map (Posted (bound t.conn.address messages) t)
            (Posted (bound s.conn.address (bytes ∷ messages)) s) (send_all tid result messages t)
            (λ u q. record {
              conn = q.conn ∙ p.conn;
              thread = q.thread ∙ p.thread;
              poller = q.poller ∙ p.poller;
              pending =
                  q.pending
                  ∙ ap (λ c. t.loop.pending_functors ++ bound c.address messages) p.conn
                  ∙ ap (λ fs. fs ++ bound s.conn.address messages) p.pending
                  ∙ append_assoc s.loop.pending_functors
                      (call_send_in_loop s.conn.address bytes ∷ []) (bound s.conn.address messages);
            })
            (send_all-Posted tid result messages t
              (ap (λ c. same_state c.state connected) p.conn ∙ open_)
              (ap (λ thread. thread == tid) p.thread ∙ away))

  shutdown-Posted :
      (tid : ℕ) (s : Session ep ef)
      → same_state s.conn.state connected ≡ true
      → is_in_loop_thread ep ef Functor s.loop tid ≡ false
      → Returns
          (Posted (call_shutdown_in_loop s.conn.address ∷ []) (set_state ep ef disconnecting s))
          (shutdown ep ef tid s)
  unfolding shutdown run_in_loop set_state
  shutdown-Posted tid s open_ away =
      rw (open_, away)
        (queue_in_loop-Posted tid (call_shutdown_in_loop s.conn.address)
          (set_state ep ef disconnecting s))

  pub moved-Flowing :
      {payload : List ℕ} {s t : Session ep ef}
      → t.conn ≡ s.conn
      → t.loop.poller ≡ s.loop.poller
      → Flowing ep ef payload s
      → Flowing ep ef payload t
  moved-Flowing {payload} {s} {t} conn poller v =
      subst (λ c. Flowing ep ef payload (record t { conn = c })) (sym conn)
        (record {
          stream = v.stream;
          valid = v.valid;
          bounded = v.bounded;
          open_state = v.open_state;
          watched = record {
            index_added = v.watched.index_added;
            interest = v.watched.interest;
            reading = v.watched.reading;
            registered =
                ap (λ q. ep.interest q.epoll s.conn.channel.fd) poller ∙ v.watched.registered;
          };
          flushed = v.flushed;
          busy = v.busy;
        })

  -- The functors of the messages and of the shutdown are all that is pending.
  pub record Awaiting (payload : List ℕ) (messages : List (List ℕ)) (t : Session ep ef)
      : Type 0 where
    pub flows : Flowing ep ef payload t
    pub state : t.conn.state ≡ disconnecting
    pub pending :
        t.loop.pending_functors
        ≡ bound t.conn.address messages ++ call_shutdown_in_loop t.conn.address ∷ []

  pub send_all-shutdown-Awaiting :
      {payload : List ℕ} (tid : ℕ) (result : Written) (messages : List (List ℕ)) (s : Session ep ef)
      → Flowing ep ef payload s
      → s.conn.state ≡ connected
      → s.loop.pending_functors ≡ []
      → is_in_loop_thread ep ef Functor s.loop tid ≡ false
      → Returns (Awaiting payload messages) (send_all tid result messages s >>= shutdown ep ef tid)
  unfolding set_state is_in_loop_thread
  send_all-shutdown-Awaiting {payload} tid result messages s v open_ none_pending away =
      let is_open = ap (λ st. same_state st connected) open_ in
      Returns-bind (Posted (bound s.conn.address messages) s) (Awaiting payload messages)
        (send_all tid result messages s) (shutdown ep ef tid)
        (send_all-Posted tid result messages s is_open away)
        λ t p.
          Returns-map _ (Awaiting payload messages) (shutdown ep ef tid t)
            (λ u q. record {
              flows =
                  moved-Flowing {s = set_state ep ef disconnecting t} q.conn q.poller
                    (set_state-Flowing ep ef disconnecting refl (moved-Flowing p.conn p.poller v));
              state = ap (λ c. c.state) q.conn;
              pending =
                  q.pending
                  ∙ ap (λ fs. fs ++ call_shutdown_in_loop t.conn.address ∷ [])
                      (p.pending
                        ∙ ap (λ fs. fs ++ bound s.conn.address messages) none_pending
                        ∙ ap (λ c. bound c.address messages) (sym p.conn))
                  ∙ ap (λ c. bound c.address messages ++ call_shutdown_in_loop c.address ∷ [])
                      (sym q.conn);
            })
            (shutdown-Posted tid t (ap (λ c. same_state c.state connected) p.conn ∙ is_open)
              (ap (λ thread. thread == tid) p.thread ∙ away))
