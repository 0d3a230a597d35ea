-- ===== src/TcpConnection/Queued/Remote.antt =====
-- TcpConnection.cc, EventLoop.cc: `send` and `shutdown` of another thread, and the loop's calls of what
-- they queue.
use head_write_muduo_epoll_c.Base.{
  ℕ, suc, ◌+◌, ◌≤◌, ◌<◌, ◌≡◌, refl, sym, ◌∙◌, subst, true, false, List, [], ◌∷◌, ◌++◌, append-nil,
  append_assoc, length, length-append, arith, ==_refl, max_size, Outcome, ◌>>=◌, Returns,
  Returns-bind, Returns-both,
}
use head_write_muduo_epoll_c.Kernel.{Epoll, EventFd}
use head_write_muduo_epoll_c.Buffer.{Written}
use head_write_muduo_epoll_c.Buffer.Contents.{contents}
use head_write_muduo_epoll_c.Functor.{Functor, call_shutdown_in_loop}
use head_write_muduo_epoll_c.EventLoop.{is_in_loop_thread, begin_pending, swap_pending, end_pending}
use head_write_muduo_epoll_c.TcpConnection.{
  Session, connected, disconnecting, send_in_loop, shutdown, shutdown_in_loop,
}
use head_write_muduo_epoll_c.TcpConnection.Aside.{Aside, send_in_loop-Aside}
use head_write_muduo_epoll_c.TcpConnection.Flow.{Flowing}
use head_write_muduo_epoll_c.TcpConnection.Sending.{Accepts, send_in_loop-Flowing}
use head_write_muduo_epoll_c.TcpConnection.Writing.{shutdown_in_loop-Flowing}
use head_write_muduo_epoll_c.TcpConnection.Writing.Flush.{AllPositive, drain}
use head_write_muduo_epoll_c.TcpConnection.Writing.Closing.{Closing, shuts_or_writes, drain-Closing}
use head_write_muduo_epoll_c.TcpConnection.Queued.{call_functor, call_each, run_pending}
use head_write_muduo_epoll_c.TcpConnection.Queued.Posting.{
  bound, send_all, Awaiting, moved-Flowing, send_all-shutdown-Awaiting,
}

abbrev pub joined : List (List ℕ) → List ℕ
joined [] = []
joined (bytes ∷ messages) = bytes ++ joined messages

-- `written` answers the functors from the one with number `n` on, and reports no broken connection.
abbrev pub AllAccept : (ℕ → Written) → ℕ → List (List ℕ) → Type 0
AllAccept written n [] = Unit
AllAccept written n (bytes ∷ messages) =
    Accepts bytes (written n) × AllAccept written (suc n) messages

module _ (ep : Epoll) (ef : EventFd) where
  module _ (others : Functor → Session ep ef → Outcome (Session ep ef)) (tid : ℕ)
      (written : ℕ → Written) where
    call_each-Closing :
        {payload : List ℕ} (n : ℕ) (messages : List (List ℕ)) (s : Session ep ef)
        → Flowing ep ef payload s
        → s.conn.state ≡ disconnecting
        → AllAccept written n messages
        → 1032 + length payload + length (joined messages) < max_size
        → Returns (Closing ep ef (payload ++ joined messages)) (
            call_each ep ef others tid written n
              (bound s.conn.address messages ++ call_shutdown_in_loop s.conn.address ∷ [])
              s)
    unfolding call_each call_functor
    call_each-Closing {payload} n [] s v state accepts fits = rw (==_refl s.conn.address) (
        subst (λ p. Closing ep ef p (shutdown_in_loop ep ef s)) (sym (append-nil payload))
          (record {
            flows = shutdown_in_loop-Flowing ep ef v;
            state = (shuts_or_writes ep ef s).1 ∙ state;
            shut = (shuts_or_writes ep ef s).0;
          }))
    call_each-Closing {payload} n (bytes ∷ messages) s v state (accepts, more) fits =
        let functors = bound s.conn.address messages ++ call_shutdown_in_loop s.conn.address ∷ [] in
        rw (==_refl s.conn.address) (
          Returns-bind (λ t. Flowing ep ef (payload ++ bytes) t × Aside ep ef s t)
            (Closing ep ef (payload ++ (bytes ++ joined messages)))
            (send_in_loop ep ef tid (written n) bytes s)
            (call_each ep ef others tid written (suc n) functors)
            (Returns-both _ _ (send_in_loop ep ef tid (written n) bytes s)
              (send_in_loop-Flowing ep ef tid (written n) bytes v
                (omega (arith, length-append bytes (joined messages))) accepts)
              (send_in_loop-Aside ep ef tid (written n) bytes s))
            λ t q.
              subst
                (λ p.
                  Returns (Closing ep ef p) (call_each ep ef others tid written (suc n) functors t))
                (append_assoc payload bytes (joined messages))
                (subst
                  (λ a. Returns (Closing ep ef ((payload ++ bytes) ++ joined messages)) (
                    call_each ep ef others tid written (suc n)
                      (bound a messages ++ call_shutdown_in_loop a ∷ []) t))
                  q.1.address
                  (call_each-Closing (suc n) messages t q.0 (q.1.state ∙ state) more (
                    omega (
                      arith,
                      length-append payload bytes,
                      length-append bytes (joined messages),
                    )))))

    run_pending-Closing :
        {payload : List ℕ} (messages : List (List ℕ)) (s : Session ep ef)
        → Awaiting ep ef payload messages s
        → AllAccept written 0 messages
        → 1032 + length payload + length (joined messages) < max_size
        → Returns
            (Closing ep ef (payload ++ joined messages))
            (run_pending ep ef others tid written s)
    unfolding run_pending swap_pending begin_pending end_pending
    run_pending-Closing {payload} messages s w accepts fits =
        let started = record s {
          loop = record s.loop { calling_pending_functors = true; pending_functors = [] };
        } in
        Returns-bind (Closing ep ef (payload ++ joined messages))
          (Closing ep ef (payload ++ joined messages))
          (call_each ep ef others tid written 0 s.loop.pending_functors started) _
          (subst
            (λ fs.
              Returns (Closing ep ef (payload ++ joined messages))
                (call_each ep ef others tid written 0 fs started))
            (sym w.pending)
            (call_each-Closing 0 messages started (moved-Flowing ep ef refl refl w.flows) w.state
              accepts fits))
          λ t c. record {
            flows = moved-Flowing ep ef refl refl c.flows;
            state = c.state;
            shut = c.shut;
          }

    -- Another thread sends some messages on an open connection whose data is in order (`Flowing`) and
    -- whose loop has nothing pending, and then shuts it down. If the strings that it passes live until
    -- the loop is done with them, `write` reports no broken connection and takes at least one byte at
    -- every report of room to write, and the data stay below the largest vector, then the process does
    -- not end, and after the loop's next call of its pending functors and as many reports of room to
    -- write as there were bytes, the kernel has been handed what it had to be handed before and then
    -- the messages in the order of the calls, nothing waits, and the write side is shut.
    pub remote_messages_arrive :
        {payload : List ℕ} (away_tid : ℕ) (result : Written) (messages : List (List ℕ))
        (s : Session ep ef) (errno : ℕ) (counts : List ℕ)
        → Flowing ep ef payload s
        → s.conn.state ≡ connected
        → s.loop.pending_functors ≡ []
        → is_in_loop_thread ep ef Functor s.loop away_tid ≡ false
        → AllAccept written 0 messages
        → 1032 + length payload + length (joined messages) < max_size
        → AllPositive ep ef counts
        → length payload + length (joined messages) ≤ length counts
        → Returns
            (λ t.
              (t.conn.socket.wire ≡ payload ++ joined messages)
              × (contents t.conn.output ≡ [])
              × (t.conn.socket.write_shut ≡ true))
            (send_all ep ef away_tid result messages s
              >>= shutdown ep ef away_tid
              >>= run_pending ep ef others tid written
              >>= drain ep ef tid errno counts)
    remote_messages_arrive {payload} away_tid result messages s errno counts v open_ none_pending
          away accepts fits positive enough =
        Returns-bind (Closing ep ef (payload ++ joined messages)) _
          (send_all ep ef away_tid result messages s
            >>= shutdown ep ef away_tid
            >>= run_pending ep ef others tid written)
          (drain ep ef tid errno counts)
          (Returns-bind (Awaiting ep ef payload messages) _
            (send_all ep ef away_tid result messages s >>= shutdown ep ef away_tid)
            (run_pending ep ef others tid written)
            (send_all-shutdown-Awaiting ep ef away_tid result messages s v open_ none_pending away)
            λ t w. run_pending-Closing messages t w accepts fits)
          λ t c.
            drain-Closing ep ef tid errno counts t c positive
              (omega (arith, length-append payload (joined messages)))
