-- ===== src/TcpServer/Left.antt =====
-- TcpServer.cc: what queued functors leave alone, in all loops and connections.
use head_write_muduo_epoll_c.Base.{
  ℕ, ◌≡◌, ◌≢◌, refl, sym, ap, ◌∙◌, inl, inr, Bool-cases, [], ◌∷◌, ◌++◌, arith, ==_refl, ==_iff,
  ◌==◌, nat_key, text_key, if◌then◌else◌,
}
use head_write_muduo_epoll_c.Kernel.{Epoll, EventFd, Decimal}
use head_write_muduo_epoll_c.Functor.{Functor}
use head_write_muduo_epoll_c.EventLoop.{EventLoop, queue_in_loop, push_functor, notify, wakeup}
use head_write_muduo_epoll_c.TcpConnection.{Session}
use head_write_muduo_epoll_c.TcpServer.{Net, put_loop}

module _ (dec : Decimal) (ep : Epoll) (ef : EventFd) where
  pub queue_in_loop-poller :
      (tid : ℕ) (f : Functor) (l : EventLoop ep ef Functor)
      → ((queue_in_loop ep ef Functor tid f l).poller ≡ l.poller)
        × ((queue_in_loop ep ef Functor tid f l).thread_id ≡ l.thread_id)
        × ((queue_in_loop ep ef Functor tid f l).pending_functors ≡ l.pending_functors ++ f ∷ [])
  unfolding queue_in_loop push_functor notify wakeup
  queue_in_loop-poller tid f l = ground arith

  module _ (a io : ℕ) (net : Net dec ep ef) (t : Session ep ef) where
    -- The connection and the poller of its loop are those of `t`, and all else is as before but for
    -- functors that were queued.
    pub record Left (n : Net dec ep ef) : Type 0 where
      pub conn : n.conns a ≡ t.conn
      pub calls : n.calls a ≡ t.calls
      pub poller : (n.loops io).poller ≡ t.loop.poller
      pub thread : (j : ℕ) → (n.loops j).thread_id ≡ (net.loops j).thread_id
      pub other_loops : (j : ℕ) → j ≢ io → (n.loops j).poller ≡ (net.loops j).poller
      pub other_conns : (b : ℕ) → b ≢ a → n.conns b ≡ net.conns b

    pub on_conn-Left :
        t.loop.thread_id ≡ (net.loops io).thread_id
        → Left (record {
          loops = λ j. if j == io then t.loop else net.loops j;
          conns = λ j. if j == a then t.conn else net.conns j;
          calls = λ j. if j == a then t.calls else net.calls j;
        })
    on_conn-Left same = record {
      conn = rw (==_refl a) refl;
      calls = rw (==_refl a) refl;
      poller = rw (==_refl io) refl;
      thread = λ j. elim (Bool-cases (j == io)) [
        | inl here ↦ rw here (same ∙ ap (λ i. (net.loops i).thread_id) (sym ((==_iff j io).0 here)))
        | inr there ↦ rw there refl
      ];
      other_loops = λ j ne. ground (arith, ne, ==_iff j io);
      other_conns = λ b ne. ground (arith, ne, ==_iff b a);
    }

    queue-same :
        (l tid : ℕ) (f : Functor) (n : Net dec ep ef) (j : ℕ)
        → let n' = put_loop dec ep ef l (queue_in_loop ep ef Functor tid f (n.loops l)) n in
          ((n'.loops j).poller ≡ (n.loops j).poller)
          × ((n'.loops j).thread_id ≡ (n.loops j).thread_id)
    unfolding put_loop
    queue-same l tid f n j =
        let (poller, thread, _) = queue_in_loop-poller tid f (n.loops l) in
        elim (Bool-cases (j == l)) [
          | inl here ↦
              let same = (==_iff j l).0 here in
              rw here (
                poller ∙ ap (λ i. (n.loops i).poller) (sym same),
                thread ∙ ap (λ i. (n.loops i).thread_id) (sym same),
              )
          | inr there ↦ rw there (refl, refl)
        ]

    pub queue-Left :
        (l tid : ℕ) (f : Functor) {n : Net dec ep ef}
        → Left n
        → Left (put_loop dec ep ef l (queue_in_loop ep ef Functor tid f (n.loops l)) n)
    unfolding put_loop
    queue-Left l tid f {n} v = record {
      conn = v.conn;
      calls = v.calls;
      poller = (queue-same l tid f n io).0 ∙ v.poller;
      thread = λ j. (queue-same l tid f n j).1 ∙ v.thread j;
      other_loops = λ j ne. (queue-same l tid f n j).0 ∙ v.other_loops j ne;
      other_conns = v.other_conns;
    }
