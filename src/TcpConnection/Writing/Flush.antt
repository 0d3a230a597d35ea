-- ===== src/TcpConnection/Writing/Flush.antt =====
-- TcpConnection.cc: repeated reports of room to write, until the output buffer is empty.
use head_write_muduo_epoll_c.Base.{
  ℕ, ◌≤◌, ◌<◌, ◌≡◌, ◌≢◌, ◌⊎◌, refl, sym, ap, ◌∙◌, true, false, ◌||◌, inl, inr, Bool-cases, ==_iff,
  List, [], ◌∷◌, ◌++◌, append-nil, length, length-drop, drop, nil_of_length, arith, lt→ltb, ◌==◌,
  Outcome, ok, ◌>>=◌, Returns, Returns-bind, Returns-map,
}
use head_write_muduo_epoll_c.Kernel.{Epoll, EventFd}
use head_write_muduo_epoll_c.Buffer.{readable_bytes, wrote, write_fd}
use head_write_muduo_epoll_c.Buffer.Contents.{contents, contents-retrive, length-contents}
use head_write_muduo_epoll_c.Channel.{is_writing}
use head_write_muduo_epoll_c.Functor.{Functor}
use head_write_muduo_epoll_c.Socket.{shutdown_write, put_on_wire}
use head_write_muduo_epoll_c.EventLoop.{disable_writing}
use head_write_muduo_epoll_c.TcpConnection.{
  disconnecting, same_state, Session, queue, with_channel, tell_written, all_written, after_write,
  wrote_some, handle_write, shutdown_in_loop,
}
use head_write_muduo_epoll_c.TcpConnection.Flow.{Flowing, IsWatched, disable_writing-IsWatched}
use head_write_muduo_epoll_c.TcpConnection.Writing.{
  sent, sent-IsValid, sent-Flowing, quiet-Flowing, all_written-Flowing,
}

module _ (ep : Epoll) (ef : EventFd) where
  all_written-conn :
      (tid : ℕ) (s : Session ep ef)
      → is_writing s.conn.channel ≡ false
      → ((all_written ep ef tid s).conn.output ≡ s.conn.output)
        × ((all_written ep ef tid s).conn.state ≡ s.conn.state)
        × ((all_written ep ef tid s).conn.channel ≡ s.conn.channel)
        × ((all_written ep ef tid s).conn.socket.write_shut
            ≡ (same_state s.conn.state disconnecting || s.conn.socket.write_shut))
  unfolding all_written tell_written queue shutdown_in_loop shutdown_write
  all_written-conn tid s quiet = ground (arith, quiet)

  -- What one report of room to write leaves, when `write` took `n` bytes.
  record Wrote (payload : List ℕ) (n : ℕ) (s t : Session ep ef) : Type 0 where
    flows : Flowing ep ef payload t
    left : contents t.conn.output ≡ drop n (contents s.conn.output)
    state : t.conn.state ≡ s.conn.state
    outcome :
        ((contents t.conn.output ≢ []) × (t.conn.socket.write_shut ≡ s.conn.socket.write_shut))
        ⊎ ((is_writing t.conn.channel ≡ false)
            × (t.conn.socket.write_shut
                ≡ (same_state s.conn.state disconnecting || s.conn.socket.write_shut)))

  module _ {payload : List ℕ} {s : Session ep ef} (n tid : ℕ) (v : Flowing ep ef payload s)
      (writes : is_writing s.conn.channel ≡ true) where
    after_write-Wrote : Returns (Wrote payload n s) (after_write ep ef tid n s)
    unfolding after_write with_channel put_on_wire
    after_write-Wrote =
        let now = sent ep ef n v writes in
        elim (Bool-cases (readable_bytes now.conn.output == 0)) [
          | inl none_left ↦ rw none_left (
              Returns-bind (λ r. IsWatched ep ef r.0 r.1 × (is_writing r.1 ≡ false))
                (Wrote payload n s) (disable_writing ep ef Functor now.loop now.conn.channel) _
                (disable_writing-IsWatched ep ef now.loop now.conn.channel v.watched)
                λ r w.
                  let quiet = with_channel ep ef now (r.0, r.1) in
                  let facts = all_written-conn tid quiet w.1 in
                  record {
                    flows =
                        all_written-Flowing ep ef tid (
                          quiet-Flowing ep ef n v writes r.0 r.1 ((==_iff _ 0).0 none_left) w.0
                            w.1);
                    left = ap contents facts.0 ∙ contents-retrive n v.valid;
                    state = facts.1;
                    outcome = inr (ap is_writing facts.2 ∙ w.1, facts.3);
                  })
          | inr some_left ↦ rw some_left (record {
            flows = sent-Flowing ep ef n v writes (ground (arith, some_left));
            left = contents-retrive n v.valid;
            state = refl;
            outcome = inl (
              λ e. absurd (
                  ground (
                    arith,
                    some_left,
                    ap length e,
                    length-contents (sent-IsValid ep ef n v writes),
                  )),
              refl,
            );
          })
        ]

  -- Data waits only while the channel asks for room to write.
  waiting-is_writing :
      {payload : List ℕ} {s : Session ep ef}
      → Flowing ep ef payload s
      → contents s.conn.output ≢ []
      → is_writing s.conn.channel ≡ true
  waiting-is_writing {payload} {s} v waits = elim (Bool-cases (is_writing s.conn.channel)) [
    | inl writes ↦ writes
    | inr idle ↦ absurd (waits (v.flushed idle))
  ]

  handle_write-Wrote :
      {payload : List ℕ} {s : Session ep ef} (n tid errno : ℕ)
      → Flowing ep ef payload s
      → contents s.conn.output ≢ []
      → 0 < n
      → Returns (Wrote payload n s) (handle_write ep ef tid errno (wrote n) s)
  unfolding handle_write wrote_some write_fd
  handle_write-Wrote n tid errno v waits positive =
      let writes = waiting-is_writing v waits in
      rw (writes, lt→ltb 0 n positive) (after_write-Wrote n tid v writes)

  -- As many reports of room to write as there are counts; each count is what `write` then takes.
  pub drain : ℕ → ℕ → List ℕ → Session ep ef → Outcome (Session ep ef)
  drain tid errno [] s = ok s
  drain tid errno (n ∷ counts) s =
      handle_write ep ef tid errno (wrote n) s >>= drain tid errno counts

  -- Without a wish to write the reports change nothing.
  pub drain-quiet :
      (tid errno : ℕ) (counts : List ℕ) (s : Session ep ef)
      → is_writing s.conn.channel ≡ false
      → drain tid errno counts s ≡ ok s
  unfolding drain handle_write
  drain-quiet tid errno [] s quiet = refl
  drain-quiet tid errno (n ∷ counts) s quiet = rw quiet (drain-quiet tid errno counts s quiet)

  abbrev pub AllPositive : List ℕ → Type 0
  AllPositive [] = Unit
  AllPositive (n ∷ counts) = (0 < n) × AllPositive counts

  abbrev pub Flushed : List ℕ → Session ep ef → Session ep ef → Type 0
  Flushed payload s t =
      (t.conn.socket.wire ≡ payload)
      × (contents t.conn.output ≡ [])
      × (is_writing t.conn.channel ≡ false)
      × (t.conn.socket.write_shut
          ≡ (same_state s.conn.state disconnecting || s.conn.socket.write_shut))

  settled :
      {payload : List ℕ} {n : ℕ} {s t : Session ep ef}
      → Wrote payload n s t
      → is_writing t.conn.channel ≡ false
      → t.conn.socket.write_shut
        ≡ (same_state s.conn.state disconnecting || s.conn.socket.write_shut)
      → Flushed payload s t
  settled {payload} {n} {s} {t} w quiet shut =
      let none_left = w.flows.flushed quiet in
      (
        sym (append-nil t.conn.socket.wire)
            ∙ ap (◌++◌ t.conn.socket.wire) (sym none_left)
            ∙ w.flows.stream,
        none_left,
        quiet,
        shut,
      )

  -- For a connection whose data is in order (`Flowing`) and of which some waits: if `write` takes at
  -- least one byte at every report of room to write, then the process does not end, and after as many
  -- reports as bytes waited every byte has been handed to the kernel, in order; the buffer is empty;
  -- the channel has stopped asking for room; and the write side is shut if a shutdown had waited, and
  -- otherwise as it was.
  pub flush_finishes :
      {payload : List ℕ} (tid errno : ℕ) (counts : List ℕ) (s : Session ep ef)
      → Flowing ep ef payload s
      → contents s.conn.output ≢ []
      → AllPositive counts
      → length (contents s.conn.output) ≤ length counts
      → Returns (Flushed payload s) (drain tid errno counts s)
  unfolding drain
  flush_finishes tid errno [] s v waits positive enough =
      absurd (waits (nil_of_length (contents s.conn.output) (omega arith)))
  flush_finishes {payload} tid errno (n ∷ counts) s v waits (some_taken, positive) enough =
      Returns-bind (Wrote payload n s) (Flushed payload s)
        (handle_write ep ef tid errno (wrote n) s) (drain tid errno counts)
        (handle_write-Wrote n tid errno v waits some_taken)
        λ t w. elim w.outcome [
          | inl still ↦
              let rest =
                flush_finishes tid errno counts t w.flows still.0 positive
                  (omega (arith, ap length w.left, length-drop n (contents s.conn.output))) in
              Returns-map (Flushed payload t) (Flushed payload s) _
                (λ u f. (
                  f.0,
                  f.1,
                  f.2,
                  f.3
                      ∙ ap (λ st. same_state st disconnecting || t.conn.socket.write_shut) w.state
                      ∙ ap (λ shut. same_state s.conn.state disconnecting || shut) still.1,
                ))
                rest
          | inr (quiet, shut) ↦ rw (drain-quiet tid errno counts t quiet) (settled w quiet shut)
        ]
