-- ===== src/TcpConnection/Sending.antt =====
-- TcpConnection.cc: `sendInLoop` and the invariant of Flow.antt.
use head_write_muduo_epoll_c.Base.{
  ℕ, ◌+◌, ◌≤◌, ◌<◌, ◌≡◌, ◌≢◌, refl, sym, ap, ◌∙◌, subst, false, not, ◌&&◌, inl, inr, Bool-cases,
  List, [], ◌++◌, append-nil, append_assoc, length, length-append, length-take, length-drop, take,
  drop, take-all, take-take-drop, nil_of_length, arith, max_size, ltb, ◌==◌, Returns, if_either,
}
use head_write_muduo_epoll_c.Kernel.{Epoll, EventFd}
use head_write_muduo_epoll_c.Buffer.{readable_bytes, Written, wrote, write_failed}
use head_write_muduo_epoll_c.Buffer.Contents.{contents, length-contents}
use head_write_muduo_epoll_c.Channel.{is_writing}
use head_write_muduo_epoll_c.Socket.{put_on_wire}
use head_write_muduo_epoll_c.TcpConnection.{
  Session, Attempt, write_now, attempt, finish_send, send_in_loop, epipe, econnreset, keep_rest,
}
use head_write_muduo_epoll_c.TcpConnection.Flow.{Flowing, queue-Flowing, keep_rest-Flowing}

-- What write(2) documents of a call with these bytes that does not report a broken connection: it
-- takes at most all of them, or fails with an errno that is neither EPIPE nor ECONNRESET.
abbrev pub Accepts : List ℕ → Written → Type 0
Accepts bytes (wrote n) = n ≤ length bytes
Accepts bytes (write_failed errno) = (errno ≢ epipe) × (errno ≢ econnreset)

module _ (ep : Epoll) (ef : EventFd) where
  record Attempted (payload bytes : List ℕ) (a : Attempt ep ef) : Type 0 where
    no_fault : a.fault_error ≡ false
    parts : a.nwrote + a.remaining ≡ length bytes
    flows : Flowing ep ef (payload ++ take a.nwrote bytes) a.session

  empty_output :
      {payload : List ℕ} {s : Session ep ef}
      → Flowing ep ef payload s
      → readable_bytes s.conn.output ≡ 0
      → contents s.conn.output ≡ []
  empty_output {payload} {s} v e =
      nil_of_length (contents s.conn.output) (omega (arith, length-contents v.valid))

  -- `write` took a front part of data that nothing waited before.
  wire-Flowing :
      {payload : List ℕ} {s : Session ep ef} (front : List ℕ)
      → Flowing ep ef payload s
      → contents s.conn.output ≡ []
      → Flowing ep ef
          (payload ++ front)
          (record s { conn = record s.conn { socket = put_on_wire front s.conn.socket } })
  unfolding put_on_wire
  wire-Flowing {payload} {s} front v e = record {
    stream =
        ap (◌++◌ (s.conn.socket.wire ++ front)) e
        ∙ append-nil (s.conn.socket.wire ++ front)
        ∙ ap (λ ys. ys ++ front)
            (sym (append-nil s.conn.socket.wire) ∙ ap (◌++◌ s.conn.socket.wire) (sym e) ∙ v.stream);
    valid = v.valid;
    bounded = omega (arith, v, length-append payload front);
    open_state = v.open_state;
    watched = v.watched;
    flushed = v.flushed;
    busy = v.busy;
  }

  write_now-Attempted :
      {payload : List ℕ} {s : Session ep ef} (tid : ℕ) (result : Written) (bytes : List ℕ)
      → Flowing ep ef payload s
      → contents s.conn.output ≡ []
      → length bytes < max_size
      → Accepts bytes result
      → Attempted payload bytes (write_now ep ef tid result bytes s)
  unfolding write_now
  write_now-Attempted {payload} {s} tid (wrote n) bytes v e small acc = record {
    no_fault = refl;
    parts = omega arith;
    flows =
        let sent = wire-Flowing (take n bytes) v e in
        if_either (Flowing ep ef (payload ++ take n bytes)) _ (queue-Flowing ep ef tid _ sent) sent;
  }
  write_now-Attempted {payload} {s} tid (write_failed errno) bytes v e small acc = record {
    no_fault = ground arith;
    parts = omega arith;
    flows = subst (λ p. Flowing ep ef p s) (sym (append-nil payload)) v;
  }

  attempt-Attempted :
      {payload : List ℕ} {s : Session ep ef} (tid : ℕ) (result : Written) (bytes : List ℕ)
      → Flowing ep ef payload s
      → length bytes < max_size
      → Accepts bytes result
      → Attempted payload bytes (attempt ep ef tid result bytes s)
  unfolding attempt
  attempt-Attempted {payload} {s} tid result bytes v small acc =
      elim (Bool-cases (not (is_writing s.conn.channel) && readable_bytes s.conn.output == 0)) [
        | inl first ↦
            rw first
              (write_now-Attempted tid result bytes v (empty_output v (ground arith)) small acc)
        | inr waits ↦ rw waits (record {
          no_fault = refl;
          parts = omega arith;
          flows = subst (λ p. Flowing ep ef p s) (sym (append-nil payload)) v;
        })
      ]

  finish_send-Flowing :
      {payload bytes : List ℕ} {a : Attempt ep ef} (tid : ℕ)
      → Attempted payload bytes a
      → 1032 + length payload + length bytes < max_size
      → Returns (Flowing ep ef (payload ++ bytes)) (finish_send ep ef tid bytes a)
  unfolding finish_send
  finish_send-Flowing {payload} {bytes} {a} tid v fits =
      rw v.no_fault (elim (Bool-cases (ltb 0 a.remaining)) [
        | inl more ↦ rw more (
            subst
              (λ p.
                Returns (Flowing ep ef p)
                  (keep_rest ep ef tid (take a.remaining (drop a.nwrote bytes)) a.session))
              (append_assoc payload (take a.nwrote bytes) _
                ∙ ap (◌++◌ payload) (take-take-drop a.nwrote a.remaining bytes v.parts))
              (keep_rest-Flowing ep ef tid (take a.remaining (drop a.nwrote bytes)) v.flows
                (omega (
                  arith,
                  length-append payload (take a.nwrote bytes),
                  length-take a.nwrote bytes,
                  length-take a.remaining (drop a.nwrote bytes),
                  length-drop a.nwrote bytes,
                  v.parts,
                ))
                (ground (
                  arith,
                  more,
                  length-take a.remaining (drop a.nwrote bytes),
                  length-drop a.nwrote bytes,
                  v.parts,
                ))))
        | inr all_sent ↦ rw all_sent (
            subst (λ p. Flowing ep ef p a.session)
              (ap (◌++◌ payload) (take-all a.nwrote bytes (ground (arith, v.parts)))) v.flows)
      ])

  -- `sendInLoop` hands over or keeps all of its data, behind the data before it.
  pub send_in_loop-Flowing :
      {payload : List ℕ} {s : Session ep ef} (tid : ℕ) (result : Written) (bytes : List ℕ)
      → Flowing ep ef payload s
      → 1032 + length payload + length bytes < max_size
      → Accepts bytes result
      → Returns (Flowing ep ef (payload ++ bytes)) (send_in_loop ep ef tid result bytes s)
  unfolding send_in_loop
  send_in_loop-Flowing {payload} {s} tid result bytes v fits acc =
      rw v.open_state
        (finish_send-Flowing tid (attempt-Attempted tid result bytes v (omega arith) acc) fits)
