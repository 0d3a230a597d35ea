-- ===== src/TcpConnection/Life/Reports.antt =====
-- Channel.cc and TcpConnection.cc: a report of epoll for the channel of a connection.
use head_write_muduo_epoll_c.Base.{
  ℕ, ◌≤◌, ◌≡◌, ◌≢◌, refl, sym, subst, Bool, true, false, not, ◌&&◌, bit_or, none, List, [], ◌∷◌,
  ◌++◌, arith, ok, exited, Outcome, ◌>>=◌, IfOk, IfOk-bind, if_either,
}
use head_write_muduo_epoll_c.Kernel.{Epoll, EventFd}
use head_write_muduo_epoll_c.Channel.{
  Callback, close_callback, error_callback, read_callback, write_callback, called, any_of, epollhup,
  epollin, epollpri, set_revent, handle_event, handle_event_with_guard,
}
use head_write_muduo_epoll_c.TcpConnection.{Session, handle_close, handle_read, handle_write}
use head_write_muduo_epoll_c.TcpConnection.Handling.{
  Answers, Logged, handle, handle_each, handle_report,
}
use head_write_muduo_epoll_c.TcpConnection.Life.{Phase, rank, entry, is_plain}
use head_write_muduo_epoll_c.TcpConnection.Life.Standing.{writing-IsUp, Standing-set_revent}
use head_write_muduo_epoll_c.TcpConnection.Life.Steady.{Steady, handle_write-Steady}
use head_write_muduo_epoll_c.TcpConnection.Life.Lawful.{
  Lawful, Next, Next-trans, Steady-Next, Lawful-Steady,
}
use head_write_muduo_epoll_c.TcpConnection.Life.Changes.{handle_close-Next, handle_read-Next}

>>=-cong :
    {A : Type 0} (m : Outcome A) (f g h : A → Outcome A)
    → ((r : A) → f r ≡ (g r >>= h))
    → (m >>= f) ≡ (m >>= g >>= h)
>>=-cong (ok r) f g h k = k r
>>=-cong exited f g h k = refl

read_excluded :
    (hup inp reads : Bool)
    → not (hup && (not inp && reads)) ≡ true
    → (hup && not inp) ≡ true
    → reads ≡ false
read_excluded hup inp reads plain closes = ground (arith, plain, closes)

module _ (ep : Epoll) (ef : EventFd) (tid : ℕ) (a : Answers) where
  handle_each-append :
      (xs ys : List Callback) (r : Logged ep ef)
      → handle_each ep ef tid a (xs ++ ys) r
        ≡ (handle_each ep ef tid a xs r >>= handle_each ep ef tid a ys)
  unfolding handle_each
  handle_each-append [] ys r = refl
  handle_each-append (x ∷ xs) ys r =
      >>=-cong (handle ep ef tid a x r) _ _ _ (handle_each-append xs ys)

  -- The session may have gone on from `s`, but epoll watches the channel still.
  record Open (s : Session ep ef) (r : Logged ep ef) : Type 0 where
    phase : Phase
    lawful : Lawful ep ef phase r.0
    watched : entry ep ef r.0.loop r.0.conn.channel.fd ≢ none
    forward : rank s.conn.state ≤ rank r.0.conn.state

  abbrev Done : Session ep ef → Logged ep ef → Type 0
  Done s r = Next ep ef s r.0

  -- One `if` of `handleEventWithGuard`, given what its callback does.
  called-IfOk :
      (P : Logged ep ef → Type 0) (test is_set : Bool) (cb : Callback) (r : Logged ep ef)
      → P r
      → IfOk P (handle ep ef tid a cb r)
      → IfOk P (handle_each ep ef tid a (called test is_set cb) r)
  unfolding handle_each
  called-IfOk P false is_set cb r p h = p
  called-IfOk P true false cb r p h = p
  called-IfOk P true true cb r p h = IfOk-bind P P (handle ep ef tid a cb r) ok h λ q k. k

  Open-Done : {s : Session ep ef} {r : Logged ep ef} → Open s r → Done s r
  Open-Done o = (o.phase, o.lawful, o.forward)

  error-Open :
      {s : Session ep ef} (r : Logged ep ef)
      → Open s r
      → IfOk (Open s) (handle ep ef tid a error_callback r)
  unfolding handle
  error-Open (t, errors) o = record {
    phase = o.phase;
    lawful = o.lawful;
    watched = o.watched;
    forward = o.forward;
  }

  error-Done :
      (s : Session ep ef) (r : Logged ep ef)
      → Done s r
      → IfOk (Done s) (handle ep ef tid a error_callback r)
  unfolding handle
  error-Done s (t, errors) d = d

  close-Done :
      {s : Session ep ef} (r : Logged ep ef)
      → Open s r
      → IfOk (Done s) (handle ep ef tid a close_callback r)
  unfolding handle
  close-Done {s} (t, errors) o =
      IfOk-bind (Next ep ef t) (Done s) (handle_close ep ef t) _
        (handle_close-Next ep ef o.lawful o.watched) λ u k. Next-trans ep ef s t u o.forward k

  read-Done :
      {s : Session ep ef} (r : Logged ep ef)
      → Open s r
      → IfOk (Done s) (handle ep ef tid a read_callback r)
  unfolding handle
  read-Done {s} (t, errors) o =
      IfOk-bind (Next ep ef t) (Done s) (handle_read ep ef a.readv t) _
        (handle_read-Next ep ef a.readv o.lawful o.watched)
        λ u k. Next-trans ep ef s t u o.forward k

  write-Done :
      (s : Session ep ef) (r : Logged ep ef)
      → Done s r
      → IfOk (Done s) (handle ep ef tid a write_callback r)
  unfolding handle
  write-Done s (t, errors) (p, v, forward) =
      IfOk-bind (λ u. Steady ep ef t.conn.state t.calls u) (Done s)
        (handle_write ep ef tid a.write_errno a.written t) _
        (handle_write-Steady ep ef t.conn.state t.calls tid a.write_errno a.written
          (writing-IsUp ep ef t.conn.state t.loop t.conn.channel v.standing)
          (Lawful-Steady ep ef v))
        λ u k. Next-trans ep ef s t u forward (Steady-Next ep ef v k)

  append-IfOk :
      (P Q : Logged ep ef → Type 0) (xs ys : List Callback) (r : Logged ep ef)
      → IfOk P (handle_each ep ef tid a xs r)
      → ((q : Logged ep ef) → P q → IfOk Q (handle_each ep ef tid a ys q))
      → IfOk Q (handle_each ep ef tid a (xs ++ ys) r)
  append-IfOk P Q xs ys r h k =
      subst (IfOk Q) (sym (handle_each-append xs ys r))
        (IfOk-bind P Q (handle_each ep ef tid a xs r) _ h k)

  -- The four `if`s, where a close excludes a read.
  four_ifs-Done :
      (s : Session ep ef) (r : Logged ep ef) (hup err inp out hc he hr hw : Bool)
      → Open s r
      → (hup ≡ true → inp ≡ false)
      → IfOk (Done s) (
          handle_each ep ef tid a
            (called hup hc close_callback
              ++ (called err he error_callback
                  ++ (called inp hr read_callback ++ called out hw write_callback)))
            r)
  four_ifs-Done s r true err inp out hc he hr hw o exclusive = rw (exclusive refl) (
      append-IfOk (Done s) (Done s) (called true hc close_callback) _ r
        (called-IfOk (Done s) true hc close_callback r (Open-Done o) (close-Done r o))
        λ q d.
          append-IfOk (Done s) (Done s) (called err he error_callback) _ q
            (called-IfOk (Done s) err he error_callback q d (error-Done s q d))
            λ q' d'. called-IfOk (Done s) out hw write_callback q' d' (write-Done s q' d'))
  four_ifs-Done s r false err inp out hc he hr hw o exclusive =
      append-IfOk (Open s) (Done s) (called err he error_callback) _ r
        (called-IfOk (Open s) err he error_callback r o (error-Open r o))
        λ q o'.
          append-IfOk (Done s) (Done s) (called inp hr read_callback) _ q
            (called-IfOk (Done s) inp hr read_callback q (Open-Done o') (read-Done q o'))
            λ q' d. called-IfOk (Done s) out hw write_callback q' d (write-Done s q' d)

  Lawful-set_revent :
      {p : Phase} (revents : ℕ) {s : Session ep ef}
      → Lawful ep ef p s
      → Lawful ep ef p
          (record s { conn = record s.conn { channel = set_revent s.conn.channel revents } })
  Lawful-set_revent revents {s} v = record {
    protocol = v.protocol;
    agreement = v.agreement;
    standing = Standing-set_revent ep ef s.conn.state s.loop s.conn.channel revents v.standing;
  }

  pub handle_report-Next :
      {p : Phase} (revents : ℕ) (alive : Bool) (s : Session ep ef) (errors : List ℕ)
      → Lawful ep ef p s
      → entry ep ef s.loop s.conn.channel.fd ≢ none
      → is_plain revents ≡ true
      → IfOk (Done s) (handle_report ep ef tid a revents alive (s, errors))
  unfolding handle_report handle_event handle_event_with_guard set_revent handle_each
  handle_report-Next {p} revents alive s errors v watched plain =
      let c = set_revent s.conn.channel revents in
      let r : Logged ep ef = (record s { conn = record s.conn { channel = c } }, errors) in
      let o : Open s r = record {
        phase = p;
        lawful = Lawful-set_revent revents v;
        watched = watched;
        forward = omega arith;
      } in
      let Ends : List Callback → Type 0 = λ cbs. IfOk (Done s) (handle_each ep ef tid a cbs r) in
      let runs : Ends (handle_event_with_guard c) =
        four_ifs-Done s r _ _ _ _ c.has_close c.has_error c.has_read c.has_write o (
          read_excluded (any_of revents epollhup) (any_of revents epollin)
            (any_of revents (bit_or epollin epollpri)) plain) in
      if_either Ends c.tied (if_either Ends alive runs (Open-Done o)) runs
