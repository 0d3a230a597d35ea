-- ===== src/TcpConnection/Handling.antt =====
-- Channel.cc and TcpConnection.cc: `handleEvent` of a connection's channel, with the member functions
-- that the constructor of the connection sets as its callbacks, and `handleError`. None of them changes
-- `revents_` or the callbacks, so what runs is known when the report comes.
use head_write_muduo_epoll_c.Base.{
  ℕ, Bool, Option, none, some, List, [], ◌∷◌, ◌++◌, ok, Outcome, ◌>>=◌,
}
use head_write_muduo_epoll_c.Kernel.{Epoll, EventFd}
use head_write_muduo_epoll_c.Buffer.{Readv, Written}
use head_write_muduo_epoll_c.Channel.{
  Callback, close_callback, error_callback, read_callback, write_callback, set_revent, handle_event,
}
use head_write_muduo_epoll_c.TcpConnection.{Session, handle_close, handle_read, handle_write}

-- What the system calls of the handlers answer: `readv`, `write` with its errno, and `getsockopt`, which
-- is none for -1, with its errno.
pub record Answers : Type 0 where
  pub readv : ℕ → ℕ → Readv
  pub written : Written
  pub write_errno : ℕ
  pub socket_error : Option ℕ
  pub getsockopt_errno : ℕ

-- The error that `handleError` logs, beside the name of the connection.
unfoldable pub handle_error : Answers → ℕ
handle_error a = elim a.socket_error [ none ↦ a.getsockopt_errno | some optval ↦ optval ]

module _ (ep : Epoll) (ef : EventFd) where
  -- A session with the errors that `handleError` has logged, oldest first.
  abbrev pub Logged : Type 0
  Logged = Session ep ef × List ℕ

  unfoldable pub handle : ℕ → Answers → Callback → Logged → Outcome Logged
  handle tid a close_callback (s, errors) = handle_close ep ef s >>= λ t. ok (t, errors)
  handle tid a error_callback (s, errors) = ok (s, errors ++ handle_error a ∷ [])
  handle tid a read_callback (s, errors) = handle_read ep ef a.readv s >>= λ t. ok (t, errors)
  handle tid a write_callback (s, errors) =
      handle_write ep ef tid a.write_errno a.written s >>= λ t. ok (t, errors)

  unfoldable pub handle_each : ℕ → Answers → List Callback → Logged → Outcome Logged
  handle_each tid a [] s = ok s
  handle_each tid a (cb ∷ cbs) s = handle tid a cb s >>= handle_each tid a cbs

  -- The report `revents` for the connection's channel; `alive` says whether `tie_.lock()` yields a
  -- pointer.
  unfoldable pub handle_report : ℕ → Answers → ℕ → Bool → Logged → Outcome Logged
  handle_report tid a revents alive (s, errors) =
      let c = set_revent s.conn.channel revents in
      handle_each tid a (handle_event c alive)
        (record s { conn = record s.conn { channel = c } }, errors)
