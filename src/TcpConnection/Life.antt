-- ===== src/TcpConnection/Life.antt =====
-- TcpConnection.cc: the calls in the life of a connection, in any number and order, and the order of
-- the callbacks that its user may rely on.
pub mod Standing
pub mod Steady
pub mod Lawful
pub mod Changes
pub mod Ending
pub mod Calls
pub mod Reports
pub mod Order
use head_write_muduo_epoll_c.Base.{
  ℕ, ◌≡◌, ◌≢◌, Bool, true, false, ◌&&◌, not, bit_or, Option, none, some, List, [], ◌∷◌, ok,
}
use head_write_muduo_epoll_c.Kernel.{Epoll, EventFd}
use head_write_muduo_epoll_c.Buffer.{Written}
use head_write_muduo_epoll_c.Channel.{any_of, epollhup, epollin, epollpri}
use head_write_muduo_epoll_c.Functor.{Functor}
use head_write_muduo_epoll_c.EventLoop.{EventLoop}
use head_write_muduo_epoll_c.TcpConnection.{
  State, disconnected, connecting, connected, disconnecting, Call, connection_callback,
  message_callback, close_callback, write_complete_callback, high_water_mark_callback, Session,
  send, send_in_loop, shutdown, shutdown_in_loop, connect_established, connect_destroyed, note_call,
  set_write_complete_callback, set_high_water_mark_callback,
}
use head_write_muduo_epoll_c.TcpConnection.Handling.{Answers, handle_report}

-- Where the user's view of a connection stands: not reported yet, reported as up, reported as down, or
-- given back to the server.
pub data Phase : Type 0 where
  unreported up down given_back : Phase

-- What one call makes of the phase; none is a call out of order.
abbrev pub next_phase : Phase → Call → Option Phase
next_phase unreported (connection_callback connected) = some up
next_phase unreported _ = none
next_phase up (connection_callback disconnected) = some down
next_phase up (connection_callback _) = none
next_phase up close_callback = none
next_phase up _ = some up
next_phase down (connection_callback _) = none
next_phase down message_callback = none
next_phase down close_callback = some given_back
next_phase down _ = some down
next_phase given_back write_complete_callback = some given_back
next_phase given_back (high_water_mark_callback _) = some given_back
next_phase given_back _ = none

abbrev pub phase_after : Phase → List Call → Option Phase
phase_after p [] = some p
phase_after p (c ∷ cs) = elim (next_phase p c) [ none ↦ none | some q ↦ phase_after q cs ]

-- The phases that a state of the connection stands for.
abbrev pub agrees : State → Phase → Bool
agrees connecting unreported = true
agrees connected up = true
agrees disconnecting up = true
agrees disconnected down = true
agrees disconnected given_back = true
agrees _ _ = false

abbrev pub rank : State → ℕ
rank connecting = 0
rank connected = 1
rank disconnecting = 2
rank disconnected = 3

-- Not a hang-up with urgent data as the only input: a TCP socket whose peer is gone reports EPOLLIN
-- with EPOLLHUP.
abbrev pub is_plain : ℕ → Bool
is_plain revents = not (
    any_of revents epollhup
    && (not (any_of revents epollin) && any_of revents (bit_or epollin epollpri)))

module _ (ep : Epoll) (ef : EventFd) where
  abbrev pub entry : EventLoop ep ef Functor → ℕ → Option (ℕ × ℕ)
  entry l fd = ep.interest l.poller.epoll fd

  -- One call. `connectEstablished` comes first, and the functors of the connection come after it,
  -- since the loop calls its functors in order. A report comes for a descriptor that epoll watches. A
  -- call of `shutdown` is one step: for one from another thread, the runs in which a call of the loop
  -- thread comes between its test of `state_` and its assignment are left out. `turns` is whatever the loop does for others.
  pub data Step (s : Session ep ef) (t : Session ep ef) : Type 0 where
    establishes : s.conn.state ≡ connecting → connect_established ep ef s ≡ ok t → Step s t
    reports :
        (tid : ℕ) (a : Answers) (revents : ℕ) (alive : Bool) (errors errors' : List ℕ)
        → entry s.loop s.conn.channel.fd ≢ none
        → is_plain revents ≡ true
        → handle_report ep ef tid a revents alive (s, errors) ≡ ok (t, errors')
        → Step s t
    sends :
        (tid : ℕ) (result : Written) (bytes : List ℕ)
        → send ep ef tid result bytes s ≡ ok t
        → Step s t
    shuts : (tid : ℕ) → shutdown ep ef tid s ≡ ok t → Step s t
    sends_queued :
        (tid : ℕ) (result : Written) (bytes : List ℕ)
        → s.conn.state ≢ connecting
        → send_in_loop ep ef tid result bytes s ≡ ok t
        → Step s t
    shuts_queued : t ≡ shutdown_in_loop ep ef s → Step s t
    tells_written :
        s.conn.state ≢ connecting → t ≡ note_call ep ef write_complete_callback s → Step s t
    tells_mark :
        (size : ℕ)
        → s.conn.state ≢ connecting
        → t ≡ note_call ep ef (high_water_mark_callback size) s
        → Step s t
    destroys : s.conn.state ≢ connecting → connect_destroyed ep ef s ≡ ok t → Step s t
    sets_write_complete :
        (is_set : Bool)
        → t ≡ record s { conn = set_write_complete_callback is_set s.conn }
        → Step s t
    sets_mark :
        (mark : ℕ) → t ≡ record s { conn = set_high_water_mark_callback mark s.conn } → Step s t
    turns :
        (l : EventLoop ep ef Functor)
        → entry l s.conn.channel.fd ≡ entry s.loop s.conn.channel.fd
        → t ≡ record s { loop = l }
        → Step s t

  pub data Steps (s : Session ep ef) : Session ep ef → Type 0 where
    here : Steps s s
    then_ : {t u : Session ep ef} → Steps s t → Step t u → Steps s u
