-- ===== src/Channel/Dispatch.antt =====
-- Channel.cc: `handleEvent` and the bits of a report.
use head_write_muduo_epoll_c.Base.{
  ◌<◌, ◌≡◌, Bool, true, false, not, ◌&&◌, ◌||◌, List, [], ◌∷◌, ◌++◌, arith,
}
use head_write_muduo_epoll_c.Channel.{
  Channel, Callback, close_callback, error_callback, read_callback, write_callback, called,
  handle_event, handle_event_with_guard,
}
use head_write_muduo_epoll_c.Channel.Masks.{
  flag, any_of-hup, any_of-err, any_of-out, any_of-in, any_of-read,
}

abbrev same_callback : Callback → Callback → Bool
same_callback close_callback close_callback = true
same_callback error_callback error_callback = true
same_callback read_callback read_callback = true
same_callback write_callback write_callback = true
same_callback _ _ = false

-- Whether a callback is among those that run.
abbrev pub runs : Callback → List Callback → Bool
runs cb [] = false
runs cb (x ∷ xs) = same_callback cb x || runs cb xs

runs-called :
    (x cb : Callback) (t s : Bool) (rest : List Callback)
    → runs x (called t s cb ++ rest) ≡ ((same_callback x cb && (s && t)) || runs x rest)
runs-called x cb true true rest = ground arith
runs-called x cb true false rest = ground arith
runs-called x cb false s rest = ground arith

runs-called_last :
    (x cb : Callback) (t s : Bool) → runs x (called t s cb) ≡ (same_callback x cb && (s && t))
runs-called_last x cb true true = ground arith
runs-called_last x cb true false = ground arith
runs-called_last x cb false s = ground arith

or_false : (a : Bool) → (a || false) ≡ a
or_false a = ground arith

-- Which callbacks run, given the five tests.
dispatched :
    (hup err inp out hc he hr hw : Bool)
    → let run =
        called hup hc close_callback
        ++ (called err he error_callback
            ++ (called inp hr read_callback ++ called out hw write_callback)) in
      (runs close_callback run ≡ (hc && hup))
      × (runs error_callback run ≡ (he && err))
      × (runs read_callback run ≡ (hr && inp))
      × (runs write_callback run ≡ (hw && out))
dispatched hup err inp out hc he hr hw = (
  simp (runs-called, runs-called_last, or_false),
  simp (runs-called, runs-called_last, or_false),
  simp (runs-called, runs-called_last, or_false),
  simp (runs-called, runs-called_last, or_false),
)

abbrev pub is_live : Channel → Bool → Bool
is_live c alive = not c.tied || alive

handle_event_with_guard-runs :
    (c : Channel)
    → c.revents < 32
    → (runs close_callback (handle_event_with_guard c)
        ≡ (c.has_close && (flag 4 c.revents && not (flag 0 c.revents))))
      × (runs error_callback (handle_event_with_guard c) ≡ (c.has_error && flag 3 c.revents))
      × (runs read_callback (handle_event_with_guard c)
          ≡ (c.has_read && (flag 0 c.revents || flag 1 c.revents)))
      × (runs write_callback (handle_event_with_guard c) ≡ (c.has_write && flag 2 c.revents))
unfolding handle_event_with_guard
handle_event_with_guard-runs c small =
    rw
      (
        any_of-hup c.revents small,
        any_of-in c.revents small,
        any_of-err c.revents small,
        any_of-read c.revents small,
        any_of-out c.revents small,
      )
      (dispatched _ _ _ _ c.has_close c.has_error c.has_read c.has_write)

-- For a report of EPOLLIN (bit 0), EPOLLPRI (1), EPOLLOUT (2), EPOLLERR (3) and EPOLLHUP (4): a
-- channel that is not tied, or whose tie is alive, runs its close callback on a hang-up with nothing
-- to read, its error callback on an error, its read callback on either kind of input and its write
-- callback on room to write, each if it is set. With the tie gone no callback runs.
pub handle_event-runs :
    (c : Channel) (alive : Bool)
    → c.revents < 32
    → (runs close_callback (handle_event c alive)
        ≡ (is_live c alive && (c.has_close && (flag 4 c.revents && not (flag 0 c.revents)))))
      × (runs error_callback (handle_event c alive)
          ≡ (is_live c alive && (c.has_error && flag 3 c.revents)))
      × (runs read_callback (handle_event c alive)
          ≡ (is_live c alive && (c.has_read && (flag 0 c.revents || flag 1 c.revents))))
      × (runs write_callback (handle_event c alive)
          ≡ (is_live c alive && (c.has_write && flag 2 c.revents)))
unfolding handle_event
handle_event-runs c alive small = ground (arith, handle_event_with_guard-runs c small)

-- A connection is not closed and read in one round, unless urgent data (EPOLLPRI) came with the
-- hang-up.
pub close_with_read_needs_pri :
    (c : Channel) (alive : Bool)
    → c.revents < 32
    → runs close_callback (handle_event c alive) ≡ true
    → runs read_callback (handle_event c alive) ≡ true
    → flag 1 c.revents ≡ true
close_with_read_needs_pri c alive small closes reads =
    ground (arith, handle_event-runs c alive small)
