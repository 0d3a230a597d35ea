-- ===== src/Channel.antt =====
-- Channel.h and Channel.cc: a descriptor with the events that it asks for, the events that epoll
-- reported, and the callbacks to run. `address` is the object's own address, which the poller stores
-- and compares. A std::function is kept as whether it is set; what a callback does is modelled with
-- its owner. The index is one of the poller's three constants. `enableReading` and the others go on
-- to the poller, so they stand in EventLoop.antt, over the changes of the mask here.
pub mod Masks
pub mod Dispatch
use head_write_muduo_epoll_c.Base.{
  ℕ, ◌-◌, ◌^◌, Bool, true, false, not, ◌&&◌, List, [], ◌∷◌, ◌++◌, bit_and, bit_or, ◌==◌,
  if◌then◌else◌,
}

-- Linux's values of the epoll flags.
abbrev pub epollin : ℕ
epollin = 1

abbrev pub epollpri : ℕ
epollpri = 2

abbrev pub epollout : ℕ
epollout = 4

abbrev pub epollerr : ℕ
epollerr = 8

abbrev pub epollhup : ℕ
epollhup = 16

abbrev pub none_event : ℕ
none_event = 0

abbrev pub read_event : ℕ
read_event = bit_or epollin epollpri

abbrev pub write_event : ℕ
write_event = epollout

-- kNew, kAdded and kDeleted.
pub data Index : Type 0 where
  new added deleted : Index

pub data Callback : Type 0 where
  close_callback error_callback read_callback write_callback : Callback

pub record Channel : Type 0 where
  pub address : ℕ
  pub fd : ℕ
  pub events : ℕ
  pub revents : ℕ
  pub index : Index
  pub tied : Bool
  pub has_read : Bool
  pub has_write : Bool
  pub has_close : Bool
  pub has_error : Bool

unfoldable pub new_channel : ℕ → ℕ → Channel
new_channel address fd = record {
  address = address;
  fd = fd;
  events = 0;
  revents = 0;
  index = new;
  tied = false;
  has_read = false;
  has_write = false;
  has_close = false;
  has_error = false;
}

unfoldable pub set_read_callback : Channel → Bool → Channel
set_read_callback c is_set = record c { has_read = is_set }

unfoldable pub set_write_callback : Channel → Bool → Channel
set_write_callback c is_set = record c { has_write = is_set }

unfoldable pub set_close_callback : Channel → Bool → Channel
set_close_callback c is_set = record c { has_close = is_set }

unfoldable pub set_error_callback : Channel → Bool → Channel
set_error_callback c is_set = record c { has_error = is_set }

unfoldable pub tie : Channel → Channel
tie c = record c { tied = true }

unfoldable pub set_revent : Channel → ℕ → Channel
set_revent c revt = record c { revents = revt }

unfoldable pub set_index : Channel → Index → Channel
set_index c i = record c { index = i }

-- An int is true if it is not zero.
abbrev pub any_of : ℕ → ℕ → Bool
any_of e mask = not (bit_and e mask == 0)

-- `~mask`, 32 bits wide.
abbrev pub complement : ℕ → ℕ
complement mask = 2 ^ 32 - 1 - mask

unfoldable pub is_none_event : Channel → Bool
is_none_event c = c.events == none_event

unfoldable pub is_writing : Channel → Bool
is_writing c = any_of c.events write_event

unfoldable pub is_reading : Channel → Bool
is_reading c = any_of c.events read_event

-- The changes of `events_` in `enableReading`, `disableReading` and so on, before `update()`.
unfoldable pub with_reading : Channel → Channel
with_reading c = record c { events = bit_or c.events read_event }

unfoldable pub without_reading : Channel → Channel
without_reading c = record c { events = bit_and c.events (complement read_event) }

unfoldable pub with_writing : Channel → Channel
with_writing c = record c { events = bit_or c.events write_event }

unfoldable pub without_writing : Channel → Channel
without_writing c = record c { events = bit_and c.events (complement write_event) }

unfoldable pub without_all : Channel → Channel
without_all c = record c { events = none_event }

-- One `if` of `handleEventWithGuard`: the callback runs if it is set.
abbrev pub called : Bool → Bool → Callback → List Callback
called test is_set cb = if test then (if is_set then cb ∷ [] else []) else []

-- The callbacks that run, in order. None of them changes `revents_` or which callbacks are set.
unfoldable pub handle_event_with_guard : Channel → List Callback
handle_event_with_guard c =
    called (any_of c.revents epollhup && not (any_of c.revents epollin)) c.has_close close_callback
    ++ (called (any_of c.revents epollerr) c.has_error error_callback
        ++ (called (any_of c.revents (bit_or epollin epollpri)) c.has_read read_callback
            ++ called (any_of c.revents epollout) c.has_write write_callback))

-- `alive` says whether `tie_.lock()` yields a pointer.
unfoldable pub handle_event : Channel → Bool → List Callback
handle_event c alive =
    if c.tied then (if alive then handle_event_with_guard c else []) else handle_event_with_guard c
