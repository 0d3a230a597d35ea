-- ===== src/EventLoop.antt =====
-- EventLoop.h and EventLoop.cc. `F` is the type of functors; what calling one does to the loop is
-- the argument `call` of the operations that call it. `wakeup_counter` is the kernel's count of
-- `wakeupFd_`. The thread that makes a call is its argument `tid` (CurrentThread::tid()).
-- `Channel::update` and `Channel::remove` only go on to the loop, so the members of Channel that
-- call them stand here too.
pub mod Threads
pub mod Rounds
pub mod Lifetime
use mathlib.Core.Option
use head_write_muduo_epoll_c.Base.{
  ℕ, zero, suc, Bool, true, false, not, ◌&&◌, ◌||◌, Option, none, some, List, [], ◌∷◌, ◌++◌, ◌==◌,
  if◌then◌else◌, Outcome, ok, exited, ◌>>=◌,
}
use head_write_muduo_epoll_c.Kernel.{Epoll, EventFd}
use head_write_muduo_epoll_c.Channel.{
  Channel, new_channel, set_read_callback, with_reading, without_reading, with_writing,
  without_writing, without_all,
}
use head_write_muduo_epoll_c.Poller.{Poller, new_default_poller, EpollWait, Store, poll}
use head_write_muduo_epoll_c.Poller

-- A `for` loop whose body may end the process.
unfoldable pub each : {A S : Type 0} → (A → S → Outcome S) → List A → S → Outcome S
each body [] s = ok s
each body (a ∷ rest) s = body a s >>= each body rest

module _ (ep : Epoll) (ef : EventFd) (F : Type 0) where
  pub record EventLoop : Type 0 where
    pub looping : Bool
    pub quitting : Bool
    pub calling_pending_functors : Bool
    pub thread_id : ℕ
    pub poller : Poller ep
    pub wakeup_counter : ef.Counter
    pub active_channels : List ℕ
    pub pending_functors : List F

  unfoldable pub update_channel : EventLoop → Channel → Outcome (EventLoop × Channel)
  update_channel l c =
      Poller.update_channel ep l.poller c >>= λ r. ok (record l { poller = r.0 }, r.1)

  unfoldable pub remove_channel : EventLoop → Channel → Outcome (EventLoop × Channel)
  remove_channel l c =
      Poller.remove_channel ep l.poller c >>= λ r. ok (record l { poller = r.0 }, r.1)

  unfoldable pub has_channel : EventLoop → Channel → Bool
  has_channel l c = Poller.has_channel ep l.poller c

  -- The members of Channel that change its events.
  unfoldable pub enable_reading : EventLoop → Channel → Outcome (EventLoop × Channel)
  enable_reading l c = update_channel l (with_reading c)

  unfoldable pub disable_reading : EventLoop → Channel → Outcome (EventLoop × Channel)
  disable_reading l c = update_channel l (without_reading c)

  unfoldable pub enable_writing : EventLoop → Channel → Outcome (EventLoop × Channel)
  enable_writing l c = update_channel l (with_writing c)

  unfoldable pub disable_writing : EventLoop → Channel → Outcome (EventLoop × Channel)
  disable_writing l c = update_channel l (without_writing c)

  unfoldable pub disable_all : EventLoop → Channel → Outcome (EventLoop × Channel)
  disable_all l c = update_channel l (without_all c)

  -- `eventfd`, in a result that is none for -1.
  create_eventfd : Option ef.Counter → Outcome ef.Counter
  create_eventfd none = exited
  create_eventfd (some c) = ok c

  -- The body of the constructor. A null `poller_` is used by `enableReading` at the latest, which ends
  -- the process.
  begin_event_loop :
      ℕ → Bool → Option (Poller ep) → ef.Counter → ℕ → ℕ → Outcome (EventLoop × Channel)
  begin_event_loop tid has_loop none counter address fd = exited
  begin_event_loop tid has_loop (some poller) counter address fd =
      if has_loop
      then exited
      else enable_reading
          (record {
            looping = false;
            quitting = false;
            calling_pending_functors = false;
            thread_id = tid;
            poller = poller;
            wakeup_counter = counter;
            active_channels = [];
            pending_functors = [];
          })
          (set_read_callback (new_channel address fd) true)

  -- The constructor, with whether MUDUO_USE_POLL is set, what `epoll_create1` and `eventfd` give, the
  -- address and descriptor of the wakeup channel, and whether the thread has a loop already.
  unfoldable pub new_event_loop :
      ℕ → Bool → Bool → Option ep.State → Option ef.Counter → ℕ → ℕ → Outcome (EventLoop × Channel)
  unfolding create_eventfd begin_event_loop
  new_event_loop tid use_poll has_loop epoll evfd address fd =
      new_default_poller ep use_poll epoll >>= λ poller.
      create_eventfd evfd >>= λ counter. begin_event_loop tid has_loop poller counter address fd

  -- The destructor, up to the close of the descriptor.
  unfoldable pub destroy_event_loop : EventLoop → Channel → Outcome (EventLoop × Channel)
  destroy_event_loop l wakeup_channel = disable_all l wakeup_channel >>= λ r. remove_channel r.0 r.1

  unfoldable pub is_in_loop_thread : EventLoop → ℕ → Bool
  is_in_loop_thread l tid = l.thread_id == tid

  unfoldable pub wakeup : EventLoop → EventLoop
  wakeup l = record l { wakeup_counter = ef.write_one l.wakeup_counter }

  unfoldable pub handle_read : EventLoop → EventLoop
  handle_read l = record l { wakeup_counter = ef.read_all l.wakeup_counter }

  unfoldable pub mark_quit : EventLoop → EventLoop
  mark_quit l = record l { quitting = true }

  unfoldable pub quit : ℕ → EventLoop → EventLoop
  unfolding is_in_loop_thread mark_quit
  quit tid l = if is_in_loop_thread (mark_quit l) tid then mark_quit l else wakeup (mark_quit l)

  -- The two halves of `queueInLoop`: the part under the mutex, and the test after it.
  unfoldable pub push_functor : F → EventLoop → EventLoop
  push_functor f l = record l { pending_functors = l.pending_functors ++ f ∷ [] }

  unfoldable pub notify : ℕ → EventLoop → EventLoop
  unfolding is_in_loop_thread
  notify tid l = if not (is_in_loop_thread l tid) || l.calling_pending_functors then wakeup l else l

  unfoldable pub queue_in_loop : ℕ → F → EventLoop → EventLoop
  queue_in_loop tid f l = notify tid (push_functor f l)

  -- `call` is what calling the functor at once comes to, in the state of the caller; `put` is that
  -- state with another loop.
  unfoldable pub run_in_loop :
      {S : Type 0} → Outcome S → (EventLoop → S) → ℕ → F → EventLoop → Outcome S
  run_in_loop call put tid f l =
      if is_in_loop_thread l tid then call else ok (put (queue_in_loop tid f l))

  -- The loop with the channels that it can reach through pointers.
  abbrev pub World : Type 0
  World = EventLoop × Store

  -- `doPendingFunctors`, in the parts that other threads can come between.
  unfoldable pub begin_pending : EventLoop → EventLoop
  begin_pending l = record l { calling_pending_functors = true }

  unfoldable pub swap_pending : EventLoop → List F × EventLoop
  swap_pending l = (l.pending_functors, record l { pending_functors = [] })

  unfoldable pub end_pending : EventLoop → EventLoop
  end_pending l = record l { calling_pending_functors = false }

  unfoldable pub do_pending_functors : (F → World → Outcome World) → World → Outcome World
  do_pending_functors call (l, store) =
      let (functors, l') = swap_pending (begin_pending l) in
      each call functors (l', store) >>= λ w. ok (end_pending w.0, w.1)

  -- One round of `loop`. `handle` is `Channel::handleEvent` of an active channel.
  unfoldable pub one_round :
      (ℕ → World → Outcome World) → (F → World → Outcome World) → EpollWait → World → Outcome World
  one_round handle call wait (l, store) =
      let (poller', store', active, logged) = poll ep l.poller wait store [] in
      each handle active (record l { poller = poller'; active_channels = active }, store')
      >>= do_pending_functors call

  -- `while (!quit_)`, with what `epoll_wait` answers in each round. `none` means that the answers ran
  -- out first.
  unfoldable pub rounds :
      (ℕ → World → Outcome World)
      → (F → World → Outcome World)
      → List EpollWait
      → World
      → Outcome (Option World)
  rounds handle call [] (l, store) = ok (if l.quitting then some (l, store) else none)
  rounds handle call (wait ∷ waits) (l, store) = elim l.quitting [
    | true ↦ ok (some (l, store))
    | false ↦ one_round handle call wait (l, store) >>= λ w. rounds handle call waits w
  ]

  pub loop :
      (ℕ → World → Outcome World)
      → (F → World → Outcome World)
      → List EpollWait
      → World
      → Outcome (Option World)
  loop handle call waits (l, store) =
      rounds handle call waits (record l { looping = true; quitting = false }, store) >>= λ r.
      ok (Option.map (λ w. (record w.0 { looping = false }, w.1)) r)
