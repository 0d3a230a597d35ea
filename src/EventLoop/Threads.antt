-- ===== src/EventLoop/Threads.antt =====
-- One loop thread and any number of other threads that queue functors, interleaved in any order.
-- A step of another thread is one of the two halves of `queueInLoop` (EventLoop.cc); a step of the
-- loop thread is a part of `loop` between two points where another thread can come in.
pub mod Ordered
pub mod Keeps
pub mod Wakeup
pub mod Progress
pub mod Batch
use head_write_muduo_epoll_c.Base.{
  ℕ, zero, suc, ◌<◌, ◌≡◌, ◌≢◌, refl, sym, ap, ◌∙◌, subst, ◌⊎◌, inl, inr, Bool, true, false, not,
  ◌||◌, List, [], ◌∷◌, ◌++◌, append-nil, append_assoc, arith, ◌==◌, ==_iff, ==_refl, if◌then◌else◌,
}
use head_write_muduo_epoll_c.Kernel.{Epoll, EventFd}
use head_write_muduo_epoll_c.EventLoop.{
  EventLoop, wakeup, handle_read, push_functor, notify, queue_in_loop, begin_pending, swap_pending,
  end_pending, is_in_loop_thread, mark_quit, quit,
}

-- Where the loop thread is: at `poll`, among the active channels (with the wakeup channel still to
-- come or not), in `doPendingFunctors` with these functors to call, or past the end of `loop`.
pub data Phase (F : Type 0) : Type 0 where
  polling : Phase F
  handling : Bool → Phase F
  running : List F → Phase F
  stopped : Phase F

abbrev pub rest_of : {F : Type 0} → Phase F → List F
rest_of polling = []
rest_of (handling b) = []
rest_of (running rest) = rest
rest_of stopped = []

module _ (ep : Epoll) (ef : EventFd) (F : Type 0) where
  -- `waking` counts the threads between the two halves of `queueInLoop`. `queued` and `called` are the
  -- functors queued and called so far, oldest first.
  pub record System : Type 0 where
    pub loop : EventLoop ep ef F
    pub phase : Phase F
    pub waking : ℕ
    pub queued : List F
    pub called : List F

  pub data Step (s : System) : System → Type 0 where
    -- Another thread, in `queueInLoop` or `quit`; `wake` ends either.
    push :
        (f : F)
        → Step s (record s {
          loop = push_functor ep ef F f s.loop;
          waking = suc s.waking;
          queued = s.queued ++ f ∷ [];
        })
    wake :
        (tid n : ℕ)
        → tid ≢ s.loop.thread_id
        → s.waking ≡ suc n
        → Step s (record s { loop = notify ep ef F tid s.loop; waking = n })
    ask_quit : Step s (record s { loop = mark_quit ep ef F s.loop; waking = suc s.waking })
    -- `poll` comes back. epoll is level triggered: it reports the wakeup channel if the eventfd is
    -- readable.
    polled :
        s.phase ≡ polling
        → Step s (record s { phase = handling (ef.is_readable s.loop.wakeup_counter) })
    read_wakeup :
        s.phase ≡ handling true
        → Step s (record s { loop = handle_read ep ef F s.loop; phase = handling false })
    -- A callback of a channel, or a functor that is being called, queues one in its own loop.
    queue_own :
        (f : F)
        → s.phase ≢ polling
        → Step s (record s {
          loop = queue_in_loop ep ef F s.loop.thread_id f s.loop;
          queued = s.queued ++ f ∷ [];
        })
    swap :
        s.phase ≡ handling false
        → Step s (record s {
          loop = (swap_pending ep ef F (begin_pending ep ef F s.loop)).1;
          phase = running (swap_pending ep ef F (begin_pending ep ef F s.loop)).0;
        })
    call :
        (f : F) (rest : List F)
        → s.phase ≡ running (f ∷ rest)
        → Step s (record s { phase = running rest; called = s.called ++ f ∷ [] })
    finish :
        s.phase ≡ running []
        → s.loop.quitting ≡ false
        → Step s (record s { loop = end_pending ep ef F s.loop; phase = polling })
    stop :
        s.phase ≡ running []
        → s.loop.quitting ≡ true
        → Step s (record s { loop = end_pending ep ef F s.loop; phase = stopped })
    quit_own : s.phase ≢ polling → Step s (record s { loop = quit ep ef F s.loop.thread_id s.loop })

  pub data Reach (s : System) : System → Type 0 where
    here : Reach s s
    next : {t u : System} → Reach s t → Step t u → Reach s u

  -- `loop` before its first `poll`, where `waking` other threads stand between the two halves of
  -- `queueInLoop`. What is pending was queued before.
  unfoldable pub start : ℕ → EventLoop ep ef F → System
  start waking l = record {
    loop = record l { looping = true; quitting = false };
    phase = polling;
    waking = waking;
    queued = l.pending_functors;
    called = [];
  }

  -- There is a reason for the loop thread to come back from `poll`.
  abbrev pub HasWork : System → Type 0
  HasWork s = (s.loop.pending_functors ≢ []) ⊎ (s.loop.quitting ≡ true)

  -- Somebody makes the next `poll` come back: the eventfd is readable, or a thread is about to write
  -- to it.
  abbrev pub IsAlerted : System → Type 0
  IsAlerted s = (0 < s.waking) ⊎ (ef.is_readable s.loop.wakeup_counter ≡ true)

  abbrev is_running : Phase F → Bool
  is_running polling = false
  is_running (handling b) = false
  is_running (running rest) = true
  is_running stopped = false

  -- At `poll` both kinds of work are covered. While functors are called only the queued ones need
  -- be, since `quit_` is read before the next `poll`.
  abbrev AlertIn : Phase F → System → Type 0
  AlertIn polling s = HasWork s → IsAlerted s
  AlertIn (handling b) s = Unit
  AlertIn (running rest) s = s.loop.pending_functors ≢ [] → IsAlerted s
  AlertIn stopped s = Unit

  pub record Inv (s : System) : Type 0 where
    pub calling : s.loop.calling_pending_functors ≡ is_running s.phase
    pub alerted : AlertIn s.phase s

  -- Whoever queued a functor before `loop`, from another thread, has written to the eventfd or is about
  -- to, and no functor is being called.
  abbrev pub IsReady : ℕ → EventLoop ep ef F → Type 0
  IsReady waking l =
      (l.calling_pending_functors ≡ false)
      × (l.pending_functors ≢ [] → (0 < waking) ⊎ (ef.is_readable l.wakeup_counter ≡ true))

  pub start-Inv : (waking : ℕ) (l : EventLoop ep ef F) → IsReady waking l → Inv (start waking l)
  unfolding start
  start-Inv waking l (idle, alerted) = record {
    calling = idle;
    alerted = λ w. elim w [ inl h ↦ alerted h | inr e ↦ absurd (cc) ];
  }
