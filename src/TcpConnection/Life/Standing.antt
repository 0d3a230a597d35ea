-- ===== src/TcpConnection/Life/Standing.antt =====
-- TcpConnection.cc: what the state of a connection says of the registration of its channel.
use head_write_muduo_epoll_c.Base.{
  ℕ, true, false, ◌≡◌, ◌≢◌, refl, ◌∙◌, none, IfOk, IfOk-bind, IfOk-map, IfOk-Returns, arith,
}
use head_write_muduo_epoll_c.Kernel.{Epoll, EventFd}
use head_write_muduo_epoll_c.Channel.{
  Channel, Index, new, added, deleted, is_writing, is_reading, set_revent, with_writing,
  without_writing,
}
use head_write_muduo_epoll_c.Functor.{Functor}
use head_write_muduo_epoll_c.Poller.Unwatched.{UnwatchedNow}
use head_write_muduo_epoll_c.Poller.Unwatched
use head_write_muduo_epoll_c.Poller.Sync.{UnwatchedAs}
use head_write_muduo_epoll_c.EventLoop.{EventLoop, update_channel, enable_writing, disable_writing}
use head_write_muduo_epoll_c.TcpConnection.{
  State, disconnected, connecting, connected, disconnecting,
}
use head_write_muduo_epoll_c.TcpConnection.Flow.{
  IsWatched, enable_writing-IsWatched, disable_writing-IsWatched,
}
use head_write_muduo_epoll_c.TcpConnection.Life.{entry}

module _ (ep : Epoll) (ef : EventFd) where
  -- While the connection comes up, its channel is new; while it is up, epoll watches it for input; once
  -- it is down, epoll does not watch it, and it asks for nothing.
  abbrev pub Standing : State → EventLoop ep ef Functor → Channel → Type 0
  Standing connecting l c = (c.index ≡ new) × (c.events ≡ 0) × (entry ep ef l c.fd ≡ none)
  Standing connected l c = IsWatched ep ef l c
  Standing disconnecting l c = UnwatchedAs ep c.index l.poller.epoll c
  Standing disconnected l c = (entry ep ef l c.fd ≡ none) × (c.events ≡ 0)

  pub UnwatchedAs-entry :
      (i : Index) (l : EventLoop ep ef Functor) (c : Channel)
      → entry ep ef l c.fd ≡ none
      → UnwatchedAs ep i l.poller.epoll c
  UnwatchedAs-entry new l c e = e
  UnwatchedAs-entry added l c e = tt
  UnwatchedAs-entry deleted l c e = e

  UnwatchedAs-same :
      (i : Index) (l l' : EventLoop ep ef Functor) (c : Channel)
      → entry ep ef l' c.fd ≡ entry ep ef l c.fd
      → UnwatchedAs ep i l.poller.epoll c
      → UnwatchedAs ep i l'.poller.epoll c
  UnwatchedAs-same new l l' c e h = e ∙ h
  UnwatchedAs-same added l l' c e h = tt
  UnwatchedAs-same deleted l l' c e h = e ∙ h

  pub Standing-same :
      (state : State) (l l' : EventLoop ep ef Functor) (c : Channel)
      → entry ep ef l' c.fd ≡ entry ep ef l c.fd
      → Standing state l c
      → Standing state l' c
  Standing-same connecting l l' c e h = (h.0, h.1, e ∙ h.2)
  Standing-same connected l l' c e w = record {
    index_added = w.index_added;
    interest = w.interest;
    reading = w.reading;
    registered = e ∙ w.registered;
  }
  Standing-same disconnecting l l' c e h = UnwatchedAs-same c.index l l' c e h
  Standing-same disconnected l l' c e h = (e ∙ h.0, h.1)

  index_of_watched :
      (i : Index) (l : EventLoop ep ef Functor) (c : Channel)
      → UnwatchedAs ep i l.poller.epoll c
      → entry ep ef l c.fd ≢ none
      → i ≡ added
  index_of_watched new l c h ne = absurd (ne h)
  index_of_watched added l c h ne = refl
  index_of_watched deleted l c h ne = absurd (ne h)

  -- Where epoll watches the channel, the connection is up, and the poller knows it.
  pub Standing-added :
      (state : State) (l : EventLoop ep ef Functor) (c : Channel)
      → Standing state l c
      → entry ep ef l c.fd ≢ none
      → c.index ≡ added
  Standing-added connecting l c h ne = absurd (ne h.2)
  Standing-added connected l c w ne = w.index_added
  Standing-added disconnecting l c h ne = index_of_watched c.index l c h ne
  Standing-added disconnected l c h ne = absurd (ne h.0)

  abbrev pub IsUp : State → Type 0
  IsUp connected = Unit
  IsUp disconnecting = Unit
  IsUp _ = ⊥

  -- Where epoll watches the channel, or it asks for room to write, the connection is up.
  pub watched-IsUp :
      (state : State) (l : EventLoop ep ef Functor) (c : Channel)
      → Standing state l c
      → entry ep ef l c.fd ≢ none
      → IsUp state
  watched-IsUp connecting l c h ne = absurd (ne h.2)
  watched-IsUp connected l c h ne = tt
  watched-IsUp disconnecting l c h ne = tt
  watched-IsUp disconnected l c h ne = absurd (ne h.0)

  is_writing-asks : (c : Channel) → is_writing c ≡ true → c.events ≢ 0
  unfolding is_writing
  is_writing-asks c h e = ground arith

  pub writing-IsUp :
      (state : State) (l : EventLoop ep ef Functor) (c : Channel)
      → Standing state l c
      → is_writing c ≡ true
      → IsUp state
  writing-IsUp connecting l c h busy = absurd (is_writing-asks c busy h.1)
  writing-IsUp connected l c h busy = tt
  writing-IsUp disconnecting l c h busy = tt
  writing-IsUp disconnected l c h busy = absurd (is_writing-asks c busy h.1)

  UnwatchedAs-set_revent :
      (i : Index) (l : EventLoop ep ef Functor) (c : Channel) (revents : ℕ)
      → UnwatchedAs ep i l.poller.epoll c
      → UnwatchedAs ep i l.poller.epoll (set_revent c revents)
  unfolding set_revent
  UnwatchedAs-set_revent new l c revents h = h
  UnwatchedAs-set_revent added l c revents h = tt
  UnwatchedAs-set_revent deleted l c revents h = h

  pub Standing-set_revent :
      (state : State) (l : EventLoop ep ef Functor) (c : Channel) (revents : ℕ)
      → Standing state l c
      → Standing state l (set_revent c revents)
  unfolding set_revent is_reading
  Standing-set_revent connecting l c revents h = h
  Standing-set_revent connected l c revents w = record {
    index_added = w.index_added;
    interest = w.interest;
    reading = w.reading;
    registered = w.registered;
  }
  Standing-set_revent disconnecting l c revents h = UnwatchedAs-set_revent c.index l c revents h
  Standing-set_revent disconnected l c revents h = h

  update_channel-Unwatched :
      (l : EventLoop ep ef Functor) (c : Channel)
      → IfOk (λ r. UnwatchedAs ep r.1.index r.0.poller.epoll r.1) (update_channel ep ef Functor l c)
  unfolding update_channel
  update_channel-Unwatched l c =
      IfOk-bind (UnwatchedNow ep) (λ r. UnwatchedAs ep r.1.index r.0.poller.epoll r.1) _ _
        (Unwatched.update_channel-Unwatched ep l.poller c) λ r h. h

  pub enable_writing-Standing :
      (state : State) (l : EventLoop ep ef Functor) (c : Channel)
      → IsUp state
      → Standing state l c
      → IfOk (λ r. Standing state r.0 r.1) (enable_writing ep ef Functor l c)
  unfolding enable_writing
  enable_writing-Standing connected l c up w =
      IfOk-map (λ r. IsWatched ep ef r.0 r.1 × (is_writing r.1 ≡ true)) _
        (enable_writing ep ef Functor l c) (λ r h. h.0)
        (IfOk-Returns (λ r. IsWatched ep ef r.0 r.1 × (is_writing r.1 ≡ true)) _
          (enable_writing-IsWatched ep ef l c w))
  enable_writing-Standing disconnecting l c up h = update_channel-Unwatched l (with_writing c)
  enable_writing-Standing connecting l c up h = absurd up
  enable_writing-Standing disconnected l c up h = absurd up

  pub disable_writing-Standing :
      (state : State) (l : EventLoop ep ef Functor) (c : Channel)
      → IsUp state
      → Standing state l c
      → IfOk (λ r. Standing state r.0 r.1) (disable_writing ep ef Functor l c)
  unfolding disable_writing
  disable_writing-Standing connected l c up w =
      IfOk-map (λ r. IsWatched ep ef r.0 r.1 × (is_writing r.1 ≡ false)) _
        (disable_writing ep ef Functor l c) (λ r h. h.0)
        (IfOk-Returns (λ r. IsWatched ep ef r.0 r.1 × (is_writing r.1 ≡ false)) _
          (disable_writing-IsWatched ep ef l c w))
  disable_writing-Standing disconnecting l c up h = update_channel-Unwatched l (without_writing c)
  disable_writing-Standing connecting l c up h = absurd up
  disable_writing-Standing disconnected l c up h = absurd up
