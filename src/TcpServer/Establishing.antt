-- ===== src/TcpServer/Establishing.antt =====
-- TcpServer.cc and TcpConnection.cc: a new connection in the loop that it belongs to, whether it is
-- established at once or by that loop later.
use head_write_muduo_epoll_c.Base.{
  ℕ, ◌≡◌, refl, sym, ◌∙◌, subst, Bool, true, false, none, some, List, [], ◌∷◌, ◌++◌, ok, ◌>>=◌,
  OkUnless, OkUnless-bind, ==_refl, ◌==◌, text_key, if_cases, if◌then◌else◌,
}
use head_write_muduo_epoll_c.Kernel.{Epoll, EventFd, Decimal}
use head_write_muduo_epoll_c.Buffer.{new_buffer}
use head_write_muduo_epoll_c.Channel.{new, tie, with_reading}
use head_write_muduo_epoll_c.Channel.Masks.{IsInterest}
use head_write_muduo_epoll_c.Functor.{Functor, call_connect_established}
use head_write_muduo_epoll_c.Poller.Sync.{Refused}
use head_write_muduo_epoll_c.EventLoop.{
  is_in_loop_thread, run_in_loop, enable_reading, queue_in_loop,
}
use head_write_muduo_epoll_c.TcpConnection.{
  TcpConnection, Session, connected, connecting, connection_callback, connect_established,
  set_state, with_channel, note_call,
}
use head_write_muduo_epoll_c.TcpConnection.Flow.{IsWatched, enable_reading-IsWatched}
use head_write_muduo_epoll_c.TcpServer.{
  Ends, TcpServer, Net, put_conn, put_loop, on_conn, run_on_conn,
}
use head_write_muduo_epoll_c.TcpServer.Left.{queue_in_loop-poller}

module _ (dec : Decimal) (ep : Epoll) (ef : EventFd) where
  -- What `connectEstablished` leaves of a new connection.
  pub record Up (s t : Session ep ef) : Type 0 where
    pub watched : IsWatched ep ef t.loop t.conn.channel
    pub fd : t.conn.channel.fd ≡ s.conn.channel.fd
    pub conn : t.conn ≡ record s.conn { state = connected; channel = t.conn.channel }
    pub calls : t.calls ≡ s.calls ++ connection_callback connected ∷ []
    pub pending : t.loop.pending_functors ≡ s.loop.pending_functors

  pub connect_established-Up :
      (s : Session ep ef)
      → s.conn.channel.index ≡ new
      → IsInterest s.conn.channel
      → OkUnless
          (Refused ep s.loop.poller (with_reading (tie s.conn.channel)))
          (Up s)
          (connect_established ep ef s)
  unfolding connect_established with_channel note_call set_state tie
  connect_established-Up s index interest =
      OkUnless-bind (Refused ep s.loop.poller (with_reading (tie s.conn.channel))) _ (Up s)
        (enable_reading ep ef Functor s.loop (tie s.conn.channel)) _
        (enable_reading-IsWatched ep ef s.loop (tie s.conn.channel) index interest)
        λ r w. record { watched = w.0; fd = w.2; conn = refl; calls = refl; pending = w.3 }

  -- The connection that `newConnection` is to make, field by field, before `connectEstablished`: the
  -- callbacks are the server's, the two ends are those of the descriptor (all zero here, where
  -- `getsockname` gave nothing), and SO_KEEPALIVE is set.
  abbrev pub wanted : ℕ → ℕ → List ℕ → ℕ → Ends → TcpServer → TcpConnection
  wanted address channel_address name sockfd ends s = record {
    address = address;
    name = name;
    state = connecting;
    reading = true;
    socket = record {
      fd = sockfd;
      wire = [];
      write_shut = false;
      tcp_no_delay = false;
      reuse_addr = false;
      reuse_port = false;
      keep_alive = true;
    };
    channel = record {
      address = channel_address;
      fd = sockfd;
      events = 0;
      revents = 0;
      index = new;
      tied = false;
      has_read = true;
      has_write = true;
      has_close = true;
      has_error = true;
    };
    local_addr = record {
      addr = elim ends.sockname [
        | none ↦ record { sin_family = 0; sin_port = 0; sin_addr = 0 }
        | some local ↦ local
      ];
    };
    peer_addr = ends.peer_addr;
    has_connection = s.has_connection;
    has_message = s.has_message;
    has_write_complete = s.has_write_complete;
    has_high_water_mark = false;
    has_close = true;
    high_water_mark = 67108864;
    input = new_buffer 1024;
    output = new_buffer 1024;
  }

  -- In the thread of its loop a connection is up at once: it is connected, epoll watches its descriptor
  -- for input, and its user has been told. From another thread its loop is left to do this: it has
  -- the functor as its last.
  pub record Connected (here : Bool) (io address sockfd : ℕ) (c : TcpConnection)
      (before after : Net dec ep ef) : Type 0 where
    pub conn : after.conns address ≡ (
        if here then record c { state = connected; channel = (after.conns address).channel } else c)
    pub fd : (after.conns address).channel.fd ≡ sockfd
    pub calls : after.calls address ≡ (if here then connection_callback connected ∷ [] else [])
    pub watched : here ≡ true → IsWatched ep ef (after.loops io) (after.conns address).channel
    pub kept : here ≡ true → (after.loops io).pending_functors ≡ (before.loops io).pending_functors
    pub queued :
        here ≡ false
        → (after.loops io).pending_functors
          ≡ (before.loops io).pending_functors ++ call_connect_established address ∷ []
    pub poller : here ≡ false → (after.loops io).poller ≡ (before.loops io).poller

  module _ (tid io address sockfd : ℕ) (c : TcpConnection) (net : Net dec ep ef)
      (index : c.channel.index ≡ new) (interest : IsInterest c.channel)
      (fd : c.channel.fd ≡ sockfd) where
    abbrev NotTaken : Type 0
    NotTaken = Refused ep (net.loops io).poller (with_reading (tie c.channel))

    abbrev arrived : Session ep ef
    arrived = record { loop = net.loops io; conn = c; calls = [] }

    abbrev placed : Net dec ep ef
    placed = put_conn dec ep ef address c net

    session_placed :
        ◌≡◌ {A = Session ep ef}
          (record {
            loop = placed.loops io;
            conn = placed.conns address;
            calls = placed.calls address;
          })
          arrived
    unfolding put_conn
    session_placed = rw (==_refl address) refl

    at_once :
        OkUnless NotTaken
          (Connected true io address sockfd c net)
          (on_conn dec ep ef address io (connect_established ep ef) placed)
    unfolding on_conn
    at_once =
        subst
          (λ s. OkUnless NotTaken (Connected true io address sockfd c net) (
            connect_established ep ef s >>= λ t. ok (record {
              loops = λ j. if j == io then t.loop else placed.loops j;
              conns = λ j. if j == address then t.conn else placed.conns j;
              calls = λ j. if j == address then t.calls else placed.calls j;
            })))
          (sym session_placed)
          (OkUnless-bind NotTaken (Up arrived) (Connected true io address sockfd c net) _ _
            (connect_established-Up arrived index interest)
            λ t u. record {
              conn = rw (==_refl address) u.conn;
              fd = rw (==_refl address) (u.fd ∙ fd);
              calls = rw (==_refl address) u.calls;
              watched = λ e. rw (==_refl address, ==_refl io) u.watched;
              kept = λ e. rw (==_refl io) u.pending;
              queued = λ e. absurd (cc);
              poller = λ e. absurd (cc);
            })

    later : Connected false io address sockfd c net (
        put_loop dec ep ef io
          (queue_in_loop ep ef Functor tid (call_connect_established address) (placed.loops io))
          placed)
    unfolding put_loop put_conn
    later = record {
      conn = rw (==_refl address) refl;
      fd = rw (==_refl address) fd;
      calls = rw (==_refl address) refl;
      watched = λ e. absurd (cc);
      kept = λ e. absurd (cc);
      queued = λ e. rw (==_refl io) (queue_in_loop-poller dec ep ef tid _ (net.loops io)).2;
      poller = λ e. rw (==_refl io) (queue_in_loop-poller dec ep ef tid _ (net.loops io)).0;
    }

    pub run_on_conn-Connected :
        OkUnless NotTaken
          (Connected (is_in_loop_thread ep ef Functor (net.loops io) tid) io address sockfd c net)
          (run_on_conn dec ep ef tid address io
            (connect_established ep ef)
            (call_connect_established address)
            placed)
    unfolding run_on_conn run_in_loop put_conn
    run_on_conn-Connected =
        let here = is_in_loop_thread ep ef Functor (net.loops io) tid in
        if_cases (OkUnless NotTaken (Connected here io address sockfd c net)) here
          (λ e.
            subst
              (λ b.
                OkUnless NotTaken (Connected b io address sockfd c net)
                  (on_conn dec ep ef address io (connect_established ep ef) placed))
              (sym e) at_once)
          (λ e.
            subst
              (λ b. Connected b io address sockfd c net (
                put_loop dec ep ef io
                  (queue_in_loop ep ef Functor tid (call_connect_established address)
                    (placed.loops io))
                  placed))
              (sym e) later)
