-- ===== src/TcpConnection.antt =====
-- TcpConnection.h and TcpConnection.cc. A `Session` is a connection with the loop that it belongs to
-- and the callbacks of the server that it has called so far; what those callbacks do is not modelled,
-- so a `send` from inside one is a later call here. The result of `write` and `readv` is an argument.
-- A callback is kept as whether it is set. The code tests only `writeCompleteCallback_`; any other one
-- is taken to be set where it is called, since calling an empty std::function throws.
pub mod Events
pub mod Flow
pub mod Sending
pub mod Writing
pub mod Stream
pub mod Aside
pub mod Closing
pub mod Queued
pub mod Handling
pub mod Destroying
pub mod Life
use head_write_muduo_epoll_c.Base.{
  ℕ, ◌+◌, ◌*◌, Bool, true, false, not, ◌&&◌, ◌||◌, Option, none, some, List, [], ◌∷◌, ◌++◌, length,
  take, drop, ltb, leb, ◌==◌, if◌then◌else◌, add_size, sub_size, Outcome, ok, exited, ◌>>=◌,
}
use head_write_muduo_epoll_c.Kernel.{Epoll, EventFd}
use head_write_muduo_epoll_c.Buffer.{
  Buffer, Readv, Written, write_failed, wrote, initial_size, new_buffer, readable_bytes,
  writable_bytes, peek, retrive, append, read_fd, write_fd,
}
use head_write_muduo_epoll_c.Channel.{
  Channel, new_channel, is_writing, tie, set_read_callback, set_write_callback, set_error_callback,
}
use head_write_muduo_epoll_c.Channel
use head_write_muduo_epoll_c.InetAddress.{InetAddress}
use head_write_muduo_epoll_c.Functor.{
  Functor, call_send_in_loop, call_shutdown_in_loop, call_write_complete, call_high_water_mark,
}
use head_write_muduo_epoll_c.Socket.{
  Socket, new_socket, shutdown_write, set_keep_alive, put_on_wire,
}
use head_write_muduo_epoll_c.EventLoop.{EventLoop, is_in_loop_thread, queue_in_loop, run_in_loop}
use head_write_muduo_epoll_c.EventLoop

pub data State : Type 0 where
  disconnected connecting connected disconnecting : State

abbrev pub same_state : State → State → Bool
same_state disconnected disconnected = true
same_state connecting connecting = true
same_state connected connected = true
same_state disconnecting disconnecting = true
same_state _ _ = false

-- The callbacks that are called with the connection; the first carries the state at the call.
pub data Call : Type 0 where
  connection_callback : State → Call
  message_callback close_callback write_complete_callback : Call
  high_water_mark_callback : ℕ → Call

-- Linux's errno values.
abbrev pub ewouldblock : ℕ
ewouldblock = 11

abbrev pub epipe : ℕ
epipe = 32

abbrev pub econnreset : ℕ
econnreset = 104

pub record TcpConnection : Type 0 where
  pub address : ℕ
  pub name : List ℕ
  pub state : State
  pub reading : Bool
  pub socket : Socket
  pub channel : Channel
  pub local_addr : InetAddress
  pub peer_addr : InetAddress
  pub has_connection : Bool
  pub has_message : Bool
  pub has_write_complete : Bool
  pub has_high_water_mark : Bool
  pub has_close : Bool
  pub high_water_mark : ℕ
  pub input : Buffer
  pub output : Buffer

-- The constructor: the addresses of the connection and of its channel, its name, its descriptor, and
-- the socket addresses of its two ends.
unfoldable pub new_connection : ℕ → ℕ → List ℕ → ℕ → InetAddress → InetAddress → TcpConnection
new_connection address channel_address name fd local_addr peer_addr = record {
  address = address;
  name = name;
  state = connecting;
  reading = true;
  socket = set_keep_alive true (new_socket fd);
  channel =
      set_error_callback
        (Channel.set_close_callback
          (set_write_callback (set_read_callback (new_channel channel_address fd) true) true) true)
        true;
  local_addr = local_addr;
  peer_addr = peer_addr;
  has_connection = false;
  has_message = false;
  has_write_complete = false;
  has_high_water_mark = false;
  has_close = false;
  high_water_mark = 64 * 1024 * 1024;
  input = new_buffer initial_size;
  output = new_buffer initial_size;
}

unfoldable pub is_connected : TcpConnection → Bool
is_connected c = same_state c.state connected

unfoldable pub set_connection_callback : Bool → TcpConnection → TcpConnection
set_connection_callback is_set c = record c { has_connection = is_set }

unfoldable pub set_message_callback : Bool → TcpConnection → TcpConnection
set_message_callback is_set c = record c { has_message = is_set }

unfoldable pub set_close_callback : Bool → TcpConnection → TcpConnection
set_close_callback is_set c = record c { has_close = is_set }

unfoldable pub set_write_complete_callback : Bool → TcpConnection → TcpConnection
set_write_complete_callback is_set c = record c { has_write_complete = is_set }

unfoldable pub set_high_water_mark_callback : ℕ → TcpConnection → TcpConnection
set_high_water_mark_callback mark c = record c {
  has_high_water_mark = true;
  high_water_mark = mark;
}

module _ (ep : Epoll) (ef : EventFd) where
  pub record Session : Type 0 where
    pub loop : EventLoop ep ef Functor
    pub conn : TcpConnection
    pub calls : List Call

  unfoldable pub set_state : State → Session → Session
  set_state state s = record s { conn = record s.conn { state = state } }

  unfoldable pub note_call : Call → Session → Session
  note_call c s = record s { calls = s.calls ++ c ∷ [] }

  unfoldable pub queue : ℕ → Functor → Session → Session
  queue tid f s = record s { loop = queue_in_loop ep ef Functor tid f s.loop }

  -- The loop and the channel after a call that changes the channel's registration.
  unfoldable pub with_channel : Session → EventLoop ep ef Functor × Channel → Session
  with_channel s r = record s { loop = r.0; conn = record s.conn { channel = r.1 } }

  -- What the first part of `sendInLoop` leaves: the session, `nwrote`, `remaining` and `faultError`.
  pub record Attempt : Type 0 where
    pub session : Session
    pub nwrote : ℕ
    pub remaining : ℕ
    pub fault_error : Bool

  -- `write` of the whole data to the descriptor.
  unfoldable pub write_now : ℕ → Written → List ℕ → Session → Attempt
  write_now tid (wrote n) bytes s =
      let remaining = sub_size (length bytes) n in
      let sent = record s {
        conn = record s.conn { socket = put_on_wire (take n bytes) s.conn.socket };
      } in
      record {
        session =
            if remaining == 0 && s.conn.has_write_complete
            then queue tid (call_write_complete s.conn.address) sent
            else sent;
        nwrote = n;
        remaining = remaining;
        fault_error = false;
      }
  write_now tid (write_failed errno) bytes s = record {
    session = s;
    nwrote = 0;
    remaining = length bytes;
    fault_error = not (errno == ewouldblock) && (errno == epipe || errno == econnreset);
  }

  -- `write` is called only if no earlier data waits.
  unfoldable pub attempt : ℕ → Written → List ℕ → Session → Attempt
  attempt tid result bytes s =
      if not (is_writing s.conn.channel) && readable_bytes s.conn.output == 0
      then write_now tid result bytes s
      else record { session = s; nwrote = 0; remaining = length bytes; fault_error = false }

  -- The test of the high-water mark; `oldlen` is what the code takes for the length of the data that
  -- waits.
  unfoldable pub check_mark : ℕ → ℕ → Session → Session
  check_mark tid remaining s =
      let oldlen = writable_bytes s.conn.output in
      let mark = s.conn.high_water_mark in
      if leb mark (add_size oldlen remaining) && (ltb oldlen mark && not (mark == 0))
      then queue tid (call_high_water_mark s.conn.address (add_size oldlen remaining)) s
      else s

  -- The second part of `sendInLoop`: `rest` is `data + nwrote`, `remaining` bytes long.
  unfoldable pub keep_rest : ℕ → List ℕ → Session → Outcome Session
  keep_rest tid rest s =
      let marked = check_mark tid (length rest) s in
      let kept = record marked {
        conn = record marked.conn { output = append marked.conn.output rest };
      } in
      if not (is_writing kept.conn.channel)
      then (EventLoop.enable_writing ep ef Functor kept.loop kept.conn.channel >>= λ r.
          ok (with_channel kept r))
      else ok kept

  unfoldable pub finish_send : ℕ → List ℕ → Attempt → Outcome Session
  finish_send tid bytes a =
      if not a.fault_error && ltb 0 a.remaining
      then keep_rest tid (take a.remaining (drop a.nwrote bytes)) a.session
      else ok a.session

  unfoldable pub send_in_loop : ℕ → Written → List ℕ → Session → Outcome Session
  send_in_loop tid result bytes s =
      if same_state s.conn.state disconnected
      then ok s
      else finish_send tid bytes (attempt tid result bytes s)

  -- From another thread the call is queued; `runInLoop` tests the thread once more.
  unfoldable pub send : ℕ → Written → List ℕ → Session → Outcome Session
  send tid result bytes s =
      if same_state s.conn.state connected
      then (if is_in_loop_thread ep ef Functor s.loop tid
          then send_in_loop tid result bytes s
          else run_in_loop ep ef Functor (send_in_loop tid result bytes s)
              (λ l. record s { loop = l }) tid (call_send_in_loop s.conn.address bytes) s.loop)
      else ok s

  unfoldable pub shutdown_in_loop : Session → Session
  shutdown_in_loop s =
      if not (is_writing s.conn.channel)
      then record s { conn = record s.conn { socket = shutdown_write s.conn.socket } }
      else s

  unfoldable pub shutdown : ℕ → Session → Outcome Session
  shutdown tid s =
      if same_state s.conn.state connected
      then (let s' = set_state disconnecting s in
          run_in_loop ep ef Functor (ok (shutdown_in_loop s')) (λ l. record s' { loop = l }) tid
            (call_shutdown_in_loop s.conn.address) s'.loop)
      else ok s

  unfoldable pub connect_established : Session → Outcome Session
  connect_established s =
      let s' = set_state connected s in
      EventLoop.enable_reading ep ef Functor s'.loop (tie s'.conn.channel) >>= λ r.
      ok (note_call (connection_callback connected) (with_channel s' r))

  unfoldable pub remove : Session → Outcome Session
  remove s =
      EventLoop.remove_channel ep ef Functor s.loop s.conn.channel >>= λ r. ok (with_channel s r)

  unfoldable pub connect_destroyed : Session → Outcome Session
  connect_destroyed s =
      if same_state s.conn.state connected
      then (let s' = set_state disconnected s in
          EventLoop.disable_all ep ef Functor s'.loop s'.conn.channel >>= λ r.
          remove (note_call (connection_callback disconnected) (with_channel s' r)))
      else remove s

  unfoldable pub handle_close : Session → Outcome Session
  handle_close s =
      let s' = set_state disconnected s in
      EventLoop.disable_all ep ef Functor s'.loop s'.conn.channel >>= λ r.
      ok (
        note_call close_callback (note_call (connection_callback disconnected) (with_channel s' r)))

  -- `handleError` reads the socket's error and logs it, so an error changes nothing here.
  unfoldable pub after_read : Option ℕ → Session → Outcome Session
  after_read none s = ok s
  after_read (some n) s = if n == 0 then handle_close s else ok (note_call message_callback s)

  unfoldable pub handle_read : (ℕ → ℕ → Readv) → Session → Outcome Session
  handle_read readv s =
      let (n, saved, input) = read_fd readv s.conn.input in
      after_read n (record s { conn = record s.conn { input = input } })

  unfoldable pub tell_written : ℕ → Session → Session
  tell_written tid s =
      if s.conn.has_write_complete then queue tid (call_write_complete s.conn.address) s else s

  -- The buffer is empty, and the channel no longer waits for room to write.
  unfoldable pub all_written : ℕ → Session → Session
  all_written tid s =
      let told = tell_written tid s in
      if same_state told.conn.state disconnecting then shutdown_in_loop told else told

  -- The part of `handleWrite` after `writeFd` accepted `n` bytes, `n > 0`.
  unfoldable pub after_write : ℕ → ℕ → Session → Outcome Session
  after_write tid n s =
      let sent = record s {
        conn = record s.conn {
          socket =
              put_on_wire (take n (take (readable_bytes s.conn.output) (peek s.conn.output)))
                s.conn.socket;
          output = retrive s.conn.output n;
        };
      } in
      if readable_bytes sent.conn.output == 0
      then (EventLoop.disable_writing ep ef Functor sent.loop sent.conn.channel >>= λ r.
          ok (all_written tid (with_channel sent r)))
      else ok sent

  unfoldable pub wrote_some : ℕ → Option ℕ → Session → Outcome Session
  wrote_some tid none s = ok s
  wrote_some tid (some n) s = if ltb 0 n then after_write tid n s else ok s

  unfoldable pub handle_write : ℕ → ℕ → Written → Session → Outcome Session
  handle_write tid errno result s =
      if is_writing s.conn.channel
      then wrote_some tid (write_fd s.conn.output errno result).0 s
      else ok s
