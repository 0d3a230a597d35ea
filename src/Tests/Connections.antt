-- ===== src/Tests/Connections.antt =====
-- The theorems on connections, at a connection with descriptor 5 in loop 1 of thread 1.
use head_write_muduo_epoll_c.Base.{
  ℕ, ◌≡◌, ◌≢◌, ◌⊎◌, refl, true, false, some, List, [], ◌∷◌, ◌++◌, Outcome, ok, exited, IfOk, arith,
  lookup, nat_key,
}
use head_write_muduo_epoll_c.Channel.{
  is_writing, is_reading, added, with_reading, with_writing, tie, new_channel, set_read_callback,
  set_write_callback, set_close_callback, set_error_callback, set_index, is_none_event,
}
use head_write_muduo_epoll_c.Buffer.{
  Buffer, Readv, read_count, wrote, readable_bytes, writable_bytes, iovcnt, new_buffer,
}
use head_write_muduo_epoll_c.Buffer.Bounds.{IsValid}
use head_write_muduo_epoll_c.Buffer.Contents.{contents}
use head_write_muduo_epoll_c.Buffer.Input.{Filled}
use head_write_muduo_epoll_c.Functor.{Functor}
use head_write_muduo_epoll_c.Poller.{update_channel, update}
use head_write_muduo_epoll_c.EventLoop.{
  EventLoop, enable_reading, enable_writing, is_in_loop_thread,
}
use head_write_muduo_epoll_c.EventLoop
use head_write_muduo_epoll_c.Socket.{put_on_wire}
use head_write_muduo_epoll_c.TcpConnection
use head_write_muduo_epoll_c.TcpConnection.{
  Session, connected, disconnected, connection_callback, close_callback, message_callback,
  connect_established, send_in_loop, attempt, write_now, finish_send, keep_rest, check_mark,
  handle_read, handle_close, connect_destroyed, shutdown_in_loop, with_channel, note_call,
  set_state, new_connection, set_connection_callback, set_message_callback,
  set_write_complete_callback, set_high_water_mark_callback,
}
use head_write_muduo_epoll_c.TcpConnection.Flow.{Flowing, IsWatched}
use head_write_muduo_epoll_c.TcpConnection.Stream.{
  prepared, sends, Run, here, next, stream_in_order,
}
use head_write_muduo_epoll_c.TcpConnection.Events.{handle_read_receives, high_water_ignores_backlog}
use head_write_muduo_epoll_c.Tests.{server_addr, client_addr, table_epoll, count_fd}

abbrev pub quiet_loop : EventLoop table_epoll count_fd Functor
quiet_loop = record {
  looping = true;
  quitting = false;
  calling_pending_functors = false;
  thread_id = 1;
  poller = record { epoll = []; channels = []; events_size = 16 };
  wakeup_counter = 0;
  active_channels = [];
  pending_functors = [];
}

abbrev unconnected : Session table_epoll count_fd
unconnected = record {
  loop = quiet_loop;
  conn = prepared 100 200 [] 5 server_addr client_addr false 64;
  calls = [];
}

-- A connection that is open, with the bytes 7, 8 and 9 waiting in a small output buffer.
abbrev pub small_output : Buffer
small_output = record {
  buffer = 0 ∷ 0 ∷ 0 ∷ 0 ∷ 0 ∷ 0 ∷ 0 ∷ 0 ∷ 7 ∷ 8 ∷ 9 ∷ 0 ∷ 0 ∷ [];
  reader_index = 8;
  writer_index = 11;
}

abbrev pub empty_output : Buffer
empty_output = record small_output { writer_index = 8 }

abbrev pub open_session : Buffer → List ℕ → ℕ → Session table_epoll count_fd
open_session output wire events = record {
  loop = record quiet_loop {
    poller = record { epoll = (5, (events, 200)) ∷ []; channels = (5, 200) ∷ []; events_size = 16 };
  };
  conn = record {
    address = 100;
    name = [];
    state = connected;
    reading = true;
    socket = record {
      fd = 5;
      wire = wire;
      write_shut = false;
      tcp_no_delay = false;
      reuse_addr = false;
      reuse_port = false;
      keep_alive = true;
    };
    channel = record {
      address = 200;
      fd = 5;
      events = events;
      revents = 0;
      index = added;
      tied = true;
      has_read = true;
      has_write = true;
      has_close = true;
      has_error = true;
    };
    local_addr = server_addr;
    peer_addr = client_addr;
    has_connection = true;
    has_message = true;
    has_write_complete = false;
    has_high_water_mark = true;
    has_close = true;
    high_water_mark = 6;
    input = small_output;
    output = output;
  };
  calls = [];
}

abbrev pub waiting : Session table_epoll count_fd
waiting = open_session small_output [] 7

pub waiting-IsWatched : IsWatched table_epoll count_fd waiting.loop waiting.conn.channel
unfolding is_reading
waiting-IsWatched = record {
  index_added = refl;
  interest = omega arith;
  reading = refl;
  registered = refl;
}

-- Three bytes wait and the mark is 6: four more reach it, but only two bytes are free.
waiting_bytes : readable_bytes waiting.conn.output ≡ 3
unfolding readable_bytes
waiting_bytes = refl

free_bytes : writable_bytes waiting.conn.output ≡ 2
unfolding writable_bytes
free_bytes = refl

high_water_ignores_backlog_example :
    IfOk
      (λ (t : Session table_epoll count_fd). t.loop.pending_functors ≡ [])
      (send_in_loop table_epoll count_fd 1 (wrote 0) (1 ∷ 2 ∷ 3 ∷ []) waiting)
high_water_ignores_backlog_example =
    high_water_ignores_backlog table_epoll count_fd 1 (wrote 0) (1 ∷ 2 ∷ 3 ∷ []) waiting
      (λ e. absurd (omega (arith, waiting_bytes))) (omega (arith, waiting_bytes))
      (omega (arith, waiting_bytes)) (omega (arith, free_bytes))

pub waiting_input-IsValid : IsValid waiting.conn.input
waiting_input-IsValid = omega arith

abbrev readv_one : ℕ → ℕ → Readv
readv_one base_length count = read_count 1 (4 ∷ 0 ∷ []) []

one_byte-Filled :
    Filled
      (writable_bytes waiting.conn.input)
      (iovcnt waiting.conn.input)
      1
      (4 ∷ [])
      (4 ∷ 0 ∷ [])
      []
unfolding writable_bytes iovcnt
one_byte-Filled = record {
  counted = refl;
  limited = omega arith;
  base_length = refl;
  base_filled = refl;
  extra_filled = refl;
}

handle_read_receives_example :
    (t : Session table_epoll count_fd) × (handle_read table_epoll count_fd readv_one waiting ≡ ok t)
    × (contents t.conn.input ≡ 7 ∷ 8 ∷ 9 ∷ 4 ∷ [])
    × (t.calls ≡ message_callback ∷ [])
    × (t.conn ≡ record waiting.conn { input = t.conn.input })
    × (t.loop ≡ waiting.loop)
    × IsValid t.conn.input
handle_read_receives_example =
    handle_read_receives table_epoll count_fd readv_one waiting waiting_input-IsValid refl
      one_byte-Filled (omega arith) (λ e. absurd (omega arith))

-- A connection whose two bytes have all been written.
abbrev pub flushed : Session table_epoll count_fd
flushed = open_session empty_output (7 ∷ 8 ∷ []) 3

pub flushed-Flowing : Flowing table_epoll count_fd (7 ∷ 8 ∷ []) flushed
unfolding is_reading is_writing
flushed-Flowing = record {
  stream = refl;
  valid = omega arith;
  bounded = omega arith;
  open_state = refl;
  watched = record {
    index_added = refl;
    interest = omega arith;
    reading = refl;
    registered = refl;
  };
  flushed = λ idle. refl;
  busy = λ writes. absurd (ground (arith, writes));
}

abbrev session_of : Outcome (Session table_epoll count_fd) → Session table_epoll count_fd
session_of (ok s) = s
session_of exited = waiting

abbrev established : Session table_epoll count_fd
established = session_of (connect_established table_epoll count_fd unconnected)

established_went : connect_established table_epoll count_fd unconnected ≡ ok established
unfolding connect_established enable_reading EventLoop.update_channel update_channel update
    new_connection set_connection_callback set_message_callback TcpConnection.set_close_callback
    set_write_complete_callback set_high_water_mark_callback tie new_channel set_read_callback
    set_write_callback set_close_callback set_error_callback set_index set_state with_channel
    note_call with_reading
established_went = refl

-- `write` takes two of the three bytes, and one waits.
abbrev partly_sent : Session table_epoll count_fd
partly_sent =
    session_of (send_in_loop table_epoll count_fd 1 (wrote 2) (7 ∷ 8 ∷ 9 ∷ []) established)

partly_sent_went :
    send_in_loop table_epoll count_fd 1 (wrote 2) (7 ∷ 8 ∷ 9 ∷ []) established ≡ ok partly_sent
unfolding send_in_loop connect_established enable_reading EventLoop.update_channel update_channel
    update new_connection set_connection_callback set_message_callback
    TcpConnection.set_close_callback set_write_complete_callback set_high_water_mark_callback tie
    new_channel set_read_callback set_write_callback set_close_callback set_error_callback set_index
    set_state with_channel note_call with_reading attempt write_now finish_send keep_rest check_mark
    enable_writing is_writing put_on_wire readable_bytes writable_bytes with_writing is_none_event
    new_buffer
partly_sent_went = refl

partly_sent-Run : Run table_epoll count_fd established (7 ∷ 8 ∷ 9 ∷ []) partly_sent
partly_sent-Run = next here (sends 1 (wrote 2) (omega arith) partly_sent_went) refl

stream_in_order_example :
    (partly_sent.conn.socket.wire ++ contents partly_sent.conn.output ≡ 7 ∷ 8 ∷ 9 ∷ [])
    × (lookup partly_sent.conn.channel.fd partly_sent.loop.poller.epoll
        ≡ some (partly_sent.conn.channel.events, partly_sent.conn.channel.address))
    × (((contents partly_sent.conn.output ≡ []) × (is_writing partly_sent.conn.channel ≡ false))
        ⊎ ((contents partly_sent.conn.output ≢ []) × (is_writing partly_sent.conn.channel ≡ true)))
stream_in_order_example =
    stream_in_order table_epoll count_fd 100 200 [] 5 server_addr client_addr false 64 quiet_loop []
      established_went partly_sent-Run (omega arith)
