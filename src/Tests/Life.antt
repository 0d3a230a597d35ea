-- ===== src/Tests/Life.antt =====
-- The theorems on the life of a connection: it comes up, and its peer closes it.
use head_write_muduo_epoll_c.Base.{
  ◌≤◌, ◌<◌, ◌↔◌, ◌≡◌, refl, true, none, some, [], Outcome, ok, exited, arith,
}
use head_write_muduo_epoll_c.Buffer.{read_count, wrote, new_buffer, read_fd, writable_bytes, iovcnt}
use head_write_muduo_epoll_c.Channel.{
  with_reading, tie, new_channel, set_read_callback, set_write_callback, set_close_callback,
  set_error_callback, set_index, set_revent, is_none_event, is_writing, without_all, handle_event,
  handle_event_with_guard,
}
use head_write_muduo_epoll_c.Poller.{update_channel, update}
use head_write_muduo_epoll_c.EventLoop.{enable_reading, disable_all}
use head_write_muduo_epoll_c.EventLoop
use head_write_muduo_epoll_c.TcpConnection.{
  Session, connected, disconnected, disconnecting, connect_established, handle_read, after_read,
  handle_close, handle_write, with_channel, note_call, set_state, new_connection,
}
use head_write_muduo_epoll_c.TcpConnection.Flow.{IsWatched}
use head_write_muduo_epoll_c.TcpConnection.Handling.{
  Answers, Logged, handle, handle_each, handle_report, handle_error,
}
use head_write_muduo_epoll_c.TcpConnection.Life.{
  Phase, unreported, phase_after, agrees, rank, entry, Steps, here, then_, establishes, reports,
}
use head_write_muduo_epoll_c.TcpConnection.Life.Order.{
  newborn, callbacks_in_order, states_advance, state_tells_registration,
}
use head_write_muduo_epoll_c.Tests.{server_addr, client_addr, table_epoll, count_fd}
use head_write_muduo_epoll_c.Tests.Connections.{quiet_loop}

abbrev newcomer : Session table_epoll count_fd
newcomer = newborn table_epoll count_fd 100 200 [] 5 server_addr client_addr quiet_loop

abbrev session_of : Outcome (Session table_epoll count_fd) → Session table_epoll count_fd
session_of (ok s) = s
session_of exited = newcomer

abbrev logged_of : Outcome (Logged table_epoll count_fd) → Logged table_epoll count_fd
logged_of (ok r) = r
logged_of exited = (newcomer, [])

abbrev lively : Session table_epoll count_fd
lively = session_of (connect_established table_epoll count_fd newcomer)

lively_went : connect_established table_epoll count_fd newcomer ≡ ok lively
unfolding connect_established enable_reading EventLoop.update_channel update_channel update
    new_connection tie new_channel set_read_callback set_write_callback set_close_callback
    set_error_callback set_index set_state with_channel note_call with_reading
lively_went = refl

-- `readv` finds the end of the stream, and the socket has no error.
abbrev end_of_stream : Answers
end_of_stream = record {
  readv = λ base_length count. read_count 0 [] [];
  written = wrote 0;
  write_errno = 0;
  socket_error = some 0;
  getsockopt_errno = 0;
}

-- EPOLLIN, EPOLLERR and EPOLLHUP.
abbrev ended : Logged table_epoll count_fd
ended = logged_of (handle_report table_epoll count_fd 1 end_of_stream 25 true (lively, []))

ended_went : handle_report table_epoll count_fd 1 end_of_stream 25 true (lively, []) ≡ ok ended
unfolding handle_report handle_each handle handle_event handle_event_with_guard set_revent
    handle_read read_fd writable_bytes iovcnt after_read handle_close handle_write handle_error
    disable_all without_all is_none_event is_writing connect_established enable_reading
    EventLoop.update_channel update_channel update new_connection tie new_channel set_read_callback
    set_write_callback set_close_callback set_error_callback set_index set_state with_channel
    note_call with_reading new_buffer
ended_went = refl

lively-Steps : Steps table_epoll count_fd newcomer lively
unfolding new_connection
lively-Steps = then_ here (establishes refl lively_went)

watched_lively : entry table_epoll count_fd lively.loop lively.conn.channel.fd ≡ some (3, 200)
unfolding connect_established enable_reading EventLoop.update_channel update_channel update
    new_connection tie new_channel set_read_callback set_write_callback set_close_callback
    set_error_callback set_index set_state with_channel note_call with_reading
watched_lively = refl

ended-Steps : Steps table_epoll count_fd lively ended.0
ended-Steps = then_ here (
    reports 1 end_of_stream 25 true [] ended.1 (λ e. absurd (ground (arith, e, watched_lively)))
      refl ended_went)

whole-Steps : Steps table_epoll count_fd newcomer ended.0
whole-Steps = then_ lively-Steps (
    reports 1 end_of_stream 25 true [] ended.1 (λ e. absurd (ground (arith, e, watched_lively)))
      refl ended_went)

callbacks_in_order_example :
    (q : Phase) × (phase_after unreported ended.0.calls ≡ some q)
    × (agrees ended.0.conn.state q ≡ true)
callbacks_in_order_example =
    callbacks_in_order table_epoll count_fd 100 200 [] 5 server_addr client_addr quiet_loop refl
      whole-Steps

states_advance_example :
    (rank lively.conn.state ≤ rank ended.0.conn.state)
    × ((rank (set_state table_epoll count_fd disconnecting ended.0).conn.state
          < rank ended.0.conn.state)
        ↔ (ended.0.conn.state ≡ disconnected))
states_advance_example =
    states_advance table_epoll count_fd 100 200 [] 5 server_addr client_addr quiet_loop refl
      lively-Steps ended-Steps

state_tells_registration_example :
    (ended.0.conn.state ≡ connected
      → IsWatched table_epoll count_fd ended.0.loop ended.0.conn.channel)
    × (ended.0.conn.state ≡ disconnected
        → (entry table_epoll count_fd ended.0.loop ended.0.conn.channel.fd ≡ none)
          × (ended.0.conn.channel.events ≡ 0))
state_tells_registration_example =
    state_tells_registration table_epoll count_fd 100 200 [] 5 server_addr client_addr quiet_loop
      refl whole-Steps
