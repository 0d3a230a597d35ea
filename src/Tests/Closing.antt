-- ===== src/Tests/Closing.antt =====
-- The theorems on the end of a connection: a server in loop 0, and the connection of
-- Tests/Connections.antt in loop 1, each loop in the thread of its number.
use head_write_muduo_epoll_c.Base.{
  ◌≡◌, refl, true, false, none, [], ◌∷◌, ◌==◌, if◌then◌else◌, ok, ◌>>=◌, Returns, OkUnless, lookup,
  nat_key, arith,
}
use head_write_muduo_epoll_c.Buffer.{write_failed}
use head_write_muduo_epoll_c.Channel.{is_writing, with_writing}
use head_write_muduo_epoll_c.Poller.Sync.{Refused}
use head_write_muduo_epoll_c.TcpConnection.{
  Session, disconnecting, connect_destroyed, send_in_loop, ewouldblock,
}
use head_write_muduo_epoll_c.TcpConnection.Destroying.{
  Destroyed, Rewatched, destroy_tells_connected_only, late_send_rewatches,
}
use head_write_muduo_epoll_c.TcpServer.Lifetime.{HandedOn, closing_keeps_alive}
use head_write_muduo_epoll_c.EventLoop.{is_in_loop_thread}
use head_write_muduo_epoll_c.TcpServer.{TcpServer, Net, destroy_server}
use head_write_muduo_epoll_c.TcpServer.Destructor.{AllDue, Untouched, destroy_server_hands_over}
use head_write_muduo_epoll_c.TcpServer.Closing.{
  Gone, close_connection, removal, destruction, closed_connection-Gone,
}
use head_write_muduo_epoll_c.Tests.{table_epoll, count_fd}
use head_write_muduo_epoll_c.Tests.Connections.{
  quiet_loop, waiting, waiting-IsWatched, flushed, flushed-Flowing,
}
use head_write_muduo_epoll_c.Tests.Printing.{decimal}
use head_write_muduo_epoll_c.Tests.Servers.{server}

abbrev two_loops : Net decimal table_epoll count_fd
two_loops = record {
  loops = λ l. if l == 1 then waiting.loop else record quiet_loop { thread_id = l };
  conns = λ a. waiting.conn;
  calls = λ a. [];
}

abbrev elsewhere : TcpServer
elsewhere = record server { base_loop = 0 }

closed_connection-Gone_example :
    (u : TcpServer × Net decimal table_epoll count_fd) × ((close_connection decimal table_epoll
          count_fd 1 100 1
          (elsewhere, two_loops)
        >>= removal decimal table_epoll count_fd 0 100 1
        >>= destruction decimal table_epoll count_fd 100 1)
      ≡ ok u)
    × Gone decimal table_epoll count_fd 100 1 elsewhere two_loops u
closed_connection-Gone_example =
    closed_connection-Gone decimal table_epoll count_fd 1 0 100 1 elsewhere two_loops
      waiting-IsWatched

closing_keeps_alive_example :
    Returns
      (HandedOn decimal table_epoll count_fd 0 100 1)
      (close_connection decimal table_epoll count_fd 1 100 1 (elsewhere, two_loops))
closing_keeps_alive_example =
    closing_keeps_alive decimal table_epoll count_fd 1 0 100 1 elsewhere two_loops waiting-IsWatched

destroy_tells_connected_only_example :
    (t : Session table_epoll count_fd) × (connect_destroyed table_epoll count_fd waiting ≡ ok t)
    × Destroyed table_epoll count_fd true waiting t
destroy_tells_connected_only_example =
    destroy_tells_connected_only table_epoll count_fd waiting waiting-IsWatched

-- A connection that has been shut down, with all data written.
abbrev leaving : Session table_epoll count_fd
leaving = record flushed { conn = record flushed.conn { state = disconnecting } }

leaving-idle : is_writing leaving.conn.channel ≡ false
unfolding is_writing
leaving-idle = refl

late_send_rewatches_example :
    (t : Session table_epoll count_fd) × (connect_destroyed table_epoll count_fd leaving ≡ ok t)
    × (lookup 5 t.loop.poller.epoll ≡ none)
    × OkUnless
        (Refused table_epoll t.loop.poller (with_writing t.conn.channel))
        (Rewatched table_epoll count_fd t.conn.channel)
        (send_in_loop table_epoll count_fd 1 (write_failed ewouldblock) (9 ∷ []) t)
late_send_rewatches_example =
    late_send_rewatches table_epoll count_fd 1 (9 ∷ []) leaving flushed-Flowing.watched refl
      leaving-idle (omega arith)

destroy_server_hands_over_example :
    (net' : Net decimal table_epoll count_fd) × (destroy_server decimal table_epoll count_fd 0
        (elsewhere, two_loops)
      ≡ ok net')
    × AllDue decimal table_epoll count_fd net' elsewhere.connections
    × Untouched decimal table_epoll count_fd two_loops net'
unfolding is_in_loop_thread
destroy_server_hands_over_example =
    destroy_server_hands_over decimal table_epoll count_fd 0 elsewhere two_loops (refl, tt)
