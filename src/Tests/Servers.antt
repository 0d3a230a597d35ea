-- ===== src/Tests/Servers.antt =====
-- The theorems on the server and on the life of a loop, at a server "s" on "h:80" that has one
-- connection in loop 1.
use head_write_muduo_epoll_c.Base.{
  ◌>>=◌, exited, ◌+◌, ◌≡◌, refl, true, false, none, some, [], ◌∷◌, OkUnless, lookup, text_key,
  arith,
}
use head_write_muduo_epoll_c.EventLoopThreadPool.{get_next_loop}
use head_write_muduo_epoll_c.TcpConnection.{new_connection}
use head_write_muduo_epoll_c.TcpServer.Passing.{
  PassedBy, close_through, establishment, accept_then_close,
}
use head_write_muduo_epoll_c.TcpServer.Accepting.{AcceptedAs, accepted_is_connected}
use head_write_muduo_epoll_c.TcpServer.{handle_accept, Ends, TcpServer, Net, conn_name, start}
use head_write_muduo_epoll_c.TcpServer
use head_write_muduo_epoll_c.TcpServer.Connections.{IsNumbered, Added, new_connection_adds}
use head_write_muduo_epoll_c.TcpServer.Refusal.{RefusedIn}
use head_write_muduo_epoll_c.Socket.{new_socket}
use head_write_muduo_epoll_c.Channel.{new_channel}
use head_write_muduo_epoll_c.Tests.{server_addr, client_addr, table_epoll, count_fd}
use head_write_muduo_epoll_c.Tests.Printing.{decimal}

abbrev server_without_connections : TcpServer
server_without_connections = record {
  base_loop = 1;
  ip_port = b'h' ∷ b':' ∷ b'8' ∷ b'0' ∷ [];
  name = b's' ∷ [];
  acceptor = record {
    accept_socket = new_socket 4;
    accept_channel = new_channel 400 4;
    has_new_connection = true;
    listenning = false;
  };
  thread_pool = record {
    base_loop = 1;
    name = b's' ∷ [];
    started = false;
    num_threads = 0;
    next = 0;
    thread_names = [];
    loops = [];
    initialised = [];
  };
  has_connection = true;
  has_message = true;
  has_write_complete = false;
  has_thread_init = false;
  started = 0;
  next_conn_id = 1;
  connections = [];
}

abbrev pub server : TcpServer
server = record server_without_connections {
  next_conn_id = 2;
  connections = (conn_name decimal server_without_connections 1, (100, 1)) ∷ [];
}

-- `getsockname` fails.
abbrev ends : Ends
ends = record { sockname = none; peer_addr = client_addr }

abbrev net : Net decimal table_epoll count_fd
net = record {
  loops = λ l. record {
    looping = true;
    quitting = false;
    calling_pending_functors = false;
    thread_id = l;
    poller = record { epoll = []; channels = []; events_size = 16 };
    wakeup_counter = 0;
    active_channels = [];
    pending_functors = [];
  };
  conns = λ a. new_connection a (a + 1) [] 0 server_addr client_addr;
  calls = λ a. [];
}

server-IsNumbered : IsNumbered decimal table_epoll count_fd server
unfolding conn_name
server-IsNumbered = ((1, omega arith, refl), tt)

base_chosen : (get_next_loop server.thread_pool).0 ≡ some 1
unfolding get_next_loop
base_chosen = refl

new_connection_adds_example :
    (lookup (conn_name decimal server 2) server.connections ≡ none)
    × OkUnless
        (RefusedIn decimal table_epoll count_fd 1 201 7 net)
        (Added decimal table_epoll count_fd (conn_name decimal server 2) (200, 1) server)
        (TcpServer.new_connection decimal table_epoll count_fd 1 200 201 7 ends (server, net))
new_connection_adds_example =
    new_connection_adds decimal table_epoll count_fd 1 200 201 7 ends server net base_chosen
      server-IsNumbered (omega arith) (omega arith)

accepted_is_connected_example :
    OkUnless
      (RefusedIn decimal table_epoll count_fd 1 201 7 net)
      (AcceptedAs decimal table_epoll count_fd 1 1 200 201 7 ends server net)
      (handle_accept decimal table_epoll count_fd 1 200 201
        (some (7, client_addr))
        server_addr
        none
        (server, net))
    × (handle_accept decimal table_epoll count_fd 1 200 201 none server_addr none (server, net)
        ≡ exited)
accepted_is_connected_example =
    accepted_is_connected decimal table_epoll count_fd 1 200 201 7 client_addr server_addr none
      server net refl base_chosen

accept_then_close_example :
    OkUnless
      (RefusedIn decimal table_epoll count_fd 1 201 7 net)
      (PassedBy decimal table_epoll count_fd 200 1 7 server)
      (handle_accept decimal table_epoll count_fd 3 200 201
          (some (7, client_addr))
          server_addr
          none
          (server, net)
        >>= establishment decimal table_epoll count_fd 200 1
        >>= close_through decimal table_epoll count_fd 1 3 200 1)
accept_then_close_example =
    accept_then_close decimal table_epoll count_fd 3 1 3 200 201 7 client_addr server_addr none
      server net refl base_chosen server-IsNumbered (omega arith) (omega arith) refl
