-- ===== src/Socket.antt =====
-- Socket.h and Socket.cc, the part that a connection uses, with what the kernel has been handed:
-- `wire` is every byte that `write` accepted for the descriptor, oldest first, and `write_shut` says
-- whether `shutdown(SHUT_WR)` was called. The options that `setsockopt` was called for are kept too.
use head_write_muduo_epoll_c.Base.{
  ℕ, Bool, true, false, Option, none, some, List, [], ◌++◌, Outcome, ok, exited,
}

pub record Socket : Type 0 where
  pub fd : ℕ
  pub wire : List ℕ
  pub write_shut : Bool
  pub tcp_no_delay : Bool
  pub reuse_addr : Bool
  pub reuse_port : Bool
  pub keep_alive : Bool

unfoldable pub new_socket : ℕ → Socket
new_socket fd = record {
  fd = fd;
  wire = [];
  write_shut = false;
  tcp_no_delay = false;
  reuse_addr = false;
  reuse_port = false;
  keep_alive = false;
}

-- A failed `bind` or `listen` ends the process; the argument is whether the call succeeded.
unfoldable pub bind_address : Bool → Socket → Outcome Socket
bind_address true s = ok s
bind_address false s = exited

unfoldable pub listen : Bool → Socket → Outcome Socket
listen true s = ok s
listen false s = exited

-- `accept`, with the descriptor and the peer's address that `accept4` gives (none is -1).
unfoldable pub accept {ℓ} : {Addr : Type ℓ} → Option (ℕ × Addr) → Addr → Option ℕ × Addr
accept none peeraddr = (none, peeraddr)
accept (some (connfd, addr)) peeraddr = (some connfd, addr)

-- A failure of `shutdown` is only logged.
unfoldable pub shutdown_write : Socket → Socket
shutdown_write s = record s { write_shut = true }

unfoldable pub set_tcp_no_delay : Bool → Socket → Socket
set_tcp_no_delay on s = record s { tcp_no_delay = on }

unfoldable pub set_reuse_addr : Bool → Socket → Socket
set_reuse_addr on s = record s { reuse_addr = on }

unfoldable pub set_reuse_port : Bool → Socket → Socket
set_reuse_port on s = record s { reuse_port = on }

unfoldable pub set_keep_alive : Bool → Socket → Socket
set_keep_alive on s = record s { keep_alive = on }

-- The bytes that `write` took.
unfoldable pub put_on_wire : List ℕ → Socket → Socket
put_on_wire bytes s = record s { wire = s.wire ++ bytes }
