-- ===== src/Acceptor.antt =====
-- Acceptor.h and Acceptor.cc. The results of the system calls are arguments: the descriptor of the new
-- socket, whether `bind` and `listen` succeed, and what `accept4` gives.
pub mod Handover
use head_write_muduo_epoll_c.Base.{
  ℕ, Bool, true, false, Option, none, some, List, [], ◌∷◌, ◌++◌, Outcome, ok, exited, ◌>>=◌,
  if◌then◌else◌,
}
use head_write_muduo_epoll_c.Kernel.{Epoll, EventFd}
use head_write_muduo_epoll_c.Channel.{Channel, new_channel, set_read_callback}
use head_write_muduo_epoll_c.Functor.{Functor}
use head_write_muduo_epoll_c.Socket.{
  Socket, new_socket, set_reuse_addr, set_reuse_port, bind_address, accept,
}
use head_write_muduo_epoll_c.Socket
use head_write_muduo_epoll_c.EventLoop.{EventLoop}
use head_write_muduo_epoll_c.EventLoop

pub record Acceptor : Type 0 where
  pub accept_socket : Socket
  pub accept_channel : Channel
  pub has_new_connection : Bool
  pub listenning : Bool

-- `createNonblocking`; none is -1.
unfoldable pub create_nonblocking : Option ℕ → Outcome ℕ
create_nonblocking none = exited
create_nonblocking (some fd) = ok fd

-- The constructor, with the address of the channel.
unfoldable pub new_acceptor : Option ℕ → Bool → ℕ → Bool → Outcome Acceptor
new_acceptor socket_fd bound channel_address reuseport = create_nonblocking socket_fd >>= λ fd.
    bind_address bound (set_reuse_port true (set_reuse_addr true (new_socket fd))) >>= λ socket.
    ok (record {
      accept_socket = socket;
      accept_channel = set_read_callback (new_channel channel_address socket.fd) true;
      has_new_connection = false;
      listenning = false;
    })

unfoldable pub set_new_connection_callback : Bool → Acceptor → Acceptor
set_new_connection_callback is_set a = record a { has_new_connection = is_set }

-- What happens to an accepted descriptor: it goes to the callback with the peer's address, or it is
-- closed.
pub data Accepted {ℓ} (Addr : Type ℓ) : Type ℓ where
  handed : ℕ → Addr → Accepted Addr
  closed : ℕ → Accepted Addr

-- The end of `handleRead`: a failed `accept` ends the process, whatever its errno is.
unfoldable pub pass_on {ℓ} : {Addr : Type ℓ} → Bool → Option ℕ × Addr → Outcome (Accepted Addr)
pass_on has_new_connection (none, peeraddr) = exited
pass_on has_new_connection (some connfd, peeraddr) =
    if has_new_connection then ok (handed connfd peeraddr) else ok (closed connfd)

unfoldable pub handle_read {ℓ} :
    {Addr : Type ℓ} → Option (ℕ × Addr) → Addr → Acceptor → Outcome (Accepted Addr)
handle_read result peeraddr a = pass_on a.has_new_connection (accept result peeraddr)

module _ (ep : Epoll) (ef : EventFd) where
  unfoldable pub listen :
      Bool → EventLoop ep ef Functor → Acceptor → Outcome (EventLoop ep ef Functor × Acceptor)
  listen listens l a = Socket.listen listens a.accept_socket >>= λ socket.
      EventLoop.enable_reading ep ef Functor l a.accept_channel >>= λ r.
      ok (r.0, record a { accept_socket = socket; accept_channel = r.1; listenning = true })

  unfoldable pub destroy_acceptor :
      EventLoop ep ef Functor → Acceptor → Outcome (EventLoop ep ef Functor × Acceptor)
  destroy_acceptor l a = EventLoop.disable_all ep ef Functor l a.accept_channel >>= λ r.
      EventLoop.remove_channel ep ef Functor r.0 r.1 >>= λ r'.
      ok (r'.0, record a { accept_channel = r'.1 })
