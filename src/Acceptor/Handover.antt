-- ===== src/Acceptor/Handover.antt =====
-- Acceptor.cc: the options of the acceptor's socket.
use head_write_muduo_epoll_c.Base.{ℕ, ◌≡◌, refl, Bool, true, false, Option, none, some, IfOk}
use head_write_muduo_epoll_c.Socket.{set_reuse_addr, set_reuse_port, bind_address}
use head_write_muduo_epoll_c.Acceptor.{new_acceptor, create_nonblocking}

-- The acceptor's socket shares its port whether or not the server asked for it: both values of
-- `reuseport` give the same acceptor, and its option is on.
pub new_acceptor_ignores_reuseport :
    (socket_fd : Option ℕ) (bound : Bool) (channel_address : ℕ) (reuseport : Bool)
    → (new_acceptor socket_fd bound channel_address reuseport
        ≡ new_acceptor socket_fd bound channel_address false)
      × IfOk
          (λ a. a.accept_socket.reuse_port ≡ true)
          (new_acceptor socket_fd bound channel_address reuseport)
unfolding new_acceptor create_nonblocking bind_address set_reuse_port set_reuse_addr
new_acceptor_ignores_reuseport none bound channel_address reuseport = (refl, tt)
new_acceptor_ignores_reuseport (some fd) true channel_address reuseport = (refl, refl)
new_acceptor_ignores_reuseport (some fd) false channel_address reuseport = (refl, tt)
