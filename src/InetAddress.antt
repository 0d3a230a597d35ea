-- ===== src/InetAddress.antt =====
-- InetAddress.h and InetAddress.cc: an IPv4 socket address. A char array is a list of bytes that ends
-- with zeros, and the member functions return the string up to the first zero.
pub mod Text
use head_write_muduo_epoll_c.Base.{ℕ, List, [], ◌∷◌, ◌++◌, length, replicate, ◌==◌, if◌then◌else◌}
use head_write_muduo_epoll_c.Buffer.{copy_to}
use head_write_muduo_epoll_c.Kernel.{Decimal, Inet}

-- `sockaddr_in`; port and address are in network byte order.
pub record SockAddr : Type 0 where
  pub sin_family : ℕ
  pub sin_port : ℕ
  pub sin_addr : ℕ

pub record InetAddress : Type 0 where
  pub addr : SockAddr

abbrev pub af_inet : ℕ
af_inet = 2

-- `strlen` counts the characters of this string.
unfoldable pub c_str : List ℕ → List ℕ
c_str [] = []
c_str (c ∷ cs) = if c == 0 then [] else c ∷ c_str cs

-- A call of the C library that puts a string and its zero at an index of an array.
unfoldable pub put_string : ℕ → List ℕ → List ℕ → List ℕ
unfolding copy_to
put_string at text buf = copy_to at (text ++ 0 ∷ []) buf

unfoldable pub of_sock_addr : SockAddr → InetAddress
of_sock_addr addr = record { addr = addr }

unfoldable pub get_sock_addr : InetAddress → SockAddr
get_sock_addr a = a.addr

unfoldable pub set_sock_addr : SockAddr → InetAddress → InetAddress
set_sock_addr addr a = record a { addr = addr }

module _ (inet : Inet) where
  unfoldable pub new_address : ℕ → List ℕ → InetAddress
  new_address port ip = record {
    addr = record {
      sin_family = af_inet;
      sin_port = inet.htons port;
      sin_addr = inet.inet_addr ip;
    };
  }

  unfoldable pub to_ip : InetAddress → List ℕ
  to_ip a = let buf = replicate 64 0 in c_str (put_string 0 (inet.inet_ntop a.addr.sin_addr) buf)

  -- `sprintf` of ":%u" at the end of the address's text.
  unfoldable pub to_ip_port : Decimal → InetAddress → List ℕ
  to_ip_port dec a =
      let buf = put_string 0 (inet.inet_ntop a.addr.sin_addr) (replicate 64 0) in
      let end = length (c_str buf) in
      let port = inet.ntohs a.addr.sin_port in c_str (put_string end (b':' ∷ dec.print port) buf)

  unfoldable pub to_port : InetAddress → ℕ
  to_port a = inet.ntohs a.addr.sin_port
