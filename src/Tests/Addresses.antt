-- ===== src/Tests/Addresses.antt =====
-- The theorem on socket addresses, at 127.0.0.1:8000. The C library of the example turns the bytes of
-- a port round, and writes each byte of an address with three digits.
use head_write_muduo_epoll_c.Base.{
  ℕ, ◌+◌, ◌-◌, ◌*◌, ◌/◌, ◌%◌, ◌≤◌, ◌<◌, ◌≡◌, List, [], ◌∷◌, ◌++◌, length, arith,
}
use head_write_muduo_epoll_c.Kernel.{Inet}
use head_write_muduo_epoll_c.InetAddress.{new_address, to_ip, to_ip_port, to_port}
use head_write_muduo_epoll_c.InetAddress.Text.{new_address_texts}
use head_write_muduo_epoll_c.Tests.Printing.{decimal}

abbrev swap_bytes : ℕ → ℕ
swap_bytes n = n % 256 * 256 + n / 256 % 256

abbrev three_digits : ℕ → List ℕ → List ℕ
three_digits n rest = (48 + n / 100) ∷ (48 + n / 10 % 10) ∷ (48 + n % 10) ∷ rest

abbrev dotted : ℕ → List ℕ
dotted a = three_digits (a / 16777216 % 256) (
    b'.'
    ∷ three_digits (a / 65536 % 256)
        (b'.' ∷ three_digits (a / 256 % 256) (b'.' ∷ three_digits (a % 256) [])))

abbrev read_three : List ℕ → (ℕ → List ℕ → ℕ) → ℕ
read_three (x ∷ y ∷ z ∷ rest) next = next ((x - 48) * 100 + (y - 48) * 10 + (z - 48)) rest
read_three _ next = 0

abbrev skip_dot : List ℕ → List ℕ
skip_dot [] = []
skip_dot (c ∷ cs) = cs

abbrev read_dotted : List ℕ → ℕ
read_dotted text = read_three text λ a r. read_three (skip_dot r) λ b r'.
    read_three (skip_dot r')
      λ c r''. read_three (skip_dot r'') λ d rest. ((a * 256 + b) * 256 + c) * 256 + d

three_digits_back :
    (n : ℕ) → (48 + n / 100 - 48) * 100 + (48 + n / 10 % 10 - 48) * 10 + (48 + n % 10 - 48) ≡ n
three_digits_back n = omega arith

read_dotted-dotted : (a : ℕ) → a < 4294967296 → read_dotted (dotted a) ≡ a
read_dotted-dotted a small = omega (
  arith,
  three_digits_back (a / 16777216 % 256),
  three_digits_back (a / 65536 % 256),
  three_digits_back (a / 256 % 256),
  three_digits_back (a % 256),
)

abbrev plain_inet : Inet
plain_inet = record {
  htons = swap_bytes;
  ntohs = swap_bytes;
  inet_addr = read_dotted;
  inet_ntop = dotted;
  ntohs-htons = λ port small. omega arith;
  inet_addr-inet_ntop = read_dotted-dotted;
  length-inet_ntop = λ a small. omega arith;
  inet_ntop-AllNonzero = λ a small. omega arith;
}

new_address_texts_example :
    let a = new_address plain_inet 8000 (dotted 2130706433) in
    (to_ip plain_inet a ≡ dotted 2130706433)
    × (to_port plain_inet a ≡ 8000)
    × (to_ip_port plain_inet decimal a ≡ dotted 2130706433 ++ b':' ∷ decimal.print 8000)
    × (length (to_ip_port plain_inet decimal a) + 1 ≤ 64)
new_address_texts_example =
    new_address_texts plain_inet decimal 8000 2130706433 (omega arith) (omega arith)
