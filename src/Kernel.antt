-- ===== src/Kernel.antt =====
-- What the program relies on of epoll(7), eventfd(2) and snprintf(3), as records of operations and
-- laws that the definitions take as parameters. The objects of the first two live in the kernel; the
-- laws are what the manual pages document.
use head_write_muduo_epoll_c.Base.{
  ℕ, ◌≤◌, ◌<◌, List, [], ◌∷◌, length, ◌≡◌, Bool, true, false, Option, none, some, if◌then◌else◌,
  ◌==◌,
}

pub data CtlOp : Type 0 where
  ctl_add ctl_mod ctl_del : CtlOp

pub record Epoll : Type 1 where
  pub State : Type 0
  -- The interest list: for a descriptor, the requested events and the `data.ptr` stored with it.
  pub interest : State → ℕ → Option (ℕ × ℕ)
  -- `epoll_ctl` with operation, descriptor, events and pointer; `none` is -1, which changes nothing.
  pub ctl : State → CtlOp → ℕ → ℕ → ℕ → Option State
  pub add_interest :
      (s : State) (fd events ptr : ℕ) {t : State}
      → ctl s ctl_add fd events ptr ≡ some t
      → (j : ℕ) → interest t j ≡ (if j == fd then some (events, ptr) else interest s j)
  pub mod_interest :
      (s : State) (fd events ptr : ℕ) {t : State}
      → ctl s ctl_mod fd events ptr ≡ some t
      → (j : ℕ) → interest t j ≡ (if j == fd then some (events, ptr) else interest s j)
  pub del_interest :
      (s : State) (fd events ptr : ℕ) {t : State}
      → ctl s ctl_del fd events ptr ≡ some t
      → (j : ℕ) → interest t j ≡ (if j == fd then none else interest s j)
  -- A modification fails for a descriptor that is not registered (ENOENT), and for no other reason
  -- while the two descriptors are open and memory is left.
  pub mod_fails :
      (s : State) (fd events ptr : ℕ) → ctl s ctl_mod fd events ptr ≡ none → interest s fd ≡ none
  -- A deletion fails for a descriptor that is not registered (ENOENT), and for no other reason while
  -- the two descriptors are open.
  pub del_fails :
      (s : State) (fd events ptr : ℕ) → ctl s ctl_del fd events ptr ≡ none → interest s fd ≡ none

-- An eventfd, by whether it is readable.
pub record EventFd : Type 1 where
  pub Counter : Type 0
  pub is_readable : Counter → Bool
  -- `write` of the number 1, and `read`, which takes the whole count.
  pub write_one : Counter → Counter
  pub read_all : Counter → Counter
  -- After a write the count is positive, also where the write failed because it is at its maximum.
  pub is_readable-write_one : (c : Counter) → is_readable (write_one c) ≡ true
  pub is_readable-read_all : (c : Counter) → is_readable (read_all c) ≡ false

-- The characters of a C string.
abbrev pub AllNonzero : List ℕ → Type 0
AllNonzero [] = Unit
AllNonzero (c ∷ cs) = (0 < c) × AllNonzero cs

-- What snprintf documents of `%d` with a number that is not negative: two numbers are printed alike
-- only if they are equal, and an int takes at most ten characters.
pub record Decimal : Type 0 where
  pub print : ℕ → List ℕ
  pub print_injective : (m n : ℕ) → print m ≡ print n → m ≡ n
  pub length-print : (n : ℕ) → n < 2147483648 → length (print n) ≤ 10
  pub print-AllNonzero : (n : ℕ) → AllNonzero (print n)

-- What is relied on of byteorder(3), inet(3) and inet_ntop(3): the byte order is only turned round, the
-- dotted notation is read back, and its text, of at most 15 characters, fits the buffer.
pub record Inet : Type 0 where
  pub htons : ℕ → ℕ
  pub ntohs : ℕ → ℕ
  pub inet_addr : List ℕ → ℕ
  pub inet_ntop : ℕ → List ℕ
  pub ntohs-htons : (port : ℕ) → port < 65536 → ntohs (htons port) ≡ port
  pub inet_addr-inet_ntop : (addr : ℕ) → addr < 4294967296 → inet_addr (inet_ntop addr) ≡ addr
  pub length-inet_ntop : (addr : ℕ) → addr < 4294967296 → length (inet_ntop addr) ≤ 15
  pub inet_ntop-AllNonzero : (addr : ℕ) → addr < 4294967296 → AllNonzero (inet_ntop addr)
