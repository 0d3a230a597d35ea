-- ===== src/Tests.antt =====
-- A kernel to run the examples on: an interest list kept as an association list, and an eventfd kept
-- as its count. The children apply the development's theorems to concrete inputs.
pub mod Buffers
pub mod Channels
pub mod Printing
pub mod Servers
pub mod Threads
pub mod Loops
pub mod Connections
pub mod Delivery
pub mod First
pub mod Batches
pub mod Processes
pub mod Closing
pub mod Life
pub mod Addresses
use head_write_muduo_epoll_c.Base.{
  ℕ, ◌+◌, ◌≡◌, refl, Bool, Option, none, some, List, ltb, lookup, insert, erase, nat_key,
  lookup-insert, lookup-erase, arith, min, ◌==◌, if◌then◌else◌, inl, inr, Option-cases,
}
use head_write_muduo_epoll_c.InetAddress.{InetAddress}
use head_write_muduo_epoll_c.Kernel.{Epoll, EventFd, CtlOp, ctl_add, ctl_mod, ctl_del}

abbrev pub table_ctl : List (ℕ × (ℕ × ℕ)) → CtlOp → ℕ → ℕ → ℕ → Option (List (ℕ × (ℕ × ℕ)))
table_ctl s ctl_add fd events ptr = elim (lookup fd s) [
  | none ↦ some (insert fd (events, ptr) s)
  | some x ↦ none
]
table_ctl s ctl_mod fd events ptr = elim (lookup fd s) [
  | none ↦ none
  | some x ↦ some (insert fd (events, ptr) s)
]
table_ctl s ctl_del fd events ptr = elim (lookup fd s) [ none ↦ none | some x ↦ some (erase fd s) ]

abbrev pub table_epoll : Epoll
table_epoll = record {
  State = List (ℕ × (ℕ × ℕ));
  interest = λ s fd. lookup fd s;
  ctl = table_ctl;
  add_interest = λ s fd events ptr e j. ground (arith, e, lookup-insert fd j (events, ptr) s);
  mod_interest = λ s fd events ptr e j. ground (arith, e, lookup-insert fd j (events, ptr) s);
  del_interest = λ s fd events ptr e j. ground (arith, e, lookup-erase fd j s);
  mod_fails = λ s fd events ptr e. ground (arith, e);
  del_fails = λ s fd events ptr e. ground (arith, e);
}

-- The count stays at its maximum, 2 ^ 64 - 2, where `write` would block.
abbrev pub count_fd : EventFd
count_fd = record {
  Counter = ℕ;
  is_readable = λ c. ltb 0 c;
  write_one = λ c. min (c + 1) 18446744073709551614;
  read_all = λ c. 0;
  is_readable-write_one = λ c. ground arith;
  is_readable-read_all = λ c. refl;
}

-- Ports and addresses in network byte order.
abbrev pub server_addr : InetAddress
server_addr = record { addr = record { sin_family = 2; sin_port = 16415; sin_addr = 16777343 } }

abbrev pub client_addr : InetAddress
client_addr = record { addr = record { sin_family = 2; sin_port = 58123; sin_addr = 33554559 } }
