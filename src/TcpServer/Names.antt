-- ===== src/TcpServer/Names.antt =====
-- TcpServer.cc: the names that `newConnection` gives.
use mathlib.Core.List.{append_cancel_left}
use head_write_muduo_epoll_c.Base.{
  ℕ, ◌≤◌, ◌<◌, ◌≡◌, sym, ap, ◌∙◌, List, ◌∷◌, ◌++◌, length, length-append, take-all, arith, drop,
}
use head_write_muduo_epoll_c.Kernel.{Decimal}
use head_write_muduo_epoll_c.TcpServer.{TcpServer, conn_suffix, conn_name}

module _ (dec : Decimal) where
  -- Nothing is cut off while the address is at most 51 characters long.
  whole_suffix :
      (ip_port : List ℕ) (id : ℕ)
      → length ip_port ≤ 51
      → id < 2147483648
      → conn_suffix dec ip_port id ≡ b'-' ∷ (ip_port ++ (b'#' ∷ dec.print id))
  unfolding conn_suffix
  whole_suffix ip_port id short small =
      take-all 63 (b'-' ∷ (ip_port ++ (b'#' ∷ dec.print id)))
        (omega (arith, length-append ip_port (b'#' ∷ dec.print id), dec.length-print id small))

  -- Connections with different numbers have different names, as long as the address of the server
  -- takes at most 51 characters and the numbers stay in the range of int.
  pub conn_name-injective :
      (s : TcpServer) (i j : ℕ)
      → length s.ip_port ≤ 51
      → i < 2147483648
      → j < 2147483648
      → conn_name dec s i ≡ conn_name dec s j
      → i ≡ j
  unfolding conn_name
  conn_name-injective s i j short small_i small_j same =
      let suffixes =
        sym (whole_suffix s.ip_port i short small_i)
        ∙ append_cancel_left s.name (conn_suffix dec s.ip_port i) (conn_suffix dec s.ip_port j) same
        ∙ whole_suffix s.ip_port j short small_j in
      let tails =
        append_cancel_left s.ip_port (b'#' ∷ dec.print i) (b'#' ∷ dec.print j)
          (ap (drop 1) suffixes) in
      dec.print_injective i j (ap (drop 1) tails)
