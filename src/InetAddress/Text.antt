-- ===== src/InetAddress/Text.antt =====
-- InetAddress.cc: what the texts of an address say, and that they fit their arrays.
use head_write_muduo_epoll_c.Base.{
  ℕ, ◌+◌, ◌≤◌, ◌<◌, ◌≡◌, refl, ap, ◌∙◌, List, [], ◌∷◌, ◌++◌, append_assoc, length, length-append,
  drop, take-append_right, replicate, arith,
}
use head_write_muduo_epoll_c.Kernel.{AllNonzero, Decimal, Inet}
use head_write_muduo_epoll_c.Buffer.{copy_to}
use head_write_muduo_epoll_c.InetAddress.{
  c_str, put_string, new_address, to_ip, to_ip_port, to_port,
}

AllNonzero-append : (xs ys : List ℕ) → AllNonzero xs → AllNonzero ys → AllNonzero (xs ++ ys)
AllNonzero-append [] ys h k = k
AllNonzero-append (x ∷ xs) ys (positive, h) k = (positive, AllNonzero-append xs ys h k)

c_str-append : (xs rest : List ℕ) → AllNonzero xs → c_str (xs ++ 0 ∷ rest) ≡ xs
unfolding c_str
c_str-append [] rest h = refl
c_str-append (x ∷ xs) rest (positive, h) = ground (arith, positive, c_str-append xs rest h)

-- A string that is put behind another.
c_str-put_string :
    (before text rest : List ℕ)
    → AllNonzero before
    → AllNonzero text
    → c_str (put_string (length before) text (before ++ rest)) ≡ before ++ text
unfolding put_string copy_to
c_str-put_string before text rest h k =
    let after = drop (length before + length (text ++ 0 ∷ [])) (before ++ rest) in
    rw (take-append_right before rest (length before) 0 (omega arith)) (
      ap c_str (simp append_assoc)
      ∙ c_str-append (before ++ text) after (AllNonzero-append before text h k))

module _ (inet : Inet) (dec : Decimal) (port addr : ℕ) (port_small : port < 65536)
    (addr_small : addr < 4294967296) where
  -- The array with the text of the address in front.
  buffered :
      put_string 0 (inet.inet_ntop addr) (replicate 64 0)
      ≡ inet.inet_ntop addr ++ (0 ∷ drop (length (inet.inet_ntop addr ++ 0 ∷ [])) (replicate 64 0))
  unfolding put_string copy_to
  buffered =
      let text = inet.inet_ntop addr in
      let n = length (text ++ 0 ∷ []) in
      ap (λ k. (text ++ 0 ∷ []) ++ drop k (replicate 64 0)) {x = 0 + n} {y = n} (omega arith)
      ∙ append_assoc text (0 ∷ []) (drop n (replicate 64 0))

  ntop_string : c_str (put_string 0 (inet.inet_ntop addr) (replicate 64 0)) ≡ inet.inet_ntop addr
  ntop_string =
      ap c_str buffered
      ∙ c_str-append (inet.inet_ntop addr) _ (inet.inet_ntop-AllNonzero addr addr_small)

  ntop_port_string :
      c_str (
        put_string
          (length (c_str (put_string 0 (inet.inet_ntop addr) (replicate 64 0))))
          (b':' ∷ dec.print port)
          (put_string 0 (inet.inet_ntop addr) (replicate 64 0)))
      ≡ inet.inet_ntop addr ++ b':' ∷ dec.print port
  ntop_port_string =
      ap
        (λ text. c_str (
          put_string (length text) (b':' ∷ dec.print port)
            (put_string 0 (inet.inet_ntop addr) (replicate 64 0))))
        ntop_string
      ∙ ap (λ buf. c_str (put_string (length (inet.inet_ntop addr)) (b':' ∷ dec.print port) buf))
          buffered
      ∙ c_str-put_string (inet.inet_ntop addr) (b':' ∷ dec.print port) _
          (inet.inet_ntop-AllNonzero addr addr_small) (omega arith, dec.print-AllNonzero port)

  -- An address that is made of a port and of a dotted text gives both back; what the code assembles
  -- in its array of 64 bytes is the plain "ip:port"; and with its zero it stays within the array.
  pub new_address_texts :
      let a = new_address inet port (inet.inet_ntop addr) in
      (to_ip inet a ≡ inet.inet_ntop addr)
      × (to_port inet a ≡ port)
      × (to_ip_port inet dec a ≡ inet.inet_ntop addr ++ b':' ∷ dec.print port)
      × (length (to_ip_port inet dec a) + 1 ≤ 64)
  unfolding new_address to_ip to_port to_ip_port
  new_address_texts =
      rw (inet.inet_addr-inet_ntop addr addr_small, inet.ntohs-htons port port_small)
        (
          ntop_string,
          refl,
          ntop_port_string,
          omega (
            arith,
            ap length ntop_port_string,
            length-append (inet.inet_ntop addr) (b':' ∷ dec.print port),
            inet.length-inet_ntop addr addr_small,
            dec.length-print port (omega arith),
          ),
        )
