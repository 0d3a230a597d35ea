-- ===== src/Timestamp/Text.antt =====
-- Timestamp.cc: the length of the printed time.
use head_write_muduo_epoll_c.Base.{
  ℕ, ◌+◌, ◌-◌, ◌≤◌, ◌<◌, ◌≡◌, ◌∷◌, ◌++◌, length, length-append, length-replicate, take-all,
  replicate, arith,
}
use head_write_muduo_epoll_c.Kernel.{Decimal}
use head_write_muduo_epoll_c.Timestamp.{
  Tm, padded, two_digits, date, clock, to_string, now, of_micro_seconds,
}

module _ (dec : Decimal) where
  length-padded :
      (fill width n : ℕ)
      → n < 2147483648
      → width ≤ 10
      → (width ≤ length (padded fill width (dec.print n)))
        × (length (padded fill width (dec.print n)) ≤ 10)
  unfolding padded
  length-padded fill width n small narrow = omega (
    arith,
    length-append (replicate (width - length (dec.print n)) fill) (dec.print n),
    length-replicate (width - length (dec.print n)) fill,
    dec.length-print n small,
  )

  -- What localtime(3) documents of its fields, and a year that its int can hold with 1900 added.
  pub record IsTime (t : Tm) : Type 0 where
    pub year : t.tm_year + 1900 < 2147483648
    pub mon : t.tm_mon < 12
    pub mday : t.tm_mday ≤ 31
    pub hour : t.tm_hour < 24
    pub min : t.tm_min < 60
    pub sec : t.tm_sec ≤ 60

  length-date : (t : Tm) → IsTime t → (10 ≤ length (date dec t)) × (length (date dec t) ≤ 32)
  unfolding date two_digits
  length-date t v = omega (
    arith,
    v.year,
    v.mon,
    v.mday,
    length-append (padded b' ' 4 (dec.print (t.tm_year + 1900)))
        (b'/' ∷ (two_digits dec (t.tm_mon + 1) ++ (b'/' ∷ two_digits dec t.tm_mday))),
    length-append (two_digits dec (t.tm_mon + 1)) (b'/' ∷ two_digits dec t.tm_mday),
    length-padded b' ' 4 (t.tm_year + 1900) v.year (omega arith),
    length-padded b'0' 2 (t.tm_mon + 1) (omega (arith, v.mon)) (omega arith),
    length-padded b'0' 2 t.tm_mday (omega (arith, v.mday)) (omega arith),
  )

  length-clock : (t : Tm) → IsTime t → (8 ≤ length (clock dec t)) × (length (clock dec t) ≤ 32)
  unfolding clock two_digits
  length-clock t v = omega (
    arith,
    v.hour,
    v.min,
    v.sec,
    length-append (two_digits dec t.tm_hour)
        (b':' ∷ (two_digits dec t.tm_min ++ (b':' ∷ two_digits dec t.tm_sec))),
    length-append (two_digits dec t.tm_min) (b':' ∷ two_digits dec t.tm_sec),
    length-padded b'0' 2 t.tm_hour (omega (arith, v.hour)) (omega arith),
    length-padded b'0' 2 t.tm_min (omega (arith, v.min)) (omega arith),
    length-padded b'0' 2 t.tm_sec (omega (arith, v.sec)) (omega arith),
  )

  -- The text of the present time is never cut off by the array of 128 bytes and has at least 19
  -- characters, if `localtime` keeps its documented ranges.
  pub to_string-whole :
      (localtime : ℕ → Tm) (time : ℕ)
      → IsTime (localtime time)
      → (to_string dec localtime (now time)
          ≡ date dec (localtime time) ++ (b' ' ∷ clock dec (localtime time)))
        × (19 ≤ length (to_string dec localtime (now time)))
  unfolding to_string now of_micro_seconds
  to_string-whole localtime time v =
      let t = localtime time in
      let sizes = length-append (date dec t) (b' ' ∷ clock dec t) in
      let whole =
        take-all 127 (date dec t ++ (b' ' ∷ clock dec t))
          (omega (arith, sizes, length-date t v, length-clock t v)) in
      (whole, rw whole (omega (arith, sizes, length-date t v, length-clock t v)))
