-- ===== src/Timestamp.antt =====
-- Timestamp.h and Timestamp.cc. The name of the field says microseconds; `now` puts the seconds of
-- `time` there, and `toString` takes them for seconds. `localtime` is a parameter.
pub mod Text
use head_write_muduo_epoll_c.Base.{ℕ, ◌+◌, ◌-◌, List, ◌∷◌, ◌++◌, length, take, replicate}
use head_write_muduo_epoll_c.Kernel.{Decimal}

pub record Timestamp : Type 0 where
  pub micro_seconds_since_epoch : ℕ

-- `struct tm`, as far as it is printed.
pub record Tm : Type 0 where
  pub tm_year : ℕ
  pub tm_mon : ℕ
  pub tm_mday : ℕ
  pub tm_hour : ℕ
  pub tm_min : ℕ
  pub tm_sec : ℕ

unfoldable pub epoch : Timestamp
epoch = record { micro_seconds_since_epoch = 0 }

unfoldable pub of_micro_seconds : ℕ → Timestamp
of_micro_seconds n = record { micro_seconds_since_epoch = n }

-- With what `time(NULL)` returns.
unfoldable pub now : ℕ → Timestamp
unfolding of_micro_seconds
now time = of_micro_seconds time

-- A number with a width: `%4d` fills with spaces and `%02d` with zeros.
unfoldable pub padded : ℕ → ℕ → List ℕ → List ℕ
padded fill width text = replicate (width - length text) fill ++ text

module _ (dec : Decimal) where
  unfoldable pub two_digits : ℕ → List ℕ
  two_digits n = padded b'0' 2 (dec.print n)

  unfoldable pub date : Tm → List ℕ
  date t =
      padded b' ' 4 (dec.print (t.tm_year + 1900))
      ++ (b'/' ∷ (two_digits (t.tm_mon + 1) ++ (b'/' ∷ two_digits t.tm_mday)))

  unfoldable pub clock : Tm → List ℕ
  clock t = two_digits t.tm_hour ++ (b':' ∷ (two_digits t.tm_min ++ (b':' ∷ two_digits t.tm_sec)))

  -- `snprintf(buf, 128, ...)` keeps 127 characters.
  unfoldable pub to_string : (ℕ → Tm) → Timestamp → List ℕ
  to_string localtime time =
      let t = localtime time.micro_seconds_since_epoch in take 127 (date t ++ (b' ' ∷ clock t))
