-- ===== src/Channel/Masks.antt =====
-- Channel.h: the bit operations on event masks, by evaluation over every mask that can occur.
use head_write_muduo_epoll_c.Base.{
  ℕ, zero, suc, ◌<◌, ◌≡◌, refl, ◌/◌, ◌%◌, ◌^◌, Bool, true, false, not, ◌&&◌, ◌||◌, bit_and, bit_or,
  ◌==◌, arith, ltb,
}
use head_write_muduo_epoll_c.Channel.{
  Channel, any_of, complement, read_event, write_event, epollin, epollout, epollerr, epollhup,
  is_writing, is_reading, with_reading, without_reading, with_writing, without_writing,
}

-- Whether a test passes on each mask below a bound.
passes : (ℕ → Bool) → ℕ → Bool
passes test zero = true
passes test (suc last) = passes test last && test last

passes_at :
    (test : ℕ → Bool) (bound mask : ℕ) → mask < bound → passes test bound ≡ true → test mask ≡ true
unfolding passes
passes_at test zero mask inside passed = absurd (omega arith)
passes_at test (suc last) mask inside passed = ground (arith, passes_at test last mask)

abbrev agree : Bool → Bool → Bool
agree true b = b
agree false b = not b

agree_eq : (a b : Bool) → agree a b ≡ true → a ≡ b
agree_eq a b h = ground arith

-- Bit `k` of a mask.
abbrev pub flag : ℕ → ℕ → Bool
flag k e = (e / 2 ^ k) % 2 == 1

-- The five flags that epoll reports of what the program asks for.
module _ (e : ℕ) (small : e < 32) where
  pub any_of-hup : any_of e epollhup ≡ flag 4 e
  unfolding passes
  any_of-hup = agree_eq _ _ (passes_at (λ x. agree (any_of x epollhup) (flag 4 x)) 32 e small refl)

  pub any_of-err : any_of e epollerr ≡ flag 3 e
  unfolding passes
  any_of-err = agree_eq _ _ (passes_at (λ x. agree (any_of x epollerr) (flag 3 x)) 32 e small refl)

  pub any_of-out : any_of e epollout ≡ flag 2 e
  unfolding passes
  any_of-out = agree_eq _ _ (passes_at (λ x. agree (any_of x epollout) (flag 2 x)) 32 e small refl)

  pub any_of-in : any_of e epollin ≡ flag 0 e
  unfolding passes
  any_of-in = agree_eq _ _ (passes_at (λ x. agree (any_of x epollin) (flag 0 x)) 32 e small refl)

  pub any_of-read : any_of e read_event ≡ (flag 0 e || flag 1 e)
  unfolding passes
  any_of-read =
      agree_eq _ _
        (passes_at (λ x. agree (any_of x read_event) (flag 0 x || flag 1 x)) 32 e small refl)

-- The masks that a channel can ask for: 0, 3, 4 and 7.
abbrev pub IsInterest : Channel → Type 0
IsInterest c = c.events < 8

abbrev masks_ok : ℕ → Bool
masks_ok e =
    any_of (bit_or e read_event) read_event
    && (agree (any_of (bit_or e read_event) write_event) (any_of e write_event)
        && (any_of (bit_or e write_event) write_event
            && (agree (any_of (bit_or e write_event) read_event) (any_of e read_event)
                && (not (any_of (bit_and e (complement read_event)) read_event)
                    && (agree (any_of (bit_and e (complement read_event)) write_event)
                          (any_of e write_event)
                        && (not (any_of (bit_and e (complement write_event)) write_event)
                            && agree (any_of (bit_and e (complement write_event)) read_event)
                                (any_of e read_event)))))))

masks_table : passes masks_ok 8 ≡ true
unfolding passes
masks_table = refl

-- Each change of the mask sets or clears its own kind of event and leaves the other kind.
pub masks_independent :
    (c : Channel)
    → IsInterest c
    → ((is_reading (with_reading c) ≡ true) × (is_writing (with_reading c) ≡ is_writing c))
      × ((is_writing (with_writing c) ≡ true) × (is_reading (with_writing c) ≡ is_reading c))
      × ((is_reading (without_reading c) ≡ false) × (is_writing (without_reading c) ≡ is_writing c))
      × ((is_writing (without_writing c) ≡ false) × (is_reading (without_writing c) ≡ is_reading c))
unfolding is_reading is_writing with_reading with_writing without_reading without_writing
masks_independent c small = ground (arith, passes_at masks_ok 8 c.events small masks_table)

bounded_ok : ℕ → Bool
bounded_ok e =
    ltb (bit_or e read_event) 8
    && (ltb (bit_or e write_event) 8
        && (ltb (bit_and e (complement read_event)) 8
            && ltb (bit_and e (complement write_event)) 8))

bounded_table : passes bounded_ok 8 ≡ true
unfolding passes bounded_ok
bounded_table = refl

-- No change of the mask leaves the masks that a channel can ask for.
pub masks_closed :
    (c : Channel)
    → IsInterest c
    → IsInterest (with_reading c)
      × IsInterest (with_writing c)
      × IsInterest (without_reading c)
      × IsInterest (without_writing c)
unfolding with_reading with_writing without_reading without_writing bounded_ok
masks_closed c small = ground (arith, passes_at bounded_ok 8 c.events small bounded_table)

pub with_writing-index : (c : Channel) → (with_writing c).index ≡ c.index
unfolding with_writing
with_writing-index c = refl

pub without_writing-index : (c : Channel) → (without_writing c).index ≡ c.index
unfolding without_writing
without_writing-index c = refl

pub with_reading-index : (c : Channel) → (with_reading c).index ≡ c.index
unfolding with_reading
with_reading-index c = refl
