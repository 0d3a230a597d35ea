-- ===== src/Tests/Printing.antt =====
-- Decimal digits, most significant first, for the examples on connection names.
use head_write_muduo_epoll_c.Base.{
  ℕ, zero, suc, ◌+◌, ◌-◌, ◌*◌, ◌/◌, ◌%◌, ◌≤◌, ◌<◌, ◌≡◌, sym, ap, ◌∙◌, Bool-cases, inl, inr, List,
  [], ◌∷◌, length, ltb, if◌then◌else◌, if_either, arith,
}
use head_write_muduo_epoll_c.Kernel.{Decimal, AllNonzero}

digits_before : ℕ → ℕ → List ℕ → List ℕ
digits_before zero n rest = (48 + n) ∷ rest
digits_before (suc fuel) n rest =
    let more = digits_before fuel (n / 10) ((48 + n % 10) ∷ rest) in
    if ltb n 10 then (48 + n) ∷ rest else more

abbrev read_digits : ℕ → List ℕ → ℕ
read_digits v [] = v
read_digits v (d ∷ ds) = read_digits (v * 10 + (d - 48)) ds

read_digits-digits_before :
    (fuel n : ℕ) (rest : List ℕ)
    → n ≤ fuel
    → read_digits 0 (digits_before fuel n rest) ≡ read_digits n rest
unfolding digits_before
read_digits-digits_before zero n rest h = ap (λ v. read_digits v rest) (omega arith)
read_digits-digits_before (suc fuel) n rest h = elim (Bool-cases (ltb n 10)) [
  | inl one_digit ↦ rw one_digit (ap (λ v. read_digits v rest) (omega arith))
  | inr more ↦ rw more (
      read_digits-digits_before fuel (n / 10) ((48 + n % 10) ∷ rest) (ground arith)
      ∙ ap (λ v. read_digits v rest) (omega arith))
]

abbrev ten_to : ℕ → ℕ
ten_to zero = 10
ten_to (suc k) = 10 * ten_to k

length-digits_before :
    (fuel k n : ℕ) (rest : List ℕ)
    → n < ten_to k
    → length (digits_before fuel n rest) ≤ suc k + length rest
unfolding digits_before
length-digits_before zero k n rest h = omega arith
length-digits_before (suc fuel) zero n rest h = elim (Bool-cases (ltb n 10)) [
  | inl one_digit ↦ rw one_digit (omega arith)
  | inr more ↦ absurd (ground arith)
]
length-digits_before (suc fuel) (suc k) n rest h = elim (Bool-cases (ltb n 10)) [
  | inl one_digit ↦ rw one_digit (omega arith)
  | inr more ↦
      rw more
        (omega (arith, length-digits_before fuel k (n / 10) ((48 + n % 10) ∷ rest) (omega arith)))
]

digits_before-AllNonzero :
    (fuel n : ℕ) (rest : List ℕ) → AllNonzero rest → AllNonzero (digits_before fuel n rest)
unfolding digits_before
digits_before-AllNonzero zero n rest h = (omega arith, h)
digits_before-AllNonzero (suc fuel) n rest h =
    if_either AllNonzero (ltb n 10) (omega arith, h)
      (digits_before-AllNonzero fuel (n / 10) ((48 + n % 10) ∷ rest) (omega arith, h))

printed : ℕ → List ℕ
printed n = digits_before n n []

printed_back : (n : ℕ) → read_digits 0 (printed n) ≡ n
unfolding printed
printed_back n = read_digits-digits_before n n [] (omega arith)

pub decimal : Decimal
unfolding printed
decimal = record {
  print = printed;
  print_injective = λ m n e. sym (printed_back m) ∙ ap (read_digits 0) e ∙ printed_back n;
  length-print = λ n small. length-digits_before n 9 n [] (omega arith);
  print-AllNonzero = λ n. digits_before-AllNonzero n n [] tt;
}
