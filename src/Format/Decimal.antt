-- ===== src/Format/Decimal.antt =====
-- How long a printed number is, and what reading it back gives.
use native.Mathlib.Nat.{pow-suc}
use so_assignment2_air_bridg.Base.{
  ℕ, zero, suc, ◌+◌, ◌-◌, ◌/◌, ◌%◌, ◌^◌, ◌≡◌, ◌≤◌, ◌<◌, [], ◌∷◌, length, replicate, length-append,
  length-replicate, arith,
}
use so_assignment2_air_bridg.Format.{Bytes, digits, decimal, int_text, field}

-- A number below a power of ten has at most that many digits.
pub length-digits :
    (j k n : ℕ) (out : Bytes) → n < 10 ^ suc j → length (digits k n out) ≤ suc j + length out
unfolding digits
length-digits j zero n out h = omega arith
length-digits zero (suc k) n out h = ground arith
length-digits (suc j) (suc k) n out h =
    let lower : n / 10 < 10 ^ suc j = omega (arith, pow-suc 10 (suc j)) in
    ground (arith, length-digits j k (n / 10) ((b'0' + n % 10) ∷ out) lower)

pub length-digits_pos : (k n : ℕ) (out : Bytes) → length out < length (digits (suc k) n out)
unfolding digits
length-digits_pos zero n out = ground arith
length-digits_pos (suc k) n out =
    ground (arith, length-digits_pos k (n / 10) ((b'0' + n % 10) ∷ out))

-- A number that is not negative takes no more room than its digits.
pub length-int_text : (j v : ℕ) → v < 10 ^ suc j → v < 2 ^ 31 → length (int_text v) ≤ suc j
unfolding int_text decimal
length-int_text j v h fits = ground (arith, length-digits j 10 v [] h)

-- A number that fits is padded to the width.
pub length-field : (w v : ℕ) → length (int_text v) ≤ w → length (field w v) ≡ w
unfolding field
length-field w v h = omega (
  arith,
  length-append (replicate (w - length (int_text v)) b' ') (int_text v),
  length-replicate {A = ℕ} (w - length (int_text v)) b' ',
)
