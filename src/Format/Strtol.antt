-- ===== src/Format/Strtol.antt =====
-- `strtol` of the C standard with base 0, where `long` has 64 bits: blanks, a sign, a prefix that
-- chooses the base, and digits. The result is the pattern of the `long` and the text that is left.
use native.Mathlib.Nat.{pow-suc}
use so_assignment2_air_bridg.Base.{
  ℕ, zero, suc, ◌+◌, ◌-◌, ◌*◌, ◌/◌, ◌%◌, ◌^◌, ◌≡◌, ◌≤◌, ◌<◌, refl, Bool, true, false, ◌&&◌, ◌||◌,
  [], ◌∷◌, Option, none, some, ltb, leb, ◌==◌, if◌then◌else◌, arith, Bool-cases, inl, inr, ◌∙◌, ap,
}
use so_assignment2_air_bridg.Format.{Bytes, codes, digits, decimal, int_text}

abbrev pub is_space : ℕ → Bool
is_space c = c == b' ' || (leb 9 c && leb c 13)

unfoldable pub skip_spaces : Bytes → Bytes
skip_spaces [] = []
skip_spaces (c ∷ s) = let rest = skip_spaces s in if is_space c then rest else c ∷ s

-- The value of a digit of any base; 36 stands for no digit.
abbrev pub digit_value : ℕ → ℕ
digit_value c =
    if leb b'0' c && leb c b'9'
    then c - b'0'
    else if leb b'a' c && leb c b'z'
    then c - b'a' + 10
    else if leb b'A' c && leb c b'Z'
    then c - b'A' + 10
    else 36

-- The digits of a base, behind the value `n`.
unfoldable pub scan : ℕ → ℕ → Bytes → ℕ × Bytes
scan base n [] = (n, [])
scan base n (c ∷ s) =
    let more = scan base (n * base + digit_value c) s in
    if ltb (digit_value c) base then more else (n, c ∷ s)

-- Whether a digit of the base comes first.
abbrev pub begins_digit : ℕ → Bytes → Bool
begins_digit base [] = false
begins_digit base (c ∷ s) = ltb (digit_value c) base

-- The digits after the sign, if there are any: `0x` begins a hexadecimal number, `0` an octal one.
unfoldable pub magnitude : Bytes → Option (ℕ × Bytes)
magnitude [] = none
magnitude (c ∷ []) = if ltb (digit_value c) 10 then some (scan 10 0 (c ∷ [])) else none
magnitude (c ∷ x ∷ s) =
    if c == b'0'
    then if (x == b'x' || x == b'X') && begins_digit 16 s
      then some (scan 16 0 s)
      else some (scan 8 0 (c ∷ x ∷ s))
    else if ltb (digit_value c) 10
    then some (scan 10 0 (c ∷ x ∷ s))
    else none

-- A value that does not fit gives `LONG_MAX` or `LONG_MIN`.
abbrev pub long_max : ℕ
long_max = 2 ^ 63 - 1

unfoldable pub to_long : Bool → ℕ → ℕ
to_long true n = if ltb (2 ^ 63) n then 2 ^ 63 else (2 ^ 64 - n) % 2 ^ 64
to_long false n = if ltb long_max n then long_max else n

abbrev pub with_sign : Bool → Option (ℕ × Bytes) → Option (ℕ × Bytes)
with_sign negative none = none
with_sign negative (some (n, rest)) = some (to_long negative n, rest)

unfoldable pub signed_number : Bytes → Option (ℕ × Bytes)
signed_number [] = none
signed_number (c ∷ s) =
    if c == b'-'
    then with_sign true (magnitude s)
    else if c == b'+'
    then with_sign false (magnitude s)
    else with_sign false (magnitude (c ∷ s))

-- With no number the value is 0 and nothing is read.
abbrev pub or_nothing : Bytes → Option (ℕ × Bytes) → ℕ × Bytes
or_nothing s none = (0, s)
or_nothing s (some r) = r

unfoldable pub strtol : Bytes → ℕ × Bytes
strtol s = or_nothing s (signed_number (skip_spaces s))

strtol_test :
    (strtol (codes "42") ≡ (42, []))
    × (strtol (codes " -1x") ≡ (18446744073709551615, codes "x"))
    × (strtol (codes "0x1F") ≡ (31, []))
    × (strtol (codes "017") ≡ (15, []))
    × (strtol (codes "0") ≡ (0, []))
    × (strtol (codes "0x") ≡ (0, codes "x"))
    × (strtol (codes "99999999999999999999") ≡ (long_max, []))
    × (strtol (codes "abc") ≡ (0, codes "abc"))
    × (strtol (codes "") ≡ (0, []))
unfolding strtol skip_spaces signed_number magnitude scan to_long
strtol_test = (refl, refl, refl, refl, refl, refl, refl, refl, refl)

-- Reading the digits of `n` behind nothing is having read `n`.
scan-digits : (k n : ℕ) (out : Bytes) → n < 10 ^ k → scan 10 0 (digits k n out) ≡ scan 10 n out
unfolding digits scan
scan-digits zero n out h = (let e : n ≡ 0 = omega arith in rw e refl)
scan-digits (suc k) n out h =
    let lower : n / 10 < 10 ^ k = omega (arith, pow-suc 10 k) in
    ground (arith, scan-digits k (n / 10) ((b'0' + n % 10) ∷ out) lower)

-- The digits of a positive number begin with another digit than 0.
record BeginsPositive (s : Bytes) : Type 0 where
  first : ℕ
  rest : Bytes
  text : s ≡ first ∷ rest
  above : b'0' < first
  below : first ≤ b'9'

digits-BeginsPositive :
    (k n : ℕ) (out : Bytes) → 0 < n → n < 10 ^ k → BeginsPositive (digits k n out)
unfolding digits
digits-BeginsPositive zero n out pos h = absurd (omega arith)
digits-BeginsPositive (suc k) n out pos h = elim (Bool-cases (n / 10 == 0)) [
  | inl last ↦ rw last (record {
    first = b'0' + n % 10;
    rest = out;
    text = refl;
    above = ground arith;
    below = omega arith;
  })
  | inr more ↦
      let lower : n / 10 < 10 ^ k = omega (arith, pow-suc 10 k) in
      rw more (digits-BeginsPositive k (n / 10) ((b'0' + n % 10) ∷ out) (ground arith) lower)
]

module _ (c : ℕ) (s : Bytes) (lo : b'0' < c) (hi : c ≤ b'9') where
  skip_spaces_lem : skip_spaces (c ∷ s) ≡ c ∷ s
  unfolding skip_spaces
  skip_spaces_lem = let e : is_space c ≡ false = ground arith in rw e refl

  not_sign : ((c == b'-') ≡ false) × ((c == b'+') ≡ false) × ((c == b'0') ≡ false)
  not_sign = (ground arith, ground arith, ground arith)

  decimal_digit : ltb (digit_value c) 10 ≡ true
  decimal_digit = ground arith

magnitude_lem :
    (c : ℕ) (s : Bytes) → b'0' < c → c ≤ b'9' → magnitude (c ∷ s) ≡ some (scan 10 0 (c ∷ s))
unfolding magnitude
magnitude_lem c [] lo hi = rw (decimal_digit c [] lo hi) refl
magnitude_lem c (x ∷ s) lo hi = rw (not_sign c s lo hi).2 (rw (decimal_digit c s lo hi) refl)

strtol-nought : strtol (codes "0") ≡ (0, [])
unfolding strtol skip_spaces signed_number magnitude scan to_long
strtol-nought = refl

scan-end : (n : ℕ) → scan 10 n [] ≡ (n, [])
unfolding scan
scan-end n = refl

signed_number_lem :
    (c : ℕ) (s : Bytes) (v : ℕ)
    → b'0' < c
    → c ≤ b'9'
    → v ≤ long_max
    → scan 10 0 (c ∷ s) ≡ (v, [])
    → signed_number (c ∷ s) ≡ some (v, [])
unfolding signed_number to_long
signed_number_lem c s v lo hi fits e =
    let n = not_sign c s lo hi in
    let small : ltb long_max v ≡ false = ground arith in
    rw (n.0, n.1, magnitude_lem c s lo hi, e, small) refl

-- A positive decimal number is read in base 10.
strtol-positive :
    (c : ℕ) (s : Bytes) (v : ℕ)
    → b'0' < c
    → c ≤ b'9'
    → v ≤ long_max
    → scan 10 0 (c ∷ s) ≡ (v, [])
    → strtol (c ∷ s) ≡ (v, [])
unfolding strtol
strtol-positive c s v lo hi fits e =
    ap (λ r. or_nothing (c ∷ s) (signed_number r)) (skip_spaces_lem c s lo hi)
    ∙ ap (or_nothing (c ∷ s)) (signed_number_lem c s v lo hi fits e)

-- A minus sign before a positive number gives the pattern of its negative.
pub strtol-negative : (v : ℕ) → 1 ≤ v → v ≤ 2 ^ 31 → strtol (b'-' ∷ decimal v) ≡ (2 ^ 64 - v, [])
unfolding strtol skip_spaces signed_number to_long decimal
strtol-negative v pos le =
    let d : BeginsPositive (digits 10 v []) = digits-BeginsPositive 10 v [] pos (omega arith) in
    let scanned : scan 10 0 (d.first ∷ d.rest) ≡ (v, []) =
      rw (d.text) at (scan-digits 10 v [] (omega arith)) ∙ scan-end v in
    let fits : ltb (2 ^ 63) v ≡ false = ground arith in
    rw (d.text, magnitude_lem d.first d.rest d.above d.below, scanned, fits) (ground arith)

-- `strtol` reads back what `%d` prints of a number that is not negative.
pub strtol-int_text : (v : ℕ) → v < 2 ^ 31 → strtol (int_text v) ≡ (v, [])
unfolding int_text decimal
strtol-int_text v h = elim (Bool-cases (v == 0)) [
  | inl nought ↦ let e : v ≡ 0 = ground arith in rw e strtol-nought
  | inr positive ↦
      let d : BeginsPositive (digits 10 v []) =
        digits-BeginsPositive 10 v [] (ground arith) (omega arith) in
      let scanned : scan 10 0 (d.first ∷ d.rest) ≡ (v, []) =
        rw (d.text) at (scan-digits 10 v [] (omega arith)) ∙ scan-end v in
      let not_negative : ltb v (2 ^ 31) ≡ true = ground arith in
      rw (not_negative, d.text)
        (strtol-positive d.first d.rest v d.above d.below (omega arith) scanned)
]
