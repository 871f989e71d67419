-- ===== src/Format.antt =====
-- What the programs ask of `printf` and its kin: texts as lists of bytes, and the conversions `%d`,
-- `%Wd`, `%0Wd`, `%Ws` and `%Wc` of the C standard.
pub mod Decimal
pub mod Strtol
use Prim.Native.Char.{code}
use Prim.Native.String.{String}
use so_assignment2_air_bridg.Base.{
  ℕ, zero, suc, ◌+◌, ◌-◌, ◌/◌, ◌%◌, ◌^◌, ◌≡◌, refl, List, [], ◌∷◌, ◌++◌, ltb, ◌==◌, if◌then◌else◌,
  length, replicate,
}

abbrev pub Bytes : Type 0
Bytes = List ℕ

-- the code points of a literal; these are its bytes when the text is ASCII
abbrev pub codes : String → Bytes
codes String.[] = []
codes (String.◌∷◌ c s) = code c ∷ codes s

-- At most `k` decimal digits of `n`, in front of `out`.
unfoldable pub digits : ℕ → ℕ → Bytes → Bytes
digits zero n out = out
digits (suc k) n out =
    let first = b'0' + n % 10 in
    let more = digits k (n / 10) (first ∷ out) in if n / 10 == 0 then first ∷ out else more

-- A number of 32 bits has at most ten digits.
unfoldable pub decimal : ℕ → Bytes
unfolding digits
decimal n = digits 10 n []

-- `%d` of the pattern of 32 bits that an `int` or an `unsigned int` has.
unfoldable pub int_text : ℕ → Bytes
unfolding decimal
int_text v = if ltb v (2 ^ 31) then decimal v else b'-' ∷ decimal (2 ^ 32 - v)

-- Padding on the left up to the width `w`.
abbrev pub pad_left : ℕ → ℕ → Bytes → Bytes
pad_left c w s = replicate (w - length s) c ++ s

-- `%Wd`
unfoldable pub field : ℕ → ℕ → Bytes
unfolding int_text
field w v = pad_left b' ' w (int_text v)

-- `%0Wd` of a number that is not negative
unfoldable pub zero_field : ℕ → ℕ → Bytes
unfolding decimal
zero_field w v = pad_left b'0' w (decimal v)

-- `%Ws`, and `%Wc` of one character
abbrev pub text_field : ℕ → Bytes → Bytes
text_field w s = pad_left b' ' w s

printed :
    (field 4 17 ≡ codes "  17")
    × (field 3 4294967295 ≡ codes " -1")
    × (zero_field 2 7 ≡ codes "07")
    × (int_text 2147483648 ≡ codes "-2147483648")
    × (field 4 12345 ≡ codes "12345")
unfolding field zero_field
printed = (refl, refl, refl, refl, refl)
