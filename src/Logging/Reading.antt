-- ===== src/Logging/Reading.antt =====
-- A reader of the lines of states: numbers between blanks. What `saveState` prints reads back.
use native.Mathlib.Nat.{pow-suc}
use so_assignment2_air_bridg.Base.{
  ℕ, zero, suc, ◌+◌, ◌-◌, ◌*◌, ◌/◌, ◌%◌, ◌^◌, ◌≡◌, ◌≤◌, ◌<◌, refl, List, [], ◌∷◌, ◌++◌, Option,
  none, some, ◌>>=◌, leb, ◌==◌, ◌&&◌, ◌||◌, if◌then◌else◌, length, replicate, arith, get_elem?,
  append_assoc, Bool, true, take, take-suc, length-append, get_elem?_inside, ap, ◌∙◌,
}
use so_assignment2_air_bridg.Format.{Bytes, codes, digits, decimal, int_text, field}
use so_assignment2_air_bridg.Format.Decimal.{length-int_text, length-field}
use so_assignment2_air_bridg.Logging.Lines.{passenger_columns}

abbrev pub is_blank : ℕ → Bool
is_blank c = c == b' ' || c == b'\n'

abbrev pub is_digit : ℕ → Bool
is_digit c = leb b'0' c && leb c b'9'

-- The number read so far, if one has begun, goes in front of the others.
abbrev pub flush : Option ℕ → Option (List ℕ) → Option (List ℕ)
flush none ns = ns
flush (some n) ns = do rest ← ns; some (n ∷ rest)

abbrev pub next_digit : Option ℕ → ℕ → ℕ
next_digit none c = c - b'0'
next_digit (some n) c = n * 10 + (c - b'0')

-- The numbers of a text.
unfoldable pub read : Option ℕ → Bytes → Option (List ℕ)
read now [] = flush now (some [])
read now (c ∷ s) =
    let other = flush now (read none s) in
    let longer = read (some (next_digit now c)) s in
    if is_blank c then other else if is_digit c then longer else none

read-digits :
    (k n : ℕ) (out : Bytes) → n < 10 ^ suc k → read none (digits (suc k) n out) ≡ read (some n) out
unfolding digits read
read-digits zero n out h = ground arith
read-digits (suc k) n out h =
    let lower : n / 10 < 10 ^ suc k = omega (arith, pow-suc 10 (suc k)) in
    ground (arith, read-digits k (n / 10) ((b'0' + n % 10) ∷ out) lower)

digits-append : (k n : ℕ) (out rest : Bytes) → digits k n out ++ rest ≡ digits k n (out ++ rest)
unfolding digits
digits-append zero n out rest = refl
digits-append (suc k) n out rest =
    ground (arith, digits-append k (n / 10) ((b'0' + n % 10) ∷ out) rest)

-- A printed number reads as that number.
read-int_text :
    (v : ℕ) (rest : Bytes) → v < 2 ^ 31 → read none (int_text v ++ rest) ≡ read (some v) rest
unfolding int_text decimal
read-int_text v rest h = ground (arith, digits-append 10 v [] rest, read-digits 9 v rest)

read_blanks : (n : ℕ) (s : Bytes) → read none (replicate n b' ' ++ s) ≡ read none s
unfolding read
read_blanks zero s = refl
read_blanks (suc n) s = read_blanks n s

abbrev BeginsBlank : Bytes → Type 0
BeginsBlank [] = ⊥
BeginsBlank (c ∷ s) = is_blank c ≡ true

-- The end of a line, and the numbers that it reads as.
pub record ReadsTo (s : Bytes) (ns : List ℕ) : Type 0 where
  pub begins : BeginsBlank s
  pub reads : read none s ≡ some ns

-- A part of a line, which adds numbers to those of any end.
pub record Column (s : Bytes) (ns : List ℕ) : Type 0 where
  pub extends : (t : Bytes) (ms : List ℕ) → ReadsTo t ms → ReadsTo (s ++ t) (ns ++ ms)

-- A number ends where a blank begins.
read_end : (v : ℕ) (t : Bytes) → BeginsBlank t → read (some v) t ≡ flush (some v) (read none t)
unfolding read
read_end v [] b = elim b [ ]
read_end v (c ∷ s) b = ground arith

padded-ReadsTo :
    (m v : ℕ) (t : Bytes) (ms : List ℕ)
    → v < 2 ^ 31
    → ReadsTo t ms
    → ReadsTo ((replicate (suc m) b' ' ++ int_text v) ++ t) (v ∷ ms)
padded-ReadsTo m v t ms fits r = record {
  begins = refl;
  reads =
      ap (read none) (append_assoc (replicate (suc m) b' ') (int_text v) t)
      ∙ read_blanks (suc m) (int_text v ++ t)
      ∙ read-int_text v t fits
      ∙ read_end v t r.begins
      ∙ ap (flush (some v)) r.reads;
}

pub field-Column : (j v : ℕ) → v < 10 ^ suc j → v < 2 ^ 31 → Column (field (suc (suc j)) v) (v ∷ [])
unfolding field
field-Column j v h fits = record {
  extends = λ t ms r.
      let room : suc (suc j) - length (int_text v) ≡ suc (suc j - length (int_text v)) =
        omega (arith, length-int_text j v h fits) in
      rw room (padded-ReadsTo _ v t ms fits r);
}

pub blank-Column : Column (codes " ") []
unfolding read
blank-Column = record { extends = λ t ms r. record { begins = refl; reads = r.reads } }

pub append-Column :
    {s t : Bytes} {ns ms : List ℕ} → Column s ns → Column t ms → Column (s ++ t) (ns ++ ms)
append-Column {s} {t} {ns} {ms} c d = record {
  extends =
      λ u ks r. rw (append_assoc s t u, append_assoc ns ms ks) (c.extends _ _ (d.extends u ks r));
}

-- The loop of `saveState`, if the array holds what it reads and the numbers fit.
pub passenger_columns-Column :
    (p : ℕ) (l : List ℕ)
    → p ≤ length l
    → ((j v : ℕ) → get_elem? l j ≡ some v → v < 1000)
    → (cs : Bytes) × (passenger_columns p l ≡ some cs) × Column cs (take p l) × (length cs ≡ 4 * p)
unfolding passenger_columns
passenger_columns-Column zero l h small = ([], refl, record { extends = λ t ms r. r }, refl)
passenger_columns-Column (suc p) l h small =
    let (cs, e, c, len) = passenger_columns-Column p l (omega arith) small in
    let (v, at) = get_elem?_inside l p (omega arith) in
    let fits : v < 1000 = small p v at in
    (
      cs ++ field 4 v,
      rw (e, at) refl,
      rw (take-suc p l v at) (append-Column c (field-Column 2 v fits (omega arith))),
      omega (
        arith,
        len,
        length-append cs (field 4 v),
        length-field 4 v (omega (arith, length-int_text 2 v fits (omega arith))),
      ),
    )
