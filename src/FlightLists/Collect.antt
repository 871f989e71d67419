-- ===== src/FlightLists/Collect.antt =====
-- A list in which each number below a bound occurs once, and nothing else, is those numbers in some
-- order.
use mathlib.Core.List.{Perm, perm_middle}
use mathlib.Core.List.Perm
use so_assignment2_air_bridg.Base.{
  ℕ, zero, suc, ◌+◌, ◌≡◌, ◌≤◌, ◌<◌, refl, ap, arith, List, [], ◌∷◌, ◌++◌, length, length-append,
  append_assoc, append-nil, ◌==◌, Bool-cases, inl, inr,
}
use so_assignment2_air_bridg.Checked.{occurrences}

-- The numbers below a bound.
unfoldable pub upto : ℕ → List ℕ
upto zero = []
upto (suc n) = upto n ++ (n ∷ [])

occurrences-append_list :
    (j : ℕ) (xs ys : List ℕ) → occurrences j (xs ++ ys) ≡ occurrences j xs + occurrences j ys
unfolding occurrences
occurrences-append_list j [] ys = omega arith
occurrences-append_list j (x ∷ xs) ys = omega (arith, occurrences-append_list j xs ys)

-- A list around one of its numbers.
record Split (a : ℕ) (xs : List ℕ) : Type 0 where
  front : List ℕ
  back : List ℕ
  parts : xs ≡ front ++ (a ∷ back)

occurrences-Split : (a : ℕ) (xs : List ℕ) → 1 ≤ occurrences a xs → Split a xs
unfolding occurrences
occurrences-Split a [] h = absurd (omega arith)
occurrences-Split a (x ∷ xs) h = elim (Bool-cases (x == a)) [
  | inl hit ↦
      let same : x ≡ a = ground arith in
      record { front = []; back = xs; parts = ap (λ y. y ∷ xs) same }
  | inr miss ↦
      let r = occurrences-Split a xs (ground arith) in
      record { front = x ∷ r.front; back = r.back; parts = ap (λ l. x ∷ l) r.parts }
]

-- The numbers below `n` and the rest.
record Collected (n : ℕ) (xs : List ℕ) : Type 0 where
  rest : List ℕ
  order : Perm xs (upto n ++ rest)
  counts : (j : ℕ) → n ≤ j → occurrences j rest ≡ occurrences j xs
  size : length xs ≡ n + length rest

once-Collected : (n : ℕ) (xs : List ℕ) → ((j : ℕ) → j < n → occurrences j xs ≡ 1) → Collected n xs
unfolding upto occurrences
once-Collected zero xs h = record {
  rest = xs;
  order = Perm.refl xs;
  counts = λ j le. refl;
  size = omega arith;
}
once-Collected (suc n) xs h =
    let c = once-Collected n xs (λ j lt. h j (omega arith)) in
    let one : 1 ≤ occurrences n c.rest =
      omega (arith, c.counts n (omega arith), h n (omega arith)) in
    let found = occurrences-Split n c.rest one in
    let kept = found.front ++ found.back in
    record {
      rest = kept;
      order = rw (append_assoc (upto n) (n ∷ []) kept) (
          Perm.trans (rw (found.parts) at c.order)
            (Perm.append_left (upto n) (perm_middle found.front found.back)));
      counts = λ j le. ground (
        arith,
        c.counts j (omega arith),
        ap (occurrences j) found.parts,
        occurrences-append_list j found.front (n ∷ found.back),
        occurrences-append_list j found.front found.back,
      );
      size = omega (
        arith,
        c.size,
        ap length found.parts,
        length-append found.front (n ∷ found.back),
        length-append found.front found.back,
      );
    }

-- With as many elements as the bound, nothing is left.
pub once-perm :
    (n : ℕ) (xs : List ℕ)
    → length xs ≡ n
    → ((j : ℕ) → j < n → occurrences j xs ≡ 1)
    → Perm xs (upto n)
once-perm n xs size h =
    let c = once-Collected n xs h in
    let none : length c.rest ≡ 0 = omega (arith, c.size) in
    let nothing : c.rest ≡ [] = ground arith in rw (nothing, append-nil) at c.order
