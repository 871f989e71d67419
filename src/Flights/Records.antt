-- ===== src/Flights/Records.antt =====
-- The record of the flights, `nPassengersInFlight` of src/probDataStruct.h, as the list of the
-- flights that have taken off followed by the cells that are still zero.
use so_assignment2_air_bridg.Base.{
  ℕ, suc, ◌+◌, ◌*◌, ◌≡◌, ◌≤◌, ◌⊎◌, refl, ap, Bool, true, false, List, [], ◌∷◌, ◌++◌, length, set,
  replicate, arith,
}
use so_assignment2_air_bridg.Data.{min_fc, max_fc}

unfoldable pub sum : List ℕ → ℕ
sum [] = 0
sum (x ∷ xs) = x + sum xs

-- Every flight carries somebody and at most the maximal number; it carries less than the minimal
-- number only if it is the last one and the air lift is finished.
unfoldable pub Rules : Bool → List ℕ → Type 0
Rules fin [] = Unit
Rules fin (x ∷ xs) =
    (1 ≤ x) × (x ≤ max_fc) × ((min_fc ≤ x) ⊎ ((fin ≡ true) × (length xs ≡ 0))) × Rules fin xs

pub sum-append : (xs : List ℕ) (v : ℕ) → sum (xs ++ (v ∷ [])) ≡ sum xs + v
unfolding sum
sum-append [] v = omega arith
sum-append (x ∷ xs) v = omega (arith, sum-append xs v)

-- One more flight, after flights that all carried the minimal number.
pub append-Rules :
    (fin : Bool) (xs : List ℕ) (v : ℕ)
    → Rules false xs
    → 1 ≤ v
    → v ≤ max_fc
    → (min_fc ≤ v) ⊎ (fin ≡ true)
    → Rules fin (xs ++ (v ∷ []))
unfolding Rules
append-Rules fin [] v h one cap m = ground arith
append-Rules fin (x ∷ xs) v h one cap m =
    let rest : Rules fin (xs ++ (v ∷ [])) = append-Rules fin xs v (h.3) one cap m in ground arith

-- Flights that each carry the minimal number carry that many times it.
pub Rules-sum : (xs : List ℕ) → Rules false xs → min_fc * length xs ≤ sum xs
unfolding Rules sum
Rules-sum [] h = omega arith
Rules-sum (x ∷ xs) h = let rest : min_fc * length xs ≤ sum xs = Rules-sum xs (h.3) in ground arith

-- The last flight may carry less.
pub Rules-sum_last :
    (fin : Bool) (xs : List ℕ) → Rules fin xs → min_fc * length xs + 1 ≤ sum xs + min_fc
unfolding Rules sum
Rules-sum_last fin [] h = omega arith
Rules-sum_last fin (x ∷ xs) h =
    let rest : min_fc * length xs + 1 ≤ sum xs + min_fc = Rules-sum_last fin xs (h.3) in
    ground arith

-- Writing the first cell that is still zero.
pub set_next :
    (xs : List ℕ) (n v : ℕ)
    → set (xs ++ replicate (suc n) 0) (length xs) v ≡ (xs ++ (v ∷ [])) ++ replicate n 0
set_next [] n v = refl
set_next (x ∷ xs) n v = ap (λ l. x ∷ l) (set_next xs n v)
