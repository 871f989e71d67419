-- ===== src/Generator/Made.antt =====
-- What the actions of `main` in src/probSemSharedMemAirLift.c make, remove and open, and the parts that
-- only spawn.
use so_assignment2_air_bridg.Base.{ℕ, zero, suc, ◌+◌, ◌≡◌, refl, ap, List, [], ◌∷◌, ◌++◌, arith}
use so_assignment2_air_bridg.Data.{n_pass}
use so_assignment2_air_bridg.Format.{Bytes, codes}
use so_assignment2_air_bridg.Attempt.{ok, fail}
use so_assignment2_air_bridg.Generator.Buffers.{write_text, error_buffer}
use so_assignment2_air_bridg.Generator.{
  World, Action, Act, made_block, made_set, spawned, opened_gate, removed_set, removed_block, ◌>>=◌,
  lift, make_passengers, make_children, make_hostess, make_pilot,
}

-- The blocks and sets that were made, those that were removed, and how often the gate was opened.
abbrev pub blocks_made : List Action → List ℕ
blocks_made [] = []
blocks_made (made_block id ∷ xs) = id ∷ blocks_made xs
blocks_made (_ ∷ xs) = blocks_made xs

abbrev pub sets_made : List Action → List ℕ
sets_made [] = []
sets_made (made_set id ∷ xs) = id ∷ sets_made xs
sets_made (_ ∷ xs) = sets_made xs

abbrev pub blocks_removed : List Action → List ℕ
blocks_removed [] = []
blocks_removed (removed_block id ∷ xs) = id ∷ blocks_removed xs
blocks_removed (_ ∷ xs) = blocks_removed xs

abbrev pub sets_removed : List Action → List ℕ
sets_removed [] = []
sets_removed (removed_set id ∷ xs) = id ∷ sets_removed xs
sets_removed (_ ∷ xs) = sets_removed xs

abbrev pub gate_openings : List Action → ℕ
gate_openings [] = 0
gate_openings (opened_gate ∷ xs) = suc (gate_openings xs)
gate_openings (_ ∷ xs) = gate_openings xs

-- A part that only spawns.
unfoldable pub OnlySpawns : List Action → Type 0
OnlySpawns [] = Unit
OnlySpawns (spawned argv ∷ xs) = OnlySpawns xs
OnlySpawns (_ ∷ xs) = ⊥

append-OnlySpawns : (xs ys : List Action) → OnlySpawns xs → OnlySpawns ys → OnlySpawns (xs ++ ys)
unfolding OnlySpawns
append-OnlySpawns [] ys h k = k
append-OnlySpawns (spawned argv ∷ xs) ys h k = append-OnlySpawns xs ys h k
append-OnlySpawns (_ ∷ xs) ys h k = absurd h

bind-OnlySpawns :
    {A B : Type 0} (m : Act A) (f : A → Act B)
    → OnlySpawns (m.0)
    → ((a : A) → OnlySpawns (f a).0)
    → OnlySpawns (m >>= f).0
bind-OnlySpawns (xs, ok a) f h k = append-OnlySpawns xs (f a).0 h (k a)
bind-OnlySpawns (xs, fail e) f h k = h

-- A part that only spawns makes nothing that is shared, and does not open the gate.
pub record Neutral (xs : List Action) : Type 0 where
  pub blocks : blocks_made xs ≡ []
  pub sets : sets_made xs ≡ []
  pub gate : gate_openings xs ≡ 0

OnlySpawns-Neutral : (xs : List Action) → OnlySpawns xs → Neutral xs
unfolding OnlySpawns
OnlySpawns-Neutral [] h = record { blocks = refl; sets = refl; gate = refl }
OnlySpawns-Neutral (spawned argv ∷ xs) h =
    let n = OnlySpawns-Neutral xs h in record { blocks = n.blocks; sets = n.sets; gate = n.gate }
OnlySpawns-Neutral (_ ∷ xs) h = absurd h

pub blocks_made-append :
    (xs ys : List Action) → blocks_made (xs ++ ys) ≡ blocks_made xs ++ blocks_made ys
blocks_made-append [] ys = refl
blocks_made-append (made_block id ∷ xs) ys = ap (λ l. id ∷ l) (blocks_made-append xs ys)
blocks_made-append (_ ∷ xs) ys = blocks_made-append xs ys

pub sets_made-append : (xs ys : List Action) → sets_made (xs ++ ys) ≡ sets_made xs ++ sets_made ys
sets_made-append [] ys = refl
sets_made-append (made_set id ∷ xs) ys = ap (λ l. id ∷ l) (sets_made-append xs ys)
sets_made-append (_ ∷ xs) ys = sets_made-append xs ys

pub gate_openings-append :
    (xs ys : List Action) → gate_openings (xs ++ ys) ≡ gate_openings xs + gate_openings ys
gate_openings-append [] ys = omega arith
gate_openings-append (opened_gate ∷ xs) ys = omega (arith, gate_openings-append xs ys)
gate_openings-append (_ ∷ xs) ys = gate_openings-append xs ys

module _ (w : World) (n_fic key : Bytes) where
  make_passengers-OnlySpawns :
      (p : ℕ) (err : Bytes) → OnlySpawns (make_passengers w p n_fic key err).0
  unfolding make_passengers OnlySpawns
  make_passengers-OnlySpawns zero err = tt
  make_passengers-OnlySpawns (suc p) err =
      bind-OnlySpawns (make_passengers w p n_fic key err) _ (make_passengers-OnlySpawns p err)
        (λ b. ground arith)

  make_hostess-OnlySpawns : (err : Bytes) → OnlySpawns (make_hostess w n_fic key err).0
  unfolding make_hostess OnlySpawns
  make_hostess-OnlySpawns err = ground arith

  make_pilot-OnlySpawns : (err : Bytes) → OnlySpawns (make_pilot w n_fic key err).0
  unfolding make_pilot OnlySpawns
  make_pilot-OnlySpawns err = ground arith

  make_children-OnlySpawns : OnlySpawns (make_children w n_fic key).0
  unfolding make_children
  make_children-OnlySpawns =
      bind-OnlySpawns (lift (write_text 6 (codes "PG") error_buffer))
        (λ err_pg. do
          err ← make_passengers w n_pass n_fic key err_pg
          err_ht ← make_hostess w n_fic key err
          make_pilot w n_fic key err_ht)
        (unfold OnlySpawns in tt)
        (λ err_pg.
          bind-OnlySpawns (make_passengers w n_pass n_fic key err_pg)
            (λ err. do err_ht ← make_hostess w n_fic key err; make_pilot w n_fic key err_ht)
            (make_passengers-OnlySpawns n_pass err_pg)
            (λ err.
              bind-OnlySpawns (make_hostess w n_fic key err) (make_pilot w n_fic key)
                (make_hostess-OnlySpawns err) make_pilot-OnlySpawns))

  pub make_children-Neutral : Neutral (make_children w n_fic key).0
  make_children-Neutral = OnlySpawns-Neutral _ make_children-OnlySpawns
