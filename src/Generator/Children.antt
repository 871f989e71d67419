-- ===== src/Generator/Children.antt =====
-- The children of `main` in src/probSemSharedMemAirLift.c, and the names of their error files.
use so_assignment2_air_bridg.Base.{
  ℕ, zero, suc, ◌+◌, ◌-◌, ◌/◌, ◌%◌, ◌<◌, ◌≡◌, refl, List, [], ◌∷◌, ◌++◌, length, leb, arith, true,
}
use so_assignment2_air_bridg.Data.{n_pass}
use so_assignment2_air_bridg.Format.{Bytes, codes, digits, decimal, int_text, zero_field}
use so_assignment2_air_bridg.Attempt.{ok}
use so_assignment2_air_bridg.Generator.{
  Action, spawned, passenger_command, hostess_command, pilot_command,
}
use so_assignment2_air_bridg.Generator.Buffers.{drop, write_text, c_string}

-- Two digits, as `%02d` prints them.
two_digits : (p : ℕ) → p < 100 → zero_field 2 p ≡ (b'0' + p / 10) ∷ (b'0' + p % 10) ∷ []
unfolding zero_field digits decimal
two_digits p h = ground arith

-- `nFicErr` between two rounds: the base of the name, and seven more bytes.
pub record IsNamed (err : Bytes) : Type 0 where
  pub rest : Bytes
  pub text : err ≡ codes "error_PG" ++ rest
  pub size : length rest ≡ 7

length-drop : (n : ℕ) (s : Bytes) → length (drop n s) ≡ length s - n
length-drop zero s = omega arith
length-drop (suc n) [] = omega arith
length-drop (suc n) (c ∷ s) = omega (arith, length-drop n s)

-- A round writes the number of the passenger behind the base of the name.
pub record Numbered (p : ℕ) (err named : Bytes) : Type 0 where
  pub written : write_text 8 (zero_field 2 p) err ≡ ok named
  pub name : c_string named ≡ codes "error_PG" ++ zero_field 2 p
  pub again : IsNamed named

pub IsNamed-Numbered :
    (p : ℕ) (err : Bytes) → p < 100 → IsNamed err → (named : Bytes) × Numbered p err named
unfolding write_text c_string
IsNamed-Numbered p err h n =
    let d = two_digits p h in
    let kept = drop 3 n.rest in
    let room : leb 11 (length (codes "error_PG" ++ n.rest)) ≡ true = ground (arith, n.size) in
    (
      codes "error_PG" ++ ((b'0' + p / 10) ∷ (b'0' + p % 10) ∷ 0 ∷ kept),
      record {
        written = rw (d, n.text) (rw room refl);
        name = rw d (ground arith);
        again = record {
          rest = (b'0' + p / 10) ∷ (b'0' + p % 10) ∷ 0 ∷ kept;
          text = refl;
          size = omega (arith, length-drop 3 n.rest, n.size);
        };
      },
    )

abbrev pub passenger_error : ℕ → Bytes
passenger_error p = codes "error_PG" ++ zero_field 2 p

-- The first `p` passengers.
unfoldable pub passenger_spawns : ℕ → Bytes → Bytes → List Action
passenger_spawns zero n_fic key = []
passenger_spawns (suc p) n_fic key =
    passenger_spawns p n_fic key
    ++ (spawned (passenger_command (int_text p) n_fic key (passenger_error p)) ∷ [])

-- All children, each with its own error file.
unfoldable pub child_spawns : Bytes → Bytes → List Action
child_spawns n_fic key =
    passenger_spawns n_pass n_fic key
    ++ (spawned (hostess_command n_fic key (codes "error_HT"))
        ∷ spawned (pilot_command n_fic key (codes "error_PT"))
        ∷ [])
