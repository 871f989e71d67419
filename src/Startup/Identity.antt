-- ===== src/Startup/Identity.antt =====
-- The identification of a passenger on its command line.
use so_assignment2_air_bridg.Base.{ℕ, ◌-◌, ◌^◌, ◌≡◌, ◌<◌, ◌≤◌, ◌⊎◌, arith, List, [], ◌∷◌, length}
use so_assignment2_air_bridg.Data.{n_pass}
use so_assignment2_air_bridg.Format.{Bytes, int_text, decimal}
use so_assignment2_air_bridg.Format.Strtol.{strtol-int_text, strtol-negative}
use so_assignment2_air_bridg.Attempt.{ok}
use so_assignment2_air_bridg.Startup.{Arguments, passenger_arguments}

-- The command line of a passenger, without the program's name.
abbrev pub passenger_line : Bytes → Bytes → Bytes → Bytes → Bytes → List Bytes
passenger_line program id n_fic key err = program ∷ id ∷ n_fic ∷ key ∷ err ∷ []

-- A command line that a passenger accepts has five parts; its identification is below `N` or has the
-- sign bit set, its name of the log has at most 50 bytes, and its key has 32 bits.
accepted_id :
    (argv : List Bytes) (n : ℕ) (a : Arguments)
    → passenger_arguments argv ≡ ok (n, a)
    → (length argv ≡ 5) × (length a.n_fic ≤ 50) × (a.key < 2 ^ 32) × ((n < n_pass) ⊎ (2 ^ 31 ≤ n))
unfolding passenger_arguments
accepted_id argv n a e = ground arith

-- A passenger accepts every negative number of 32 bits as its identification, beside a key that `%d`
-- prints without a sign and a name of the log of at most 50 bytes: `-v` becomes the index `2 ^ 32 - v`.
pub negative_id_accepted :
    (v key : ℕ) (program n_fic err : Bytes)
    → 1 ≤ v
    → v ≤ 2 ^ 31
    → key < 2 ^ 31
    → length n_fic ≤ 50
    → passenger_arguments (passenger_line program (b'-' ∷ decimal v) n_fic (int_text key) err)
      ≡ ok (2 ^ 32 - v, record { n_fic = n_fic; key = key })
unfolding passenger_arguments
negative_id_accepted v key program n_fic err pos le small short =
    rw (strtol-negative v pos le, strtol-int_text key small) (ground arith)
