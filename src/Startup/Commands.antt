-- ===== src/Startup/Commands.antt =====
-- The command lines that src/probSemSharedMemAirLift.c gives to its children, as they read them.
use so_assignment2_air_bridg.Base.{
  ℕ, ◌-◌, ◌%◌, ◌^◌, ◌≡◌, ◌<◌, ◌≤◌, arith, [], length, inl, inr, ltb, Bool-cases,
}
use so_assignment2_air_bridg.Data.{n_pass}
use so_assignment2_air_bridg.Format.{Bytes, int_text}
use so_assignment2_air_bridg.Format.Strtol.{strtol, strtol-int_text, strtol-negative}
use so_assignment2_air_bridg.Attempt.{ok}
use so_assignment2_air_bridg.Generator.{passenger_command, hostess_command, pilot_command}
use so_assignment2_air_bridg.Startup.{
  Arguments, pilot_arguments, hostess_arguments, passenger_arguments,
}

-- What `strtol` makes of a printed pattern has that pattern as its lower half.
record Reads (v : ℕ) : Type 0 where
  long : ℕ
  read : strtol (int_text v) ≡ (long, [])
  low : long % 2 ^ 32 ≡ v

int_text-Reads : (v : ℕ) → v < 2 ^ 32 → Reads v
unfolding int_text
int_text-Reads v h = elim (Bool-cases (ltb v (2 ^ 31))) [
  | inl small ↦ record { long = v; read = strtol-int_text v (ground arith); low = omega arith }
  | inr large ↦ record {
    long = 2 ^ 64 - (2 ^ 32 - v);
    read = rw large (strtol-negative (2 ^ 32 - v) (omega arith) (ground arith));
    low = omega arith;
  }
]

abbrev pub read_back : Bytes → ℕ → Arguments
read_back n_fic key = record { n_fic = n_fic; key = key }

-- Each child accepts the command line that it is given, for every key of 32 bits, negative ones included,
-- and every name of the log of at most 50 bytes: it reads back the key and the name, and passenger `p`
-- reads `p`.
pub commands_accepted :
    (p key : ℕ) (n_fic err : Bytes)
    → p < n_pass
    → key < 2 ^ 32
    → length n_fic ≤ 50
    → (passenger_arguments (passenger_command (int_text p) n_fic (int_text key) err)
        ≡ ok (p, read_back n_fic key))
      × (hostess_arguments (hostess_command n_fic (int_text key) err) ≡ ok (read_back n_fic key))
      × (pilot_arguments (pilot_command n_fic (int_text key) err) ≡ ok (read_back n_fic key))
unfolding passenger_arguments hostess_arguments pilot_arguments
commands_accepted p key n_fic err lt fits short =
    let n = int_text-Reads p (omega arith) in
    let k = int_text-Reads key fits in
    (
      rw (n.read, k.read) (ground (arith, n.low, k.low)),
      rw (k.read) (ground (arith, k.low)),
      rw (k.read) (ground (arith, k.low)),
    )
