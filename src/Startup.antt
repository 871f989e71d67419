-- ===== src/Startup.antt =====
-- How the pilot, the hostess and a passenger begin and end (`main` of src/semSharedMemPilot.c,
-- src/semSharedMemHostess.c and src/semSharedMemPassenger.c): the test of the command line, the
-- connection to what is shared, and the unmapping after the life cycle. `freopen`, whose result nothing
-- reads, is left out.
pub mod Commands
pub mod Connecting
pub mod Handover
pub mod Identity
use so_assignment2_air_bridg.Base.{
  ℕ, ◌%◌, ◌^◌, Bool, true, false, ◌&&◌, ◌||◌, List, [], ◌∷◌, length, ltb, leb, ◌==◌,
}
use so_assignment2_air_bridg.Data.{n_pass}
use so_assignment2_air_bridg.Format.{Bytes}
use so_assignment2_air_bridg.Format.Strtol.{strtol}
use so_assignment2_air_bridg.Attempt.{
  Attempt, ok, ◌>>=◌, ◌>>◌, require, arg, strcpy, check, wrong_count, wrong_id, wrong_key,
  no_semaphores, no_memory, no_map, not_unmapped,
}
use so_assignment2_air_bridg.Ipc.{
  Calls, sem_connect_set, shmem_connect, shmem_attach, shmem_dettach,
}

-- The three static variables; `sh` is 0 until it is set.
pub record Connection : Type 0 where
  pub semgid : ℕ
  pub shmid : ℕ
  pub sh : ℕ

-- `semConnect`, `shmemConnect` and `shmemAttach` with their tests
unfoldable pub connect_all : Calls → ℕ → Attempt Connection
connect_all c key = do
  semgid ← check (sem_connect_set c key) no_semaphores
  shmid ← check (shmem_connect c key) no_memory
  let (result, sh) = shmem_attach c shmid 0
  _ ← check result no_map
  ok (record { semgid = semgid; shmid = shmid; sh = sh })

-- `*tinp == '\0'`
abbrev pub is_end : Bytes → Bool
is_end [] = true
is_end (_ ∷ _) = false

-- `(unsigned int) strtol (argv[i], &tinp, 0)`, and whether nothing is left.
abbrev pub read_unsigned : Bytes → ℕ × Bool
read_unsigned a = let (n, rest) = strtol a in (n % 2 ^ 32, is_end rest)

-- `n < N` for an `int`: a pattern from 2 ^ 31 on is negative.
abbrev pub below_n_pass : ℕ → Bool
below_n_pass n = ltb n n_pass || leb (2 ^ 31) n

pub record Arguments : Type 0 where
  pub n_fic : Bytes
  pub key : ℕ

unfoldable pub pilot_arguments : List Bytes → Attempt Arguments
pilot_arguments argv = do
  require (length argv == 4) wrong_count
  a1 ← arg argv 1
  n_fic ← strcpy 51 a1
  a2 ← arg argv 2
  let (key, whole) = read_unsigned a2
  require whole wrong_key
  ok (record { n_fic = n_fic; key = key })

unfoldable pub hostess_arguments : List Bytes → Attempt Arguments
hostess_arguments argv = do
  require (length argv == 4) wrong_count
  a1 ← arg argv 1
  n_fic ← strcpy 51 a1
  a2 ← arg argv 2
  let (key, whole) = read_unsigned a2
  require whole wrong_key
  ok (record { n_fic = n_fic; key = key })

-- A passenger has an identification too.
unfoldable pub passenger_arguments : List Bytes → Attempt (ℕ × Arguments)
passenger_arguments argv = do
  require (length argv == 5) wrong_count
  a1 ← arg argv 1
  let (n, number) = read_unsigned a1
  require (number && below_n_pass n) wrong_id
  a2 ← arg argv 2
  n_fic ← strcpy 51 a2
  a3 ← arg argv 3
  let (key, whole) = read_unsigned a3
  require whole wrong_key
  ok (n, record { n_fic = n_fic; key = key })

module _ (c : Calls) (argv : List Bytes) where
  unfoldable pub pilot_start : Attempt (Arguments × Connection)
  pilot_start = do a ← pilot_arguments argv; connection ← connect_all c a.key; ok (a, connection)

  unfoldable pub hostess_start : Attempt (Arguments × Connection)
  hostess_start = do
    a ← hostess_arguments argv
    connection ← connect_all c a.key
    ok (a, connection)

  unfoldable pub passenger_start : Attempt (ℕ × Arguments × Connection)
  passenger_start = do
    (n, a) ← passenger_arguments argv
    connection ← connect_all c a.key
    ok (n, a, connection)

-- `shmemDettach` with its test, with which all three end
unfoldable pub leave : Calls → Connection → Attempt (Unit {0})
leave c connection = do _ ← check (shmem_dettach c connection.sh) not_unmapped; ok tt
