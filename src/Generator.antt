-- ===== src/Generator.antt =====
-- src/probSemSharedMemAirLift.c outside of the simulation: what `main` makes before it waits for its
-- children, and what it removes afterwards, with the failure of every call. (Main has what comes
-- between.) A run is the list of the actions that took effect, and how it ended.
pub mod Buffers
pub mod Children
pub mod Made
pub mod Outcome
pub mod Partial
pub mod Parts
pub mod Plan
pub mod Trace
pub mod Sufficient
pub mod Working
use so_assignment2_air_bridg.Base.{
  ℕ, zero, suc, ◌+◌, ◌^◌, List, [], ◌∷◌, ◌++◌, length, leb, ◌==◌, if◌then◌else◌, Bool,
}
use so_assignment2_air_bridg.Data.{n_pass}
use so_assignment2_air_bridg.Format.{Bytes, codes, int_text, zero_field}
use so_assignment2_air_bridg.Semaphore.{sem_nu, start_gate, mutex, up_buf}
use so_assignment2_air_bridg.Attempt.{
  Attempt, Failure, ok, fail, arg, strcpy, check, require, no_log, not_closed, no_key,
  no_semaphores, no_memory, no_map, no_mutex, no_fork, no_signal, not_unmapped, not_destroyed,
  undefined,
}
use so_assignment2_air_bridg.Ipc.{
  Calls, sem_create, sem_destroy, shmem_create, shmem_attach, shmem_dettach, shmem_destroy,
}
use Buffers.{write_text, c_string, error_buffer}

pub data Action : Type 0 where
  made_block attached : ℕ → Action
  initialised : Action
  created_log : Bytes → Action
  made_set : ℕ → Action
  raised_mutex : Action
  spawned : List Bytes → Action  -- a child, with its `argv`
  opened_gate : Action
  removed_set unmapped removed_block : ℕ → Action

abbrev pub Act : Type 0 → Type 0
Act A = List Action × Attempt A

abbrev pub lift : {A : Type 0} → Attempt A → Act A
lift r = ([], r)

abbrev pub tell : Action → Act (Unit {0})
tell a = (a ∷ [], ok tt)

infixl 5 ◌>>=◌ ◌>>◌
abbrev pub ◌>>=◌ : {A B : Type 0} → Act A → (A → Act B) → Act B
(done, ok a) >>= f = let (more, r) = f a in (done ++ more, r)
(done, fail e) >>= f = (done, fail e)

abbrev pub ◌>>◌ : {A B : Type 0} → Act A → Act B → Act B
m >> k = m >>= λ _. k

-- The system calls, with the result of `ftok`, those of the 23 calls of `fork`, whether the log can be
-- opened and closed, the size of `SHARED_DATA`, and what the pointer `sh` holds before it is set.
pub record World : Type 0 where
  pub calls : Calls
  pub ftok : ℕ
  pub fork : ℕ → ℕ
  pub log_opens : Bool
  pub log_closes : Bool
  pub block_size : ℕ
  pub unset : ℕ

-- What the rest of `main` uses.
pub record Resources : Type 0 where
  pub n_fic : Bytes
  pub shmid : ℕ
  pub sh : ℕ
  pub semgid : ℕ

-- The name of the log file
unfoldable pub log_name : List Bytes → Attempt Bytes
log_name argv =
    if length argv == 2 then elim (arg argv 1) [ ok a ↦ strcpy 51 a | fail e ↦ fail e ] else ok []

-- `if (pid < 0) …`: the pattern of a negative `int`
abbrev pub check_fork : ℕ → Attempt ℕ
check_fork pid = if leb (2 ^ 31) pid then fail no_fork else ok pid

-- `openLog` and `closeLog` in `createLog`: without a name it is the standard output, which is neither
-- opened nor closed; otherwise `fopen` or `fclose` may fail, which ends the program.
abbrev pub log_result : Bool → Failure → Bytes → Attempt (Unit {0})
log_result succeeds e n_fic = if length n_fic == 0 then ok tt else require succeeds e

abbrev pub passenger_command : Bytes → Bytes → Bytes → Bytes → List Bytes
passenger_command num n_fic key err = codes "./passenger" ∷ num ∷ n_fic ∷ key ∷ err ∷ []

abbrev pub hostess_command : Bytes → Bytes → Bytes → List Bytes
hostess_command n_fic key err = codes "./hostess" ∷ n_fic ∷ key ∷ err ∷ []

abbrev pub pilot_command : Bytes → Bytes → Bytes → List Bytes
pilot_command n_fic key err = codes "./pilot" ∷ n_fic ∷ key ∷ err ∷ []

module _ (w : World) where
  -- The shared region, the log and the semaphores; the result has the key as a text too. If the region
  -- is not mapped, `shmemAttach` returns 1, which passes the test: `sh` is not set, and the first write
  -- through it is undefined.
  unfoldable pub make_shared : List Bytes → Act (Bytes × Resources)
  make_shared argv = do
    n_fic ← lift (log_name argv)
    key ← lift (check w.ftok no_key)
    num ← lift (strcpy 12 (int_text key))
    shmid ← lift (check (shmem_create w.calls key w.block_size) no_memory)
    tell (made_block shmid)
    let (result, sh) = shmem_attach w.calls shmid w.unset
    _ ← lift (check result no_map)
    lift (require (result == 0) undefined)
    tell (attached sh)
    tell initialised
    lift (log_result w.log_opens no_log n_fic)
    tell (created_log n_fic)
    lift (log_result w.log_closes not_closed n_fic)
    semgid ← lift (check (sem_create w.calls key sem_nu) no_semaphores)
    tell (made_set semgid)
    _ ← lift (check (w.calls.semop semgid (up_buf mutex)) no_mutex)
    tell raised_mutex
    lift (ok (num, record { n_fic = n_fic; shmid = shmid; sh = sh; semgid = semgid }))

  -- The first `p` rounds of the loop that makes the passengers; the array `nFicErr` is handed on.
  unfoldable pub make_passengers : ℕ → Bytes → Bytes → Bytes → Act Bytes
  make_passengers zero n_fic key err = lift (ok err)
  make_passengers (suc p) n_fic key err = do
    before ← make_passengers p n_fic key err
    _ ← lift (check_fork (w.fork p))
    num ← lift (strcpy 12 (int_text p))
    named ← lift (write_text 8 (zero_field 2 p) before)
    tell (spawned (passenger_command num n_fic key (c_string named)))
    lift (ok named)

  unfoldable pub make_hostess : Bytes → Bytes → Bytes → Act Bytes
  make_hostess n_fic key err = do
    named ← lift (write_text 6 (codes "HT") err)
    _ ← lift (check_fork (w.fork n_pass))
    tell (spawned (hostess_command n_fic key (c_string named)))
    lift (ok named)

  unfoldable pub make_pilot : Bytes → Bytes → Bytes → Act (Unit {0})
  make_pilot n_fic key err = do
    named ← lift (write_text 6 (codes "PT") err)
    _ ← lift (check_fork (w.fork (n_pass + 1)))
    tell (spawned (pilot_command n_fic key (c_string named)))

  -- All children
  unfoldable pub make_children : Bytes → Bytes → Act (Unit {0})
  make_children n_fic key = do
    err_pg ← lift (write_text 6 (codes "PG") error_buffer)
    err ← make_passengers n_pass n_fic key err_pg
    err_ht ← make_hostess n_fic key err
    make_pilot n_fic key err_ht

  -- `main` up to the loop of `wait`
  unfoldable pub prepare : List Bytes → Act Resources
  prepare argv = do
    (key, r) ← make_shared argv
    make_children r.n_fic key
    _ ← lift (check (w.calls.semop r.semgid (up_buf start_gate)) no_signal)
    tell opened_gate
    lift (ok r)

  -- `main` after the result is saved
  unfoldable pub clean_up : Resources → Act (Unit {0})
  clean_up r = do
    _ ← lift (check (sem_destroy w.calls r.semgid) not_destroyed)
    tell (removed_set r.semgid)
    _ ← lift (check (shmem_dettach w.calls r.sh) not_unmapped)
    tell (unmapped r.sh)
    _ ← lift (check (shmem_destroy w.calls r.shmid) not_destroyed)
    tell (removed_block r.shmid)
