-- ===== src/Ipc.antt =====
-- The system calls for semaphore sets and shared memory, as parameters, and what src/semaphore.c and
-- src/sharedMemory.c make of them. An `int` is its pattern of 32 bits; an address is a number.
use so_assignment2_air_bridg.Base.{
  ℕ, Bool, true, false, List, Option, none, some, incr, ◌==◌, if◌then◌else◌,
}
use so_assignment2_air_bridg.Semaphore.{SemBuf, gate_bufs}
use so_assignment2_air_bridg.Attempt.{minus_one}

-- The flags of `semget` and `shmget`: the permission bits, `IPC_CREAT` and `IPC_EXCL`.
pub record Flags : Type 0 where
  pub mode : ℕ
  pub creat : Bool
  pub excl : Bool

pub record Calls : Type 0 where
  pub semget : ℕ → ℕ → Flags → ℕ
  pub semop : ℕ → List SemBuf → ℕ
  pub sem_remove : ℕ → ℕ  -- `semctl (semgid, 0, IPC_RMID, NULL)`
  pub shmget : ℕ → ℕ → Flags → ℕ
  pub shmat : ℕ → Option ℕ  -- nothing for `(void *) -1`
  pub shmdt : ℕ → ℕ
  pub shm_remove : ℕ → ℕ  -- `shmctl (shmid, IPC_RMID, NULL)`

-- `MASK`, octal 0600
abbrev pub mask : ℕ
mask = 384

abbrev pub old_flags : Flags
old_flags = record { mode = mask; creat = false; excl = false }

abbrev pub new_flags : Flags
new_flags = record { mode = mask; creat = true; excl = true }

module _ (c : Calls) where
  abbrev pub sem_create : ℕ → ℕ → ℕ
  sem_create key snum = c.semget key (incr snum) new_flags

  -- `semConnect`, with the search for the set
  abbrev pub sem_connect_set : ℕ → ℕ
  sem_connect_set key =
      let semgid = c.semget key 1 old_flags in
      if semgid == minus_one
      then minus_one
      else if c.semop semgid gate_bufs == minus_one
      then minus_one
      else semgid

  abbrev pub sem_destroy : ℕ → ℕ
  sem_destroy semgid = c.sem_remove semgid

  abbrev pub shmem_create : ℕ → ℕ → ℕ
  shmem_create key size = c.shmget key size new_flags

  abbrev pub shmem_connect : ℕ → ℕ
  shmem_connect key = c.shmget key 1 old_flags

  abbrev pub shmem_destroy : ℕ → ℕ
  shmem_destroy shmid = c.shm_remove shmid

  -- The result, and the address at `pAttAdd`, where `old` was.
  abbrev pub shmem_attach : ℕ → ℕ → ℕ × ℕ
  shmem_attach shmid old = elim (c.shmat shmid) [ some add ↦ (0, add) | none ↦ (1, old) ]

  abbrev pub shmem_dettach : ℕ → ℕ
  shmem_dettach add = c.shmdt add
