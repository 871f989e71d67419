-- ===== src/Startup/Connecting.antt =====
-- What the test of each connecting call does.
use so_assignment2_air_bridg.Base.{ℕ, ◌≡◌, ◌≢◌, ◌↔◌, none, arith, some, ◌⊎◌}
use so_assignment2_air_bridg.Attempt.{ok, fail, minus_one, no_semaphores, no_memory}
use so_assignment2_air_bridg.Semaphore.{gate_bufs}
use so_assignment2_air_bridg.Ipc.{Calls, old_flags}
use so_assignment2_air_bridg.Startup.{Connection, connect_all}

-- The three calls whose failure is noticed.
pub record Reachable (c : Calls) (key : ℕ) : Type 0 where
  pub set_found : c.semget key 1 old_flags ≢ minus_one
  pub gate_passed : c.semop (c.semget key 1 old_flags) gate_bufs ≢ minus_one
  pub block_found : c.shmget key 1 old_flags ≢ minus_one

-- The address that `shmat` gives, or the null that the pointer held.
abbrev pub mapped_or_null : Calls → ℕ → ℕ
mapped_or_null c shmid = elim (c.shmat shmid) [ some add ↦ add | none ↦ 0 ]

abbrev pub found : Calls → ℕ → Connection
found c key = record {
  semgid = c.semget key 1 old_flags;
  shmid = c.shmget key 1 old_flags;
  sh = mapped_or_null c (c.shmget key 1 old_flags);
}

pub Reachable-connect_all :
    (c : Calls) (key : ℕ) → Reachable c key → connect_all c key ≡ ok (found c key)
unfolding connect_all
Reachable-connect_all c key h = ground arith

connect_all-Reachable :
    (c : Calls) (key : ℕ) (r : Connection) → connect_all c key ≡ ok r → Reachable c key
unfolding connect_all
connect_all-Reachable c key r e = ground arith

connect_all_outcomes :
    (c : Calls) (key : ℕ)
    → (connect_all c key ≡ ok (found c key))
      ⊎ ((connect_all c key ≡ fail no_semaphores) ⊎ (connect_all c key ≡ fail no_memory))
unfolding connect_all
connect_all_outcomes c key = ground arith

-- A process connects exactly if it finds the set of semaphores, passes the start gate and finds the
-- shared memory, whether or not the memory could be mapped: if not, it goes on with a null pointer to
-- it. A failure that it reports is one of the semaphores or of finding the memory, never of the mapping.
pub connects_iff :
    (c : Calls) (key : ℕ)
    → (Reachable c key ↔ (connect_all c key ≡ ok (found c key)))
      × ((connect_all c key ≡ ok (found c key))
          ⊎ ((connect_all c key ≡ fail no_semaphores) ⊎ (connect_all c key ≡ fail no_memory)))
connects_iff c key =
    ((Reachable-connect_all c key, connect_all-Reachable c key _), connect_all_outcomes c key)
