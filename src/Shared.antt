-- ===== src/Shared.antt =====
-- What the processes share: the record of the problem (`SHARED_DATA`, src/sharedDataSync.h), the
-- values of the semaphores and the log. The semaphores' identifiers, which `main` stores once in
-- `SHARED_DATA` and nothing writes afterwards, are the constants of `Semaphore`.
use so_assignment2_air_bridg.Base.{Option, none, some}
use so_assignment2_air_bridg.Data.{FullStat}
use so_assignment2_air_bridg.Semaphore.{Values, Outcome, done, blocked, failed}
use so_assignment2_air_bridg.Logging.{Log}

pub record Shared : Type 0 where
  pub f_st : FullStat
  pub sems : Values
  pub log : Log

-- A step of a process with places `P`: it waits, or it changes what is shared and moves on.
abbrev pub Turn : Type 0 → Type 0
Turn P = Option (Shared × P)

-- `if (semDown (…) == -1) { perror (…); exit (EXIT_FAILURE); }`, and the same of `semUp`: a failure
-- leads to the place `fail`.
abbrev pub checked : {P : Type 0} → Outcome → Shared → P → P → Turn P
checked blocked s fail next = none
checked (done v) s fail next = some (record s { sems = v }, next)
checked failed s fail next = some (s, fail)

-- `semDown (…);` and `semUp (…);` with the result thrown away: after a failure the process goes on.
abbrev pub unchecked : {P : Type 0} → Outcome → Shared → P → Turn P
unchecked r s next = checked r s next next

-- A step inside a critical section.
abbrev pub act : {P : Type 0} → Shared → P → Turn P
act s next = some (s, next)
