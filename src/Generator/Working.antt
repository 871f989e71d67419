-- ===== src/Generator/Working.antt =====
-- The system calls of `main` in src/probSemSharedMemAirLift.c before its loop of `wait`, and what it takes for
-- that part of `main` to succeed.
use so_assignment2_air_bridg.Base.{
  ℕ, zero, suc, ◌+◌, ◌^◌, ◌≡◌, refl, sym, List, Bool, true, false, ◌&&◌, ◌||◌, ◌==◌, ltb, length,
  if◌then◌else◌, incr, some, none, arith,
}
use so_assignment2_air_bridg.Data.{n_pass}
use so_assignment2_air_bridg.Format.{Bytes, codes}
use so_assignment2_air_bridg.Semaphore.{sem_nu, start_gate, mutex, up_buf}
use so_assignment2_air_bridg.Attempt.{ok, fail, minus_one}
use so_assignment2_air_bridg.Ipc.{new_flags}
use so_assignment2_air_bridg.Generator.Buffers.{write_text, error_buffer}
use so_assignment2_air_bridg.Generator.Plan.{round}
use so_assignment2_air_bridg.Generator.Parts.{
  bind-Chained, signal, prepare-Chained, rest_of_prepare-Chained,
}
use so_assignment2_air_bridg.Generator.{
  World, Resources, lift, log_name, make_shared, make_passengers, make_hostess, make_pilot,
  make_children, prepare,
}

-- A call that does not return -1
abbrev pub works : ℕ → Bool
works r = if r == minus_one then false else true

-- The first `n` calls of `fork`
unfoldable pub forks_work : World → ℕ → Bool
forks_work w zero = true
forks_work w (suc n) = forks_work w n && ltb (w.fork n) (2 ^ 31)

abbrev pub log_works : World → Bytes → Bool
log_works w n_fic = length n_fic == 0 || (w.log_opens && w.log_closes)

-- `ftok`, `shmget`, `shmat`, the log, `semget` and the first `semop`
abbrev pub shared_work : World → Bytes → Bool
shared_work w n_fic =
    let shmid = w.calls.shmget w.ftok w.block_size new_flags in
    let semgid = w.calls.semget w.ftok (incr sem_nu) new_flags in
    works w.ftok
    && works shmid
    && (elim (w.calls.shmat shmid) [ some add ↦ true | none ↦ false ])
    && log_works w n_fic
    && works semgid
    && works (w.calls.semop semgid (up_buf mutex))

-- All calls: also the 23 of `fork`, and the `semop` that opens the gate
abbrev pub calls_work : World → Bytes → Bool
calls_work w n_fic =
    let semgid = w.calls.semget w.ftok (incr sem_nu) new_flags in
    shared_work w n_fic
    && forks_work w (n_pass + 2)
    && works (w.calls.semop semgid (up_buf start_gate))

-- The same for a command line, which must give a name of the log that fits, or none.
abbrev pub all_work : World → List Bytes → Bool
all_work w argv = elim (log_name argv) [ ok n_fic ↦ calls_work w n_fic | fail e ↦ false ]

module _ (w : World) where
  shared_needs :
      (argv : List Bytes) (key : Bytes) (r : Resources)
      → (make_shared w argv).1 ≡ ok (key, r)
      → (log_name argv ≡ ok r.n_fic)
        × (shared_work w r.n_fic ≡ true)
        × (r.semgid ≡ w.calls.semget w.ftok (incr sem_nu) new_flags)
  unfolding make_shared
  shared_needs argv key r e = ground arith

  one_more_fork :
      (n : ℕ) → forks_work w n ≡ true → ltb (w.fork n) (2 ^ 31) ≡ true → forks_work w (suc n) ≡ true
  unfolding forks_work
  one_more_fork n before e = rw (before, e) refl

  fork_needs :
      (n_fic key before named : Bytes) (p : ℕ)
      → (round w n_fic key p before).1 ≡ ok named
      → ltb (w.fork p) (2 ^ 31) ≡ true
  unfolding round
  fork_needs n_fic key before named p e = ground arith

  passengers_need :
      (n_fic key err named : Bytes) (p : ℕ)
      → (make_passengers w p n_fic key err).1 ≡ ok named
      → forks_work w p ≡ true
  unfolding make_passengers round forks_work
  passengers_need n_fic key err named zero e = refl
  passengers_need n_fic key err named (suc p) e =
      let c = bind-Chained (make_passengers w p n_fic key err) (round w n_fic key p) named e in
      one_more_fork p (passengers_need n_fic key err c.result p c.before)
        (fork_needs n_fic key c.result named p c.after)

  hostess_needs :
      (n_fic key err named : Bytes)
      → (make_hostess w n_fic key err).1 ≡ ok named
      → ltb (w.fork n_pass) (2 ^ 31) ≡ true
  unfolding make_hostess
  hostess_needs n_fic key err named e = ground arith

  pilot_needs :
      (n_fic key err : Bytes)
      → (make_pilot w n_fic key err).1 ≡ ok tt
      → ltb (w.fork (n_pass + 1)) (2 ^ 31) ≡ true
  unfolding make_pilot
  pilot_needs n_fic key err e = ground arith

  children_need :
      (n_fic key : Bytes) → (make_children w n_fic key).1 ≡ ok tt → forks_work w (n_pass + 2) ≡ true
  unfolding make_children
  children_need n_fic key e =
      let a = bind-Chained (lift (write_text 6 (codes "PG") error_buffer)) _ tt e in
      let b = bind-Chained (make_passengers w n_pass n_fic key a.result) _ tt a.after in
      let c =
        bind-Chained (make_hostess w n_fic key b.result) (make_pilot w n_fic key) tt b.after in
      let all = passengers_need n_fic key a.result b.result n_pass b.before in
      let ht = hostess_needs n_fic key b.result c.result c.before in
      let pt = pilot_needs n_fic key c.result c.after in
      one_more_fork (n_pass + 1) (one_more_fork n_pass all ht) pt

  signal_needs :
      (r last : Resources)
      → (signal w r).1 ≡ ok last
      → works (w.calls.semop r.semgid (up_buf start_gate)) ≡ true
  unfolding signal
  signal_needs r last e = ground arith

  -- `main` gets to its loop of `wait` only if all calls work.
  pub prepare_needs :
      (argv : List Bytes) (r : Resources) → (prepare w argv).1 ≡ ok r → all_work w argv ≡ true
  prepare_needs argv r e =
      let a = prepare-Chained w argv r e in
      let (key, found) = a.result in
      let b = rest_of_prepare-Chained w key found r a.after in
      let (named, shared, semgid) = shared_needs argv key found a.before in
      let forked = children_need found.n_fic key b.before in
      let opened = signal_needs found r b.after in
      rw (all_work, named) (rw (shared, forked) (rw (sym semgid) opened))
