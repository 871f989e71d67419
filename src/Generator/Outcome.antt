-- ===== src/Generator/Outcome.antt =====
-- What `main` of src/probSemSharedMemAirLift.c has done when it has made its children, or failed to, and
-- what it removes in the end.
use so_assignment2_air_bridg.Base.{
  ℕ, ◌<◌, ◌^◌, if◌then◌else◌, Bool-cases, inl, inr, ◌≡◌, refl, List, [], ◌∷◌, arith, ◌∙◌, sym,
}
use so_assignment2_air_bridg.Format.{Bytes}
use so_assignment2_air_bridg.Attempt.{Attempt, ok, fail}
use so_assignment2_air_bridg.Generator.Made.{
  blocks_made, sets_made, blocks_removed, sets_removed, gate_openings, blocks_made-append,
  sets_made-append, gate_openings-append, make_children-Neutral,
}
use so_assignment2_air_bridg.Generator.Parts.{
  signal, rest_of_prepare, prepare_parts, prepare-Chained, rest_of_prepare-Chained,
}
use so_assignment2_air_bridg.Generator.Trace.{Attempt-cases}
use so_assignment2_air_bridg.Generator.Working.{all_work, prepare_needs}
use so_assignment2_air_bridg.Generator.Sufficient.{all_work-prepare}
use so_assignment2_air_bridg.Generator.{
  World, Act, Resources, ◌>>=◌, make_shared, make_children, prepare, clean_up,
}

-- 1 for a success and 0 for a failure
abbrev pub once : {A : Type 0} → Attempt A → ℕ
once (ok a) = 1
once (fail e) = 0

bind-once :
    {A B : Type 0} (m : Act A) (f : A → Act B)
    → gate_openings m.0 ≡ 0
    → ((a : A) → gate_openings (f a).0 ≡ once (f a).1)
    → gate_openings (m >>= f).0 ≡ once (m >>= f).1
bind-once (xs, ok a) f h k = omega (arith, gate_openings-append xs (f a).0, h, k a)
bind-once (xs, fail e) f h k = h

module _ (w : World) where
  make_shared_gate : (argv : List Bytes) → gate_openings (make_shared w argv).0 ≡ 0
  unfolding make_shared
  make_shared_gate argv = ground arith

  signal-once : (r : Resources) → gate_openings (signal w r).0 ≡ once (signal w r).1
  unfolding signal
  signal-once r = ground arith

  rest_of_prepare-once :
      (key : Bytes) (r : Resources)
      → gate_openings (rest_of_prepare w key r).0 ≡ once (rest_of_prepare w key r).1
  unfolding rest_of_prepare
  rest_of_prepare-once key r =
      bind-once (make_children w r.n_fic key) (λ _. signal w r)
        (make_children-Neutral w r.n_fic key).gate (λ _. signal-once r)

  once-all_work :
      (argv : List Bytes)
      → w.ftok < 2 ^ 32
      → once (prepare w argv).1 ≡ (if all_work w argv then 1 else 0)
  once-all_work argv fits = elim (Bool-cases (all_work w argv)) [
    | inl all ↦ let (r, e) = all_work-prepare w argv all fits in rw (all, e) refl
    | inr some_fails ↦ elim (Attempt-cases (prepare w argv).1) [
      | inl (r, e) ↦ ground (arith, prepare_needs w argv r e)
      | inr (x, e) ↦ rw (some_fails, e) refl
    ]
  ]

  gate-once : (argv : List Bytes) → gate_openings (prepare w argv).0 ≡ once (prepare w argv).1
  gate-once argv = rw (prepare_parts w argv) (
      bind-once (make_shared w argv) (λ (key, r). rest_of_prepare w key r) (make_shared_gate argv)
        (λ (key, r). rest_of_prepare-once key r))

  -- If `ftok` returns a pattern of 32 bits: `main` opens the start gate exactly once if every call works,
  -- that is `ftok`, `shmget`, `shmat`, the opening and closing of the log, `semget`, the two of
  -- `semop` and all 23 of `fork`, and if the name of the log fits its array; if one of them
  -- fails, `main` never opens it. It has opened it exactly if it gets to its loop of `wait`.
  -- (If `shmat` fails, `main` writes through a pointer that is not set, and the run is followed no further.)
  pub gate_opens_on_success :
      (argv : List Bytes)
      → w.ftok < 2 ^ 32
      → (gate_openings (prepare w argv).0 ≡ (if all_work w argv then 1 else 0))
        × (gate_openings (prepare w argv).0 ≡ once (prepare w argv).1)
  gate_opens_on_success argv fits = (gate-once argv ∙ once-all_work argv fits, gate-once argv)

  make_shared_made :
      (argv : List Bytes) (key : Bytes) (r : Resources)
      → (make_shared w argv).1 ≡ ok (key, r)
      → (blocks_made (make_shared w argv).0 ≡ r.shmid ∷ [])
        × (sets_made (make_shared w argv).0 ≡ r.semgid ∷ [])
  unfolding make_shared
  make_shared_made argv key r e = ground arith

  signal_makes :
      (r last : Resources)
      → (signal w r).1 ≡ ok last
      → (last ≡ r) × (blocks_made (signal w r).0 ≡ []) × (sets_made (signal w r).0 ≡ [])
  unfolding signal
  signal_makes r last e = ground arith

  -- What follows on the shared objects makes nothing that is shared.
  rest_of_prepare_makes :
      (key : Bytes) (r last : Resources)
      → (rest_of_prepare w key r).1 ≡ ok last
      → (last ≡ r)
        × (blocks_made (rest_of_prepare w key r).0 ≡ [])
        × (sets_made (rest_of_prepare w key r).0 ≡ [])
  unfolding rest_of_prepare
  rest_of_prepare_makes key r last e =
      let c = rest_of_prepare-Chained w key r last e in
      let n = make_children-Neutral w r.n_fic key in
      let (same, blocks, sets) = signal_makes r last c.after in
      (
        same,
        rw (c.together, blocks_made-append, n.blocks, blocks) refl,
        rw (c.together, sets_made-append, n.sets, sets) refl,
      )

  prepare_made :
      (argv : List Bytes) (r : Resources)
      → (prepare w argv).1 ≡ ok r
      → (blocks_made (prepare w argv).0 ≡ r.shmid ∷ [])
        × (sets_made (prepare w argv).0 ≡ r.semgid ∷ [])
  prepare_made argv r e =
      let c = prepare-Chained w argv r e in
      let (key, found) = c.result in
      let (blocks, sets) = make_shared_made argv key found c.before in
      let (same, no_blocks, no_sets) = rest_of_prepare_makes key found r c.after in
      (
        rw (prepare_parts w argv, c.together, blocks_made-append, blocks, no_blocks, same) refl,
        rw (prepare_parts w argv, c.together, sets_made-append, sets, no_sets, same) refl,
      )

  clean_up_removed :
      (r : Resources)
      → (clean_up w r).1 ≡ ok tt
      → (blocks_removed (clean_up w r).0 ≡ r.shmid ∷ [])
        × (sets_removed (clean_up w r).0 ≡ r.semgid ∷ [])
  unfolding clean_up
  clean_up_removed r e = ground arith

  -- If `main` prepares the simulation and later cleans up, both with success, what it has made is what
  -- it removes: one block of shared memory and one set of semaphores.
  pub nothing_left :
      (argv : List Bytes) (r : Resources)
      → (prepare w argv).1 ≡ ok r
      → (clean_up w r).1 ≡ ok tt
      → (blocks_made (prepare w argv).0 ≡ blocks_removed (clean_up w r).0)
        × (sets_made (prepare w argv).0 ≡ sets_removed (clean_up w r).0)
        × (blocks_removed (clean_up w r).0 ≡ r.shmid ∷ [])
        × (sets_removed (clean_up w r).0 ≡ r.semgid ∷ [])
  nothing_left argv r done undone =
      let (blocks, sets) = prepare_made argv r done in
      let (freed, removed) = clean_up_removed r undone in
      (blocks ∙ sym freed, sets ∙ sym removed, freed, removed)
