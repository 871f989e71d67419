-- ===== src/Generator/Trace.antt =====
-- All that `main` of src/probSemSharedMemAirLift.c does before its loop of `wait`, in its order.
use so_assignment2_air_bridg.Base.{
  ◌≤◌, ◌≡◌, refl, List, [], ◌∷◌, ◌++◌, length, arith, ◌⊎◌, inl, inr,
}
use so_assignment2_air_bridg.Format.{Bytes, int_text}
use so_assignment2_air_bridg.Attempt.{Attempt, Failure, ok, fail}
use so_assignment2_air_bridg.Generator.{
  World, Resources, opened_gate, log_name, make_shared, prepare,
}
use so_assignment2_air_bridg.Generator.Children.{child_spawns}
use so_assignment2_air_bridg.Generator.Partial.{Begins, Follows-Begins, Follows-success}
use so_assignment2_air_bridg.Generator.Plan.{shared_made, returned, plan, prepare-Follows}

pub Attempt-cases :
    {A : Type 0} (r : Attempt A) → ((a : A) × (r ≡ ok a)) ⊎ ((e : Failure) × (r ≡ fail e))
Attempt-cases (ok a) = inl (a, refl)
Attempt-cases (fail e) = inr (e, refl)

log_name_fits : (argv : List Bytes) (n_fic : Bytes) → log_name argv ≡ ok n_fic → length n_fic ≤ 50
unfolding log_name
log_name_fits argv n_fic e = ground arith

module _ (w : World) where
  unnamed : (argv : List Bytes) (x : Failure) → log_name argv ≡ fail x → (prepare w argv).1 ≡ fail x
  unfolding prepare make_shared
  unnamed argv x e = rw e refl

  named_on_success :
      (argv : List Bytes) (r : Resources)
      → (prepare w argv).1 ≡ ok r
      → (n_fic : Bytes) × (log_name argv ≡ ok n_fic)
  named_on_success argv r e = elim (Attempt-cases (log_name argv)) [
    | inl named ↦ named
    | inr (x, failed) ↦ ground (arith, unnamed argv x failed)
  ]

  -- Whatever the calls return, and wherever `main` ends with a failure: what it has done before its loop
  -- of `wait` is a first part of one list. That list is to make and attach the shared memory, to initialise it,
  -- to make the log and the semaphores and to raise the mutex, with the identifiers that the calls return,
  -- then to spawn all children with the printed key, and then to open the start gate. It holds for a
  -- name of the log that the command line gives and the array has room for, or that is missing. A run in
  -- which the memory cannot be mapped is followed to the first write through the pointer, which is not set.
  pub prepare_prefix :
      (argv : List Bytes) (n_fic : Bytes)
      → log_name argv ≡ ok n_fic
      → Begins (prepare w argv).0 (
          shared_made (returned w n_fic)
          ++ (child_spawns n_fic (int_text w.ftok) ++ (opened_gate ∷ [])))
  prepare_prefix argv n_fic e =
      Follows-Begins (prepare w argv) (plan w n_fic) (prepare-Follows w argv n_fic e)

  -- If `main` gets as far as its loop of `wait`, without a write that is undefined, it has made and attached the shared memory, initialised
  -- it, made the log and the semaphores, raised the mutex, spawned all children with the printed key, and
  -- only then opened the start gate. The name of the log has at most 50 bytes.
  pub prepare_trace :
      (argv : List Bytes) (r : Resources)
      → (prepare w argv).1 ≡ ok r
      → ((prepare w argv).0
          ≡ shared_made r ++ (child_spawns r.n_fic (int_text w.ftok) ++ (opened_gate ∷ [])))
        × (length r.n_fic ≤ 50)
  prepare_trace argv r e =
      let (n_fic, named) = named_on_success argv r e in
      let (all, same) =
        Follows-success (prepare w argv) (plan w n_fic) r (prepare-Follows w argv n_fic named) e in
      rw same (all, log_name_fits argv n_fic named)
