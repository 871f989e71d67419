-- ===== src/Generator/Parts.antt =====
-- The run of `main` in src/probSemSharedMemAirLift.c up to its loop of `wait`, in parts.
use so_assignment2_air_bridg.Base.{◌≡◌, refl, List, ◌++◌, arith, sym}
use so_assignment2_air_bridg.Format.{Bytes}
use so_assignment2_air_bridg.Semaphore.{start_gate, up_buf}
use so_assignment2_air_bridg.Attempt.{ok, fail, check, no_signal}
use so_assignment2_air_bridg.Generator.{
  World, Act, Resources, opened_gate, ◌>>=◌, lift, tell, make_shared, make_children, prepare, ◌>>◌,
}

-- A chain that succeeds: both parts do, one after the other.
pub record Chained {A B : Type 0} (m : Act A) (f : A → Act B) (b : B) : Type 0 where
  pub result : A
  pub before : m.1 ≡ ok result
  pub after : (f result).1 ≡ ok b
  pub together : (m >>= f).0 ≡ m.0 ++ (f result).0

pub bind-Chained :
    {A B : Type 0} (m : Act A) (f : A → Act B) (b : B) → (m >>= f).1 ≡ ok b → Chained m f b
bind-Chained (xs, ok a) f b e = record { result = a; before = refl; after = e; together = refl }
bind-Chained (xs, fail x) f b e = ground arith

module _ (w : World) where
  -- The last part of `prepare`.
  unfoldable pub signal : Resources → Act Resources
  signal r = do
    _ ← lift (check (w.calls.semop r.semgid (up_buf start_gate)) no_signal)
    tell opened_gate
    lift (ok r)

  -- What follows on the shared objects.
  unfoldable pub rest_of_prepare : Bytes → Resources → Act Resources
  rest_of_prepare key r = do make_children w r.n_fic key; signal r

  pub prepare_parts :
      (argv : List Bytes)
      → prepare w argv ≡ (make_shared w argv >>= λ (key, r). rest_of_prepare key r)
  unfolding prepare rest_of_prepare signal
  prepare_parts argv = refl

  pub prepare-Chained :
      (argv : List Bytes) (r : Resources)
      → (prepare w argv).1 ≡ ok r
      → Chained (make_shared w argv) (λ (key, r). rest_of_prepare key r) r
  prepare-Chained argv r e =
      bind-Chained (make_shared w argv) (λ (key, r). rest_of_prepare key r) r
        (rw (sym (prepare_parts argv)) e)

  pub rest_of_prepare-Chained :
      (key : Bytes) (r last : Resources)
      → (rest_of_prepare key r).1 ≡ ok last
      → Chained (make_children w r.n_fic key) (λ _. signal r) last
  unfolding rest_of_prepare
  rest_of_prepare-Chained key r last e =
      bind-Chained (make_children w r.n_fic key) (λ _. signal r) last e
