-- ===== src/Generator/Sufficient.antt =====
-- If all system calls of `main` in src/probSemSharedMemAirLift.c work, it gets to its loop of `wait`.
use so_assignment2_air_bridg.Base.{
  ℕ, zero, suc, ◌+◌, ◌^◌, ◌-◌, ◌≡◌, ◌≤◌, ◌<◌, refl, sym, ◌∙◌, List, Bool, true, ◌&&◌, ltb, length,
  incr, arith, ◌++◌, [], ◌∷◌, inl, inr,
}
use so_assignment2_air_bridg.Data.{n_pass}
use so_assignment2_air_bridg.Format.{Bytes, codes, decimal, int_text}
use so_assignment2_air_bridg.Format.Decimal.{length-int_text, length-digits}
use so_assignment2_air_bridg.Semaphore.{sem_nu, start_gate, up_buf}
use so_assignment2_air_bridg.Attempt.{ok, fail}
use so_assignment2_air_bridg.Ipc.{new_flags}
use so_assignment2_air_bridg.Generator.Buffers.{drop, write_text, c_string}
use so_assignment2_air_bridg.Generator.Children.{IsNamed, IsNamed-Numbered}
use so_assignment2_air_bridg.Generator.Parts.{signal, rest_of_prepare, prepare_parts}
use so_assignment2_air_bridg.Generator.Plan.{round, returned}
use so_assignment2_air_bridg.Generator.Working.{
  works, forks_work, shared_work, calls_work, all_work,
}
use so_assignment2_air_bridg.Generator.Trace.{Attempt-cases}
use so_assignment2_air_bridg.Generator.{
  World, Act, Resources, ◌>>=◌, log_name, make_shared, make_passengers, make_hostess, make_pilot,
  make_children, prepare,
}

-- Both parts succeed, and the first one with a value of a kind.
record Succeeds {A : Type 0} (Q : A → Type 0) (m : Act A) : Type 0 where
  value : A
  result : m.1 ≡ ok value
  kind : Q value

bind-Succeeds :
    {A B : Type 0} {Q : A → Type 0} {R : B → Type 0} (m : Act A) (f : A → Act B)
    → Succeeds Q m
    → ((a : A) → Q a → Succeeds R (f a))
    → Succeeds R (m >>= f)
bind-Succeeds (xs, ok a) f h k =
    let same : h.value ≡ a = ground (arith, h.result) in
    let s = k a (rw (sym same) h.kind) in
    record { value = s.value; result = s.result; kind = s.kind }
bind-Succeeds (xs, fail e) f h k = ground (arith, h.result)

-- A key fits its array, with a sign and ten digits.
key_short : (v : ℕ) → v < 2 ^ 32 → length (int_text v) ≤ 11
unfolding int_text decimal
key_short v h =
    ground (
      arith,
      length-digits 9 10 v [] (omega arith),
      length-digits 9 10 (2 ^ 32 - v) [] (omega arith),
    )

both : (a b : Bool) → (a && b) ≡ true → (a ≡ true) × (b ≡ true)
both a b e = ground arith

last_fork :
    (w : World) (n : ℕ)
    → forks_work w (suc n) ≡ true
    → (forks_work w n ≡ true) × (ltb (w.fork n) (2 ^ 31) ≡ true)
unfolding forks_work
last_fork w n e = both (forks_work w n) (ltb (w.fork n) (2 ^ 31)) e

module _ (w : World) where
  shared-Succeeds :
      (argv : List Bytes) (n_fic : Bytes)
      → log_name argv ≡ ok n_fic
      → shared_work w n_fic ≡ true
      → length (int_text w.ftok) ≤ 11
      → (make_shared w argv).1 ≡ ok (int_text w.ftok, returned w n_fic)
  unfolding make_shared
  shared-Succeeds argv n_fic e all fits = rw e (ground (arith, all, fits))

  module _ (n_fic key : Bytes) where
    round-Succeeds :
        (p : ℕ) (before : Bytes)
        → p < n_pass
        → IsNamed before
        → ltb (w.fork p) (2 ^ 31) ≡ true
        → Succeeds IsNamed (round w n_fic key p before)
    unfolding round
    round-Succeeds p before lt n forked =
        let (named, r) = IsNamed-Numbered p before (omega arith) n in
        let short = length-int_text 1 p (omega arith) (omega arith) in
        record {
          value = named;
          result = rw (r.written) (ground (arith, forked, short));
          kind = r.again;
        }

    passengers-Succeeds :
        (p : ℕ) (err : Bytes)
        → p ≤ n_pass
        → IsNamed err
        → forks_work w p ≡ true
        → Succeeds IsNamed (make_passengers w p n_fic key err)
    unfolding make_passengers round forks_work
    passengers-Succeeds zero err le n all = record { value = err; result = refl; kind = n }
    passengers-Succeeds (suc p) err le n all =
        let (before, forked) = both (forks_work w p) (ltb (w.fork p) (2 ^ 31)) all in
        bind-Succeeds (make_passengers w p n_fic key err) (round w n_fic key p)
          (passengers-Succeeds p err (omega arith) n before)
          (λ named m. round-Succeeds p named (omega arith) m forked)

    hostess-Succeeds :
        (err : Bytes)
        → IsNamed err
        → ltb (w.fork n_pass) (2 ^ 31) ≡ true
        → Succeeds
            (λ named. (kept : Bytes) × (named ≡ codes "error_HT" ++ (0 ∷ kept)))
            (make_hostess w n_fic key err)
    unfolding make_hostess write_text c_string
    hostess-Succeeds err n forked = record {
      value = codes "error_HT" ++ (0 ∷ drop 1 n.rest);
      result = rw (n.text) (ground (arith, n.size, forked));
      kind = (drop 1 n.rest, refl);
    }

    pilot-Succeeds :
        (err : Bytes)
        → (kept : Bytes) × (err ≡ codes "error_HT" ++ (0 ∷ kept))
        → ltb (w.fork (n_pass + 1)) (2 ^ 31) ≡ true
        → Succeeds (λ _. Unit {0}) (make_pilot w n_fic key err)
    unfolding make_pilot write_text c_string
    pilot-Succeeds err (kept, e) forked = record {
      value = tt;
      result = rw e (ground (arith, forked));
      kind = tt;
    }

    children-Succeeds :
        forks_work w (n_pass + 2) ≡ true → Succeeds (λ _. Unit {0}) (make_children w n_fic key)
    unfolding make_children write_text
    children-Succeeds all =
        let (most, pilot) = last_fork w (n_pass + 1) all in
        let (passengers, hostess) = last_fork w n_pass most in
        bind-Succeeds (make_passengers w n_pass n_fic key _) _
          (passengers-Succeeds n_pass _ (omega arith)
            (record { rest = 0 ∷ (codes "     " ++ (0 ∷ [])); text = refl; size = refl })
            passengers)
          (λ err n.
            bind-Succeeds (make_hostess w n_fic key err) (make_pilot w n_fic key)
              (hostess-Succeeds err n hostess) (λ named m. pilot-Succeeds named m pilot))

  signal-Succeeds :
      (r : Resources)
      → works (w.calls.semop r.semgid (up_buf start_gate)) ≡ true
      → Succeeds (λ _. Unit {0}) (signal w r)
  unfolding signal
  signal-Succeeds r e = record { value = r; result = ground (arith, e); kind = tt }

  prepare-Succeeds :
      (argv : List Bytes) (n_fic : Bytes)
      → log_name argv ≡ ok n_fic
      → calls_work w n_fic ≡ true
      → w.ftok < 2 ^ 32
      → Succeeds (λ _. Unit {0}) (prepare w argv)
  unfolding rest_of_prepare
  prepare-Succeeds argv n_fic e all fits =
      let semgid = w.calls.semget w.ftok (incr sem_nu) new_flags in
      let gate = works (w.calls.semop semgid (up_buf start_gate)) in
      let (made, opened) = both (shared_work w n_fic && forks_work w (n_pass + 2)) gate all in
      let (shared, forked) = both (shared_work w n_fic) (forks_work w (n_pass + 2)) made in
      rw (prepare_parts w argv) (
        bind-Succeeds {Q = λ a. a ≡ (int_text w.ftok, returned w n_fic)} (make_shared w argv)
          (λ (key, r). rest_of_prepare w key r)
          (record {
            value = (int_text w.ftok, returned w n_fic);
            result = shared-Succeeds argv n_fic e shared (key_short w.ftok fits);
            kind = refl;
          })
          (λ a same. rw same (
            bind-Succeeds (make_children w n_fic (int_text w.ftok)) _
              (children-Succeeds n_fic (int_text w.ftok) forked)
              (λ _ _. signal-Succeeds (returned w n_fic) opened))))

  pub all_work-prepare :
      (argv : List Bytes)
      → all_work w argv ≡ true
      → w.ftok < 2 ^ 32
      → (r : Resources) × ((prepare w argv).1 ≡ ok r)
  all_work-prepare argv all fits = elim (Attempt-cases (log_name argv)) [
    | inl (n_fic, named) ↦
        let work : calls_work w n_fic ≡ true = sym (rw (all_work, named) refl) ∙ all in
        let s = prepare-Succeeds argv n_fic named work fits in (s.value, s.result)
    | inr (x, failed) ↦ ground (arith, failed, all)
  ]
