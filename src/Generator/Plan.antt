-- ===== src/Generator/Plan.antt =====
-- What `main` of src/probSemSharedMemAirLift.c does before its loop of `wait`, part by part, up to its end
-- or up to a call that fails.
use so_assignment2_air_bridg.Base.{
  ℕ, zero, suc, ◌+◌, ◌≡◌, ◌≤◌, ◌<◌, refl, List, [], ◌∷◌, ◌++◌, length, arith, leb, true, ◌==◌,
}
use so_assignment2_air_bridg.Data.{n_pass}
use so_assignment2_air_bridg.Format.{Bytes, codes, int_text, zero_field}
use so_assignment2_air_bridg.Semaphore.{sem_nu, start_gate, mutex, up_buf}
use so_assignment2_air_bridg.Attempt.{
  ok, strcpy, check, require, undefined, no_signal, no_key, no_memory, no_map, no_semaphores,
  no_mutex, no_log, not_closed,
}
use so_assignment2_air_bridg.Ipc.{sem_create, shmem_create, shmem_attach}
use so_assignment2_air_bridg.Generator.{
  World, Action, Act, Resources, ◌>>=◌, ◌>>◌, lift, tell, spawned, opened_gate, check_fork,
  log_name, make_shared, make_passengers, make_hostess, make_pilot, make_children, prepare,
  passenger_command, hostess_command, pilot_command, made_block, attached, initialised, created_log,
  made_set, raised_mutex, log_result,
}
use so_assignment2_air_bridg.Generator.Buffers.{drop, write_text, c_string}
use so_assignment2_air_bridg.Generator.Children.{
  IsNamed, IsNamed-Numbered, passenger_spawns, child_spawns, passenger_error,
}
use so_assignment2_air_bridg.Generator.Parts.{signal, rest_of_prepare, prepare_parts}
use so_assignment2_air_bridg.Generator.Partial.{
  Follows, bind-Follows, call-Follows, tell-Follows, whole,
}

module _ (w : World) (n_fic key : Bytes) where
  -- One round of the loop that makes the passengers.
  unfoldable pub round : ℕ → Bytes → Act Bytes
  round p before = do
    _ ← lift (check_fork (w.fork p))
    num ← lift (strcpy 12 (int_text p))
    named ← lift (write_text 8 (zero_field 2 p) before)
    tell (spawned (passenger_command num n_fic key (c_string named)))
    lift (ok named)

  round-Follows :
      (p : ℕ) (before : Bytes)
      → p < n_pass
      → IsNamed before
      → Follows IsNamed
          (round p before)
          (spawned (passenger_command (int_text p) n_fic key (passenger_error p)) ∷ [])
  unfolding round
  round-Follows p before lt n =
      let (named, r) = IsNamed-Numbered p before (omega arith) n in
      call-Follows _ (check_fork (w.fork p)) (w.fork p) _ (λ a e. ground arith)
        (call-Follows _ (strcpy 12 (int_text p)) (int_text p) _ (λ a e. ground arith)
          (call-Follows _ (write_text 8 (zero_field 2 p) before) named _
            (λ a e. ground (arith, r.written))
            (rw (r.name) (tell-Follows [] _ (lift (ok named)) (whole named refl r.again)))))

  make_passengers-Follows :
      (p : ℕ) (err : Bytes)
      → p ≤ n_pass
      → IsNamed err
      → Follows IsNamed (make_passengers w p n_fic key err) (passenger_spawns p n_fic key)
  unfolding make_passengers passenger_spawns round
  make_passengers-Follows zero err le n = whole err refl n
  make_passengers-Follows (suc p) err le n =
      bind-Follows (passenger_spawns p n_fic key) _ (make_passengers w p n_fic key err) _
        (make_passengers-Follows p err (omega arith) n)
        (λ before m. round-Follows p before (omega arith) m)

  make_hostess-Follows :
      (err : Bytes)
      → IsNamed err
      → Follows
          (λ named. (kept : Bytes) × (named ≡ codes "error_HT" ++ (0 ∷ kept)))
          (make_hostess w n_fic key err)
          (spawned (hostess_command n_fic key (codes "error_HT")) ∷ [])
  unfolding make_hostess write_text c_string
  make_hostess-Follows err n =
      let room : leb 9 (length (codes "error_PG" ++ n.rest)) ≡ true = ground (arith, n.size) in
      rw (n.text) (
        rw room (
          call-Follows _ (check_fork (w.fork n_pass)) (w.fork n_pass) _ (λ a e. ground arith)
            (tell-Follows [] _ (lift (ok (codes "error_HT" ++ (0 ∷ drop 1 n.rest))))
              (whole _ refl (drop 1 n.rest, refl)))))

  make_pilot-Follows :
      (err : Bytes)
      → (kept : Bytes) × (err ≡ codes "error_HT" ++ (0 ∷ kept))
      → Follows
          (λ _. Unit {0})
          (make_pilot w n_fic key err)
          (spawned (pilot_command n_fic key (codes "error_PT")) ∷ [])
  unfolding make_pilot write_text c_string
  make_pilot-Follows err (kept, e) =
      let room : leb 9 (length (codes "error_HT" ++ (0 ∷ kept))) ≡ true = ground arith in
      rw e (
        rw room (
          call-Follows _ (check_fork (w.fork (n_pass + 1))) (w.fork (n_pass + 1)) _
            (λ a e. ground arith) (whole tt refl tt)))

  make_children-Follows :
      Follows (λ _. Unit {0}) (make_children w n_fic key) (child_spawns n_fic key)
  unfolding make_children child_spawns write_text
  make_children-Follows =
      bind-Follows (passenger_spawns n_pass n_fic key) _ (make_passengers w n_pass n_fic key _) _
        (make_passengers-Follows n_pass _ (omega arith)
          (record { rest = 0 ∷ (codes "     " ++ (0 ∷ [])); text = refl; size = refl }))
        (λ err n.
          bind-Follows (_ ∷ []) (_ ∷ []) (make_hostess w n_fic key err) _
            (make_hostess-Follows err n) (λ named m. make_pilot-Follows named m))

-- What is shared comes first.
abbrev pub shared_made : Resources → List Action
shared_made r =
    made_block r.shmid
    ∷ attached r.sh
    ∷ initialised
    ∷ created_log r.n_fic
    ∷ made_set r.semgid
    ∷ raised_mutex
    ∷ []

-- What the calls of `main` return for the shared objects.
abbrev pub returned : World → Bytes → Resources
returned w n_fic = record {
  n_fic = n_fic;
  shmid = shmem_create w.calls w.ftok w.block_size;
  sh = (shmem_attach w.calls (shmem_create w.calls w.ftok w.block_size) w.unset).1;
  semgid = sem_create w.calls w.ftok sem_nu;
}

module _ (w : World) where
  make_shared-Follows :
      (argv : List Bytes) (n_fic : Bytes)
      → log_name argv ≡ ok n_fic
      → Follows
          (λ p. p ≡ (int_text w.ftok, returned w n_fic))
          (make_shared w argv)
          (shared_made (returned w n_fic))
  unfolding make_shared
  make_shared-Follows argv n_fic e =
      let r = returned w n_fic in
      let result = (shmem_attach w.calls r.shmid w.unset).0 in
      let raised = w.calls.semop r.semgid (up_buf mutex) in
      rw e (
        call-Follows _ (check w.ftok no_key) (w.ftok) _ (λ a e. ground arith)
          (call-Follows _ (strcpy 12 (int_text w.ftok)) (int_text w.ftok) _ (λ a e. ground arith)
            (call-Follows _ (check r.shmid no_memory) r.shmid _ (λ a e. ground arith)
              (tell-Follows _ _ _ (
                call-Follows _ (check result no_map) result _ (λ a e. ground arith)
                  (call-Follows _ (require (result == 0) undefined) tt _ (λ a e. refl)
                    (tell-Follows _ _ _ (
                      tell-Follows _ _ _ (
                        call-Follows _ (log_result w.log_opens no_log n_fic) tt _ (λ a e. refl)
                          (tell-Follows _ _ _ (
                            call-Follows _ (log_result w.log_closes not_closed n_fic) tt _
                              (λ a e. refl)
                              (call-Follows _ (check r.semgid no_semaphores) r.semgid _
                                (λ a e. ground arith)
                                (tell-Follows _ _ _ (
                                  call-Follows _ (check raised no_mutex) raised _
                                    (λ a e. ground arith)
                                    (tell-Follows [] _ (lift (ok (int_text w.ftok, r)))
                                      (whole _ refl refl))))))))))))))))

  signal-Follows : (r : Resources) → Follows (λ last. last ≡ r) (signal w r) (opened_gate ∷ [])
  unfolding signal
  signal-Follows r =
      let opened = w.calls.semop r.semgid (up_buf start_gate) in
      call-Follows _ (check opened no_signal) opened _ (λ a e. ground arith)
        (tell-Follows [] _ (lift (ok r)) (whole r refl refl))

  rest_of_prepare-Follows :
      (key : Bytes) (r : Resources)
      → Follows
          (λ last. last ≡ r)
          (rest_of_prepare w key r)
          (child_spawns r.n_fic key ++ (opened_gate ∷ []))
  unfolding rest_of_prepare
  rest_of_prepare-Follows key r =
      bind-Follows (child_spawns r.n_fic key) (opened_gate ∷ []) (make_children w r.n_fic key) _
        (make_children-Follows w r.n_fic key) (λ _ _. signal-Follows r)

  -- All that comes before the loop of `wait`.
  abbrev pub plan : Bytes → List Action
  plan n_fic =
      shared_made (returned w n_fic) ++ (child_spawns n_fic (int_text w.ftok) ++ (opened_gate ∷ []))

  pub prepare-Follows :
      (argv : List Bytes) (n_fic : Bytes)
      → log_name argv ≡ ok n_fic
      → Follows (λ r. r ≡ returned w n_fic) (prepare w argv) (plan n_fic)
  prepare-Follows argv n_fic e = rw (prepare_parts w argv) (
      bind-Follows (shared_made (returned w n_fic)) _ (make_shared w argv) _
        (make_shared-Follows argv n_fic e)
        (λ p same. rw same (rest_of_prepare-Follows (int_text w.ftok) (returned w n_fic))))
