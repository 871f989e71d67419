-- ===== src/Startup/Handover.antt =====
-- From `main` of src/probSemSharedMemAirLift.c to `main` of the children: the command lines that it
-- spawns them with, and what they find.
use mathlib.Core.Option as Option
use so_assignment2_air_bridg.Base.{
  ℕ, zero, suc, ◌+◌, ◌^◌, ◌≡◌, ◌<◌, refl, ap, ◌∙◌, inl, inr, Option, append-nil, Bool-cases, ltb,
  arith, List, [], ◌∷◌, ◌++◌, length, length-append, get_elem?, some,
}
use so_assignment2_air_bridg.Data.{n_pass}
use so_assignment2_air_bridg.Format.{Bytes, codes, int_text}
use so_assignment2_air_bridg.Attempt.{ok}
use so_assignment2_air_bridg.Ipc.{Calls}
use so_assignment2_air_bridg.Generator.{
  World, Resources, Action, spawned, opened_gate, passenger_command, hostess_command, pilot_command,
  prepare,
}
use so_assignment2_air_bridg.Generator.Children.{passenger_error, passenger_spawns, child_spawns}
use so_assignment2_air_bridg.Generator.Trace.{prepare_trace}
use so_assignment2_air_bridg.Startup.{passenger_start, hostess_start, pilot_start}
use so_assignment2_air_bridg.Startup.Commands.{commands_accepted, read_back}
use so_assignment2_air_bridg.Startup.Connecting.{Reachable, found, Reachable-connect_all}

-- The command lines of the children, in the order in which they are made.
abbrev pub commands : List Action → List (List Bytes)
commands [] = []
commands (spawned argv ∷ xs) = argv ∷ commands xs
commands (_ ∷ xs) = commands xs

commands-append : (xs ys : List Action) → commands (xs ++ ys) ≡ commands xs ++ commands ys
commands-append [] ys = refl
commands-append (spawned argv ∷ xs) ys = ap (λ l. argv ∷ l) (commands-append xs ys)
commands-append (_ ∷ xs) ys = commands-append xs ys

module _ {ℓ} {A : Type ℓ} where
  get_elem?-append_left :
      (xs ys : List A) (i : ℕ) → i < length xs → get_elem? (xs ++ ys) i ≡ get_elem? xs i
  get_elem?-append_left [] ys i h = absurd (omega arith)
  get_elem?-append_left (x ∷ xs) ys zero h = refl
  get_elem?-append_left (x ∷ xs) ys (suc i) h = get_elem?-append_left xs ys i (omega arith)

  get_elem?-append_right :
      (xs ys : List A) (i k : ℕ) → k ≡ length xs + i → get_elem? (xs ++ ys) k ≡ get_elem? ys i
  get_elem?-append_right [] ys i k e = ap (get_elem? ys) (omega (arith, e))
  get_elem?-append_right (x ∷ xs) ys i zero e = absurd (omega (arith, e))
  get_elem?-append_right (x ∷ xs) ys i (suc k) e =
      get_elem?-append_right xs ys i k (omega (arith, e))

module _ (n_fic : Bytes) (key : ℕ) where
  abbrev passenger_lines : ℕ → List (List Bytes)
  passenger_lines n = commands (passenger_spawns n n_fic (int_text key))

  passenger_lines-suc :
      (n : ℕ)
      → passenger_lines (suc n)
        ≡ passenger_lines n
          ++ (passenger_command (int_text n) n_fic (int_text key) (passenger_error n) ∷ [])
  unfolding passenger_spawns
  passenger_lines-suc n = commands-append (passenger_spawns n n_fic (int_text key)) _

  length-passenger_lines : (n : ℕ) → length (passenger_lines n) ≡ n
  unfolding passenger_spawns
  length-passenger_lines zero = refl
  length-passenger_lines (suc n) =
      let line = passenger_command (int_text n) n_fic (int_text key) (passenger_error n) in
      omega (
        arith,
        ap length (passenger_lines-suc n),
        length-append (passenger_lines n) (line ∷ []),
        length-passenger_lines n,
      )

  -- Passenger `p` has its line at index `p`.
  passenger_lines_at :
      (n p : ℕ)
      → p < n
      → get_elem? (passenger_lines n) p
        ≡ some (passenger_command (int_text p) n_fic (int_text key) (passenger_error p))
  passenger_lines_at zero p h = absurd (omega arith)
  passenger_lines_at (suc n) p h =
      let line = passenger_command (int_text n) n_fic (int_text key) (passenger_error n) in
      let len = length-passenger_lines n in
      rw (passenger_lines-suc n) (elim (Bool-cases (ltb p n)) [
        | inl before ↦
            get_elem?-append_left (passenger_lines n) (line ∷ []) p (ground (arith, len))
            ∙ passenger_lines_at n p (ground arith)
        | inr last ↦
            let same : p ≡ n = ground arith in
            rw same
              (get_elem?-append_right (passenger_lines n) (line ∷ []) 0 n (omega (arith, len)))
      ])

  abbrev all_lines : List (List Bytes)
  all_lines = commands (child_spawns n_fic (int_text key))

  -- The lines of the hostess and the pilot
  abbrev last_lines : List (List Bytes)
  last_lines =
      hostess_command n_fic (int_text key) (codes "error_HT")
      ∷ pilot_command n_fic (int_text key) (codes "error_PT")
      ∷ []

  all_lines-passenger_lines : all_lines ≡ passenger_lines n_pass ++ last_lines
  unfolding child_spawns
  all_lines-passenger_lines = commands-append (passenger_spawns n_pass n_fic (int_text key)) _

  length-all_lines : length all_lines ≡ n_pass + 2
  length-all_lines = rw all_lines-passenger_lines (
      omega
        (arith, length-append (passenger_lines n_pass) last_lines, length-passenger_lines n_pass))

  all_lines_at :
      (p : ℕ)
      → p < n_pass
      → get_elem? all_lines p
        ≡ some (passenger_command (int_text p) n_fic (int_text key) (passenger_error p))
  all_lines_at p lt = rw all_lines-passenger_lines (
      get_elem?-append_left (passenger_lines n_pass) last_lines p
        (omega (arith, lt, length-passenger_lines n_pass))
      ∙ passenger_lines_at n_pass p lt)

  -- What stands behind the passengers
  all_lines_behind : (i : ℕ) → get_elem? all_lines (n_pass + i) ≡ get_elem? last_lines i
  all_lines_behind i = rw all_lines-passenger_lines (
      get_elem?-append_right (passenger_lines n_pass) last_lines i (n_pass + i)
        (omega (arith, length-passenger_lines n_pass)))

module _ (w : World) (argv : List Bytes) (r : Resources) where
  prepare_lines : (prepare w argv).1 ≡ ok r → commands (prepare w argv).0 ≡ all_lines r.n_fic w.ftok
  prepare_lines e =
      rw ((prepare_trace w argv r e).0)
        (commands-append (child_spawns r.n_fic (int_text w.ftok)) (opened_gate ∷ []) ∙ append-nil _)

-- What a child makes of the command line at an index, if there is one.
abbrev pub child_at : {A : Type 0} → (List Bytes → A) → List (List Bytes) → ℕ → Option A
child_at start lines i = Option.map start (get_elem? lines i)

-- If `main` gets as far as its loop of `wait`, with a key of 32 bits for which the sets of semaphores and
-- memory can be found and the start gate passed, it has made 23 children, and each of them starts:
-- passenger `p` as passenger `p`, the two others as hostess and pilot, all with the key and the name of the
-- log that `main` has, connected to the set and the block under that key.
pub children_start :
    (w : World) (c : Calls) (argv : List Bytes) (r : Resources) (p : ℕ)
    → (prepare w argv).1 ≡ ok r
    → w.ftok < 2 ^ 32
    → Reachable c w.ftok
    → p < n_pass
    → let lines = commands (prepare w argv).0 in
      let a = read_back r.n_fic w.ftok in
      (length lines ≡ n_pass + 2)
      × (child_at (passenger_start c) lines p ≡ some (ok (p, a, found c w.ftok)))
      × (child_at (hostess_start c) lines n_pass ≡ some (ok (a, found c w.ftok)))
      × (child_at (pilot_start c) lines (n_pass + 1) ≡ some (ok (a, found c w.ftok)))
unfolding passenger_start hostess_start pilot_start
children_start w c argv r p e fits h lt =
    let short = (prepare_trace w argv r e).1 in
    let name = r.n_fic in
    let key = w.ftok in
    let connected = Reachable-connect_all c key h in
    let accepted = commands_accepted p key name (passenger_error p) lt fits short in
    let accepted_ht = commands_accepted p key name (codes "error_HT") lt fits short in
    let accepted_pt = commands_accepted p key name (codes "error_PT") lt fits short in
    rw (prepare_lines w argv r e) (
      length-all_lines name key,
      rw (all_lines_at name key p lt) (rw (accepted.0) (rw connected refl)),
      rw (all_lines_behind name key 0) (rw (accepted_ht.1) (rw connected refl)),
      rw (all_lines_behind name key 1) (rw (accepted_pt.2) (rw connected refl)),
    )
