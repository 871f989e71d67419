-- ===== src/Tests/Starts.antt =====
-- How the programs begin, with system calls that all succeed, and with a memory that cannot be mapped.
use so_assignment2_air_bridg.Base.{
  if◌then◌else◌, ◌+◌, ◌-◌, ◌^◌, ◌≡◌, ◌≤◌, ◌⊎◌, ◌↔◌, refl, none, some, arith, List, [], ◌∷◌, ◌++◌,
  length, true, false, ◌==◌,
}
use so_assignment2_air_bridg.Data.{n_pass}
use so_assignment2_air_bridg.Format.{Bytes, codes, int_text, decimal, zero_field}
use so_assignment2_air_bridg.Attempt.{undefined, ok, fail, no_semaphores, no_memory}
use so_assignment2_air_bridg.Ipc.{Calls}
use so_assignment2_air_bridg.Startup.{
  connect_all, passenger_arguments, pilot_start, hostess_start, passenger_start,
}
use so_assignment2_air_bridg.Startup.Commands.{read_back}
use so_assignment2_air_bridg.Startup.Handover.{commands, child_at, children_start}
use so_assignment2_air_bridg.Startup.Connecting.{connects_iff, Reachable, found}
use so_assignment2_air_bridg.Startup.Identity.{negative_id_accepted, passenger_line}
use so_assignment2_air_bridg.Generator.{
  World, Resources, log_name, make_shared, make_passengers, make_hostess, make_pilot, make_children,
  prepare, clean_up, opened_gate,
}
use so_assignment2_air_bridg.Generator.Buffers.{write_text, c_string}
use so_assignment2_air_bridg.Generator.Children.{child_spawns}
use so_assignment2_air_bridg.Generator.Made.{
  blocks_made, sets_made, blocks_removed, sets_removed, gate_openings,
}
use so_assignment2_air_bridg.Generator.Outcome.{once, gate_opens_on_success, nothing_left}
use so_assignment2_air_bridg.Generator.Trace.{prepare_prefix, prepare_trace}
use so_assignment2_air_bridg.Generator.Working.{all_work}
use so_assignment2_air_bridg.Generator.Partial.{Begins}
use so_assignment2_air_bridg.Generator.Plan.{shared_made, returned}

-- Every call succeeds.
abbrev smooth : Calls
smooth = record {
  semget = λ key n f. 5;
  semop = λ id ops. 0;
  sem_remove = λ id. 0;
  shmget = λ key n f. 7;
  shmat = λ id. some 4096;
  shmdt = λ add. 0;
  shm_remove = λ id. 0;
}

-- The memory cannot be mapped.
abbrev unmapped : Calls
unmapped = record smooth { shmat = λ id. none }

abbrev world : World
world = record {
  calls = smooth;
  ftok = 2701197312;
  fork = λ i. 1000 + i;
  log_opens = true;
  log_closes = true;
  block_size = 160;
  unset = 0;
}

-- The hostess cannot be made.
abbrev no_hostess : World
no_hostess = record world {
  fork = λ i. elim (i == n_pass) [ true ↦ 2 ^ 32 - 1 | false ↦ 1000 + i ];
}

abbrev main_line : List Bytes
main_line = codes "./probSemSharedMemAirLift" ∷ codes "flights" ∷ []

abbrev resources : Resources
resources = record { n_fic = codes "flights"; shmid = 7; sh = 4096; semgid = 5 }

prepared : (prepare world main_line).1 ≡ ok resources
unfolding prepare log_name make_shared make_children make_passengers make_hostess make_pilot
    write_text c_string int_text zero_field
prepared = refl

cleaned : (clean_up world resources).1 ≡ ok tt
unfolding clean_up
cleaned = refl

unmapped-Reachable : Reachable unmapped 9
unmapped-Reachable = record {
  set_found = omega arith;
  gate_passed = omega arith;
  block_found = omega arith;
}

-- A process that could not map the memory has a null pointer to it.
null_pointer : connect_all unmapped 9 ≡ ok (record { semgid = 5; shmid = 7; sh = 0 })
unfolding connect_all
null_pointer = refl

connects_iff_example :
    (Reachable unmapped 9 ↔ (connect_all unmapped 9 ≡ ok (found unmapped 9)))
    × ((connect_all unmapped 9 ≡ ok (found unmapped 9))
        ⊎ ((connect_all unmapped 9 ≡ fail no_semaphores)
            ⊎ (connect_all unmapped 9 ≡ fail no_memory)))
connects_iff_example = connects_iff unmapped 9

negative_id_accepted_example :
    passenger_arguments (
      passenger_line
        (codes "./passenger")
        (b'-' ∷ decimal 3)
        (codes "flights")
        (int_text 77)
        (codes "err"))
    ≡ ok (2 ^ 32 - 3, record { n_fic = codes "flights"; key = 77 })
negative_id_accepted_example =
    negative_id_accepted 3 77 (codes "./passenger") (codes "flights") (codes "err") (omega arith)
      (omega arith) (omega arith) (omega arith)

smooth-Reachable : Reachable smooth 2701197312
smooth-Reachable = record {
  set_found = omega arith;
  gate_passed = omega arith;
  block_found = omega arith;
}

children_start_example :
    let lines = commands (prepare world main_line).0 in
    let a = read_back (codes "flights") 2701197312 in
    (length lines ≡ n_pass + 2)
    × (child_at (passenger_start smooth) lines 4 ≡ some (ok (4, a, found smooth 2701197312)))
    × (child_at (hostess_start smooth) lines n_pass ≡ some (ok (a, found smooth 2701197312)))
    × (child_at (pilot_start smooth) lines (n_pass + 1) ≡ some (ok (a, found smooth 2701197312)))
children_start_example =
    children_start world smooth main_line resources 4 prepared (omega arith) smooth-Reachable
      (omega arith)

prepare_trace_example :
    ((prepare world main_line).0
      ≡ shared_made resources
        ++ (child_spawns (codes "flights") (int_text 2701197312) ++ (opened_gate ∷ [])))
    × (length (codes "flights") ≤ 50)
prepare_trace_example = prepare_trace world main_line resources prepared

no_hostess_log : log_name main_line ≡ ok (codes "flights")
unfolding log_name
no_hostess_log = refl

-- The hostess cannot be made: the run stops behind the last passenger.
prepare_prefix_example : Begins (prepare no_hostess main_line).0 (
    shared_made (returned no_hostess (codes "flights"))
    ++ (child_spawns (codes "flights") (int_text 2701197312) ++ (opened_gate ∷ [])))
prepare_prefix_example = prepare_prefix no_hostess main_line (codes "flights") no_hostess_log

-- The memory cannot be mapped: `main` writes through a pointer that is not set.
abbrev unmapped_world : World
unmapped_world = record world { calls = unmapped }

unmapped_test : (prepare unmapped_world main_line).1 ≡ fail undefined
unfolding prepare make_shared log_name int_text
unmapped_test = refl

gate_opens_on_success_example :
    (gate_openings (prepare unmapped_world main_line).0
      ≡ (if all_work unmapped_world main_line then 1 else 0))
    × (gate_openings (prepare unmapped_world main_line).0
        ≡ once (prepare unmapped_world main_line).1)
gate_opens_on_success_example = gate_opens_on_success unmapped_world main_line (omega arith)

nothing_left_example :
    (blocks_made (prepare world main_line).0 ≡ blocks_removed (clean_up world resources).0)
    × (sets_made (prepare world main_line).0 ≡ sets_removed (clean_up world resources).0)
    × (blocks_removed (clean_up world resources).0 ≡ 7 ∷ [])
    × (sets_removed (clean_up world resources).0 ≡ 5 ∷ [])
nothing_left_example = nothing_left world main_line resources prepared cleaned
