-- ===== src/Termination.antt =====
-- Termination: every run of the simulation ends, whatever the scheduler does, and it ends with all
-- processes at the end of their programs.
mod Measure
mod Lower
use so_assignment2_air_bridg.Base.{
  ℕ, zero, suc, ◌+◌, ◌≡◌, ◌≤◌, ◌<◌, refl, arith, inl, inr, total, total-update,
}
use so_assignment2_air_bridg.Data.{FullStat, n_pass}
use so_assignment2_air_bridg.Semaphore.{SemOp, IsSemOp}
use so_assignment2_air_bridg.Semaphore.Ideal.{ideal}
use so_assignment2_air_bridg.Pilot.{PilotPlace}
use so_assignment2_air_bridg.Passenger.{PassengerPlace}
use so_assignment2_air_bridg.Main.{start}
use so_assignment2_air_bridg.System.{
  System, Step, main_moves, pilot_moves, hostess_moves, passenger_moves, initial, Reach, begin,
  later,
}
use so_assignment2_air_bridg.Invariant.{
  SystemInv, passenger_inside, After-some, Inv-IsLow, Step-ideal, Reach-Inv, move_counts,
  landing-drop_down,
}
use so_assignment2_air_bridg.Progress.{AllDone, no_deadlock}
use Measure.{passenger_left, hostess_place_left, hostess_left, pilot_left, main_left}
use Lower.{pilot_part, pilot_lower, hostess_lower, passenger_lower, main_lower}

measure : System → ℕ
measure s =
    main_left s.main
    + pilot_part s.pilot s.shared
    + hostess_left s.hostess s.n_checked
    + total passenger_left n_pass s.passenger

-- Only while the pilot waits for the plane to be empty does a passenger arrive.
pub arriving-drop_down :
    (s : System) (j : ℕ)
    → j < n_pass
    → SystemInv s
    → s.passenger j ≡ PassengerPlace.arrive_body
    → s.pilot ≡ PilotPlace.drop_down
unfolding passenger_inside
arriving-drop_down s j lt i e =
    let v = move_counts s.passenger j lt PassengerPlace.arrive_post in
    landing-drop_down i (ground (arith, v.left, v.freed, v.ordered)) (ground (arith, v.own_inside))

Step-measure : {s t : System} → SystemInv s → Step ideal s t → measure t < measure s
unfolding measure
Step-measure {s} i (main_moves e) =
    omega (arith, After-some _ _ (main_lower s.pilot s.shared (Inv-IsLow i) s.main _ i.main_runs) e)
Step-measure {s} i (pilot_moves e) = omega (
  arith,
  After-some _ _ (pilot_lower s.main s.hostess s.n_checked _ s.shared (Inv-IsLow i) s.pilot i) e,
)
Step-measure {s} i (hostess_moves e) = omega (
  arith,
  After-some _ _ (hostess_lower s.main s.pilot s.n_checked _ s.shared (Inv-IsLow i) s.hostess i) e,
)
Step-measure {s} i (passenger_moves {p} j lt e) = omega (
  arith,
  After-some _ _
      (passenger_lower s.pilot s.shared (Inv-IsLow i) (s.passenger j) j
        (arriving-drop_down s j lt i))
      e,
  total-update passenger_left s.passenger p n_pass j lt,
)

-- `n` steps one after another.
pub data Steps (k : SemOp) (s : System) : ℕ → System → Type 0 where
  none_made : Steps k s zero s
  one_more : {n : ℕ} {t u : System} → Steps k s n t → Step k t u → Steps k s (suc n) u

-- The measure of the initial state.
abbrev pub max_steps : ℕ
max_steps = 1856

initial-measure : (f : FullStat) → measure (initial f) ≡ max_steps
unfolding measure main_left pilot_left hostess_place_left passenger_left start total
initial-measure f = refl

module _ {k : SemOp} (law : IsSemOp k) where
  Steps-Reach : {f : FullStat} {n : ℕ} {s : System} → Steps k (initial f) n s → Reach k f s
  Steps-Reach none_made = begin
  Steps-Reach (one_more r st) = later (Steps-Reach r) st

  Steps-measure :
      (f : FullStat) {n : ℕ} {s : System} → Steps k (initial f) n s → n + measure s ≤ max_steps
  Steps-measure f none_made = omega (arith, initial-measure f)
  Steps-measure f (one_more {n} {t} r st) =
      let i : SystemInv t = Reach-Inv law (Steps-Reach r) in
      omega (arith, Steps-measure f r, Step-measure i (Step-ideal law st i))

-- Every run of the simulation is finite: it makes at most `max_steps` steps, if `semop` behaves as
-- documented.
pub run_finite :
    (k : SemOp) (f : FullStat) (n : ℕ) (s : System)
    → IsSemOp k
    → Steps k (initial f) n s
    → n ≤ max_steps
run_finite k f n s law r = omega (arith, Steps-measure law f r)

-- With as much fuel as the measure, a run is brought to its end.
complete :
    {k : SemOp} {f : FullStat} {r : System} (law : IsSemOp k) (fuel : ℕ) {n : ℕ} (s : System)
    → measure s ≤ fuel
    → Reach k f s
    → Steps k r n s
    → (m : ℕ) × (t : System) × Steps k r m t × AllDone t
complete {k} {f} {r} law zero {n} s h reach run = elim (no_deadlock k f s law reach) [
  | inr d ↦ (n, s, run, d)
  | inl (t, st) ↦
      let i : SystemInv s = Reach-Inv law reach in
      absurd (omega (arith, Step-measure i (Step-ideal law st i)))
]
complete {k} {f} {r} law (suc fuel) {n} s h reach run = elim (no_deadlock k f s law reach) [
  | inr d ↦ (n, s, run, d)
  | inl (t, st) ↦
      let i : SystemInv s = Reach-Inv law reach in
      let lower : measure t < measure s = Step-measure i (Step-ideal law st i) in
      complete law fuel t (omega arith) (later reach st) (one_more run st)
]

-- From every state that the simulation can reach, every process can still be brought to the end of
-- its program, if `semop` behaves as documented.
pub always_completes :
    (k : SemOp) (f : FullStat) (s : System)
    → IsSemOp k
    → Reach k f s
    → (m : ℕ) × (t : System) × Steps k s m t × AllDone t
always_completes k f s law r = complete law (measure s) s (omega arith) r none_made
