-- ===== src/Counters.antt =====
-- The counters of the shared record under `++` and `--` of an `unsigned int` (`nPassInQueue`,
-- `nPassInFlight`, `totalPassBoarded` and `nFlight` of src/probDataStruct.h).
use so_assignment2_air_bridg.Base.{
  ℕ, ◌+◌, ◌≡◌, ◌≤◌, ◌⊎◌, inl, inr, arith, refl, incr, total-update, ap,
}
use so_assignment2_air_bridg.Data.{FullStat, n_pass}
use so_assignment2_air_bridg.Semaphore.{SemOp, IsSemOp}
use so_assignment2_air_bridg.Shared.{Shared}
use so_assignment2_air_bridg.Main.{MainPlace, main_step}
use so_assignment2_air_bridg.Pilot.{PilotPlace, pilot_step}
use so_assignment2_air_bridg.Hostess.{HostessPlace, hostess_step}
use so_assignment2_air_bridg.Passenger.{PassengerPlace, passenger_step}
use so_assignment2_air_bridg.System.{
  System, Step, main_moves, pilot_moves, hostess_moves, passenger_moves, Reach, later, exits,
}
use so_assignment2_air_bridg.Invariant.{
  After, After-some, SystemInv, Counts, counts, reached, reached-le, Reach-Inv,
}
use so_assignment2_air_bridg.Flights.{IsFresh, flights_bounded}

-- The two counters that are only counted up.
record CountsUp (s t : Shared) : Type 0 where
  boarded :
      (t.f_st.total_pass_boarded ≡ s.f_st.total_pass_boarded)
      ⊎ (t.f_st.total_pass_boarded ≡ incr s.f_st.total_pass_boarded)
  number : (t.f_st.n_flight ≡ s.f_st.n_flight) ⊎ (t.f_st.n_flight ≡ incr s.f_st.n_flight)

module _ (k : SemOp) (s : Shared) where
  main-CountsUp : (e : ℕ) (m : MainPlace) → After (λ t _. CountsUp s t) (main_step k e m s)
  unfolding main_step
  main-CountsUp e m = ground arith

  pilot-CountsUp : (p : PilotPlace) → After (λ t _. CountsUp s t) (pilot_step k p s)
  unfolding pilot_step
  pilot-CountsUp p = ground arith

  hostess-CountsUp : (h : HostessPlace) (n : ℕ) → After (λ t _. CountsUp s t) (hostess_step k h n s)
  unfolding hostess_step
  hostess-CountsUp h n = ground arith

  passenger-CountsUp :
      (id : ℕ) (a : PassengerPlace) → After (λ t _. CountsUp s t) (passenger_step k id a s)
  unfolding passenger_step
  passenger-CountsUp id a = ground arith

  passenger_boards_nobody :
      (id : ℕ) (a : PassengerPlace)
      → After
          (λ t _. t.f_st.total_pass_boarded ≡ s.f_st.total_pass_boarded)
          (passenger_step k id a s)
  unfolding passenger_step
  passenger_boards_nobody id a = ground arith

Step-CountsUp : {k : SemOp} {s t : System} → Step k s t → CountsUp s.shared t.shared
Step-CountsUp {k} {s} (main_moves e) = After-some _ _ (main-CountsUp k s.shared (exits s) s.main) e
Step-CountsUp {k} {s} (pilot_moves e) = After-some _ _ (pilot-CountsUp k s.shared s.pilot) e
Step-CountsUp {k} {s} (hostess_moves e) =
    After-some _ _ (hostess-CountsUp k s.shared s.hostess s.n_checked) e
Step-CountsUp {k} {s} (passenger_moves i lt e) =
    After-some _ _ (passenger-CountsUp k s.shared i (s.passenger i)) e

-- Two values at most one apart.
abbrev pub Near : ℕ → ℕ → Type 0
Near a b = (a ≤ b + 1) × (b ≤ a + 1)

-- The passengers who have joined and those who have left, before and after a step.
record NearCounts (c d : Counts) : Type 0 where
  joined : Near c.joined d.joined
  left : Near c.left d.left

Step-NearCounts :
    {k : SemOp} {s t : System} → Step k s t → NearCounts (counts s.passenger) (counts t.passenger)
Step-NearCounts (main_moves e) = record { joined = omega arith; left = omega arith }
Step-NearCounts (pilot_moves e) = record { joined = omega arith; left = omega arith }
Step-NearCounts (hostess_moves e) = record { joined = omega arith; left = omega arith }
Step-NearCounts {s} (passenger_moves {p} i lt e) = record {
  joined = omega (
    arith,
    total-update (reached 3) s.passenger p n_pass i lt,
    reached-le 3 p,
    reached-le 3 (s.passenger i),
  );
  left = omega (
    arith,
    total-update (reached 13) s.passenger p n_pass i lt,
    reached-le 13 p,
    reached-le 13 (s.passenger i),
  );
}

-- Only passengers join and leave, and they board nobody.
Step-alternates :
    {k : SemOp} {s t : System}
    → Step k s t
    → (t.shared.f_st.total_pass_boarded ≡ s.shared.f_st.total_pass_boarded)
      ⊎ (counts t.passenger ≡ counts s.passenger)
Step-alternates (main_moves e) = inr refl
Step-alternates (pilot_moves e) = inr refl
Step-alternates (hostess_moves e) = inr refl
Step-alternates {k} {s} (passenger_moves i lt e) =
    inl (After-some _ _ (passenger_boards_nobody k s.shared i (s.passenger i)) e)

-- If the shared memory is new and `semop` behaves as documented, no `++` and no `--` wraps around: in a
-- step from a reachable state each of the four counters changes by one at most, and none exceeds 21.
pub counters_never_wrap :
    (k : SemOp) (f : FullStat) (s t : System)
    → IsSemOp k
    → IsFresh f
    → Reach k f s
    → Step k s t
    → let a = s.shared.f_st in
      let b = t.shared.f_st in
      Near a.n_pass_in_queue b.n_pass_in_queue
      × Near a.n_pass_in_flight b.n_pass_in_flight
      × Near a.total_pass_boarded b.total_pass_boarded
      × Near a.n_flight b.n_flight
      × (b.n_pass_in_queue ≤ n_pass)
      × (b.n_pass_in_flight ≤ n_pass)
      × (b.total_pass_boarded ≤ n_pass)
      × (b.n_flight ≤ n_pass)
counters_never_wrap k f s t law fresh r st =
    let i : SystemInv s = Reach-Inv law r in
    let j : SystemInv t = Reach-Inv law (later r st) in
    let up = Step-CountsUp st in
    let near = Step-NearCounts st in
    let (few, _, _) = flights_bounded k f s law fresh r in
    let (still_few, _, _) = flights_bounded k f t law fresh (later r st) in
    let total_bound : s.shared.f_st.total_pass_boarded ≤ n_pass =
      omega (arith, i.queued, i.ordered) in
    let boarded : Near s.shared.f_st.total_pass_boarded t.shared.f_st.total_pass_boarded =
      omega (arith, up.boarded) in
    let one_side = Step-alternates st in
    let queue : Near s.shared.f_st.n_pass_in_queue t.shared.f_st.n_pass_in_queue = elim one_side [
      | inl same ↦ omega (arith, same, near.joined, i.queued, j.queued)
      | inr same ↦ omega (arith, boarded, ap (λ c. c.joined) same, i.queued, j.queued)
    ] in
    let aboard : Near s.shared.f_st.n_pass_in_flight t.shared.f_st.n_pass_in_flight =
      elim one_side [
        | inl same ↦ omega (arith, same, near.left, i.aboard, j.aboard)
        | inr same ↦ omega (arith, boarded, ap (λ c. c.left) same, i.aboard, j.aboard)
      ] in
    (
      queue,
      aboard,
      boarded,
      omega (arith, up.number),
      omega (arith, j.queued, j.ordered),
      omega (arith, j.aboard, j.queued, j.ordered),
      omega (arith, j.queued, j.ordered),
      omega arith,
    )
