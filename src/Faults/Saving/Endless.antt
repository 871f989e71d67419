-- ===== src/Faults/Saving/Endless.antt =====
-- The simulation without a hostess: the program that waits for its children does not look at how they end,
-- and nobody else sets `finished`.
use so_assignment2_air_bridg.Base.{
  ℕ, ◌+◌, ◌≡◌, ◌≢◌, ◌≤◌, ◌⊎◌, inl, inr, ap, ◌∙◌, arith, Bool, false, total-update, total_bounded,
}
use so_assignment2_air_bridg.Data.{FullStat, n_pass}
use so_assignment2_air_bridg.Semaphore.{SemOp}
use so_assignment2_air_bridg.Shared.{Shared}
use so_assignment2_air_bridg.Main.{MainPlace, main_step, write_result}
use so_assignment2_air_bridg.Pilot.{PilotPlace, pilot_step}
use so_assignment2_air_bridg.Hostess.{HostessPlace, hostess_step}
use so_assignment2_air_bridg.Passenger.{PassengerPlace, passenger_step}
use so_assignment2_air_bridg.System.{
  System, Step, main_moves, pilot_moves, hostess_moves, passenger_moves, initial, exits,
  pilot_ended, hostess_ended, passenger_ended,
}
use so_assignment2_air_bridg.Invariant.{After, After-some}
use so_assignment2_air_bridg.Faults.Saving.{
  SaveFails, FaultyStep, regular, main_dies, pilot_dies, hostess_dies, passenger_dies, FaultySteps,
  here, further,
}

-- How many children `main` has waited for.
abbrev waited : MainPlace → ℕ
waited (MainPlace.waiting m) = m
waited MainPlace.result = n_pass + 2
waited MainPlace.exited = n_pass + 2
waited _ = 0

abbrev finished : Shared → Bool
finished s = s.f_st.finished

module _ (k : SemOp) (s : Shared) where
  main_waits :
      (e : ℕ) (m : MainPlace)
      → waited m ≤ e
      → After (λ t q. (finished t ≡ finished s) × (waited q ≤ e)) (main_step k e m s)
  unfolding main_step write_result
  main_waits e m h = ground arith

  pilot_ends :
      (p : PilotPlace)
      → After
          (λ t q.
            (finished t ≡ finished s)
            × (pilot_ended p ≡ 0)
            × (finished s ≡ false → q ≢ PilotPlace.exited))
          (pilot_step k p s)
  unfolding pilot_step
  pilot_ends p = ground arith

  passenger_ends :
      (i : ℕ) (a : PassengerPlace)
      → After (λ t _. (finished t ≡ finished s) × (passenger_ended a ≡ 0)) (passenger_step k i a s)
  unfolding passenger_step
  passenger_ends i a = ground arith

  hostess_ends :
      (h : HostessPlace) (n : ℕ) → After (λ t _. hostess_ended h ≡ 0) (hostess_step k h n s)
  unfolding hostess_step
  hostess_ends h n = ground arith

-- The failure of a saving function changes nothing of the record.
stopped_finished : {s t u : Shared} → SaveFails s t u → finished u ≡ finished t
stopped_finished c = ap finished (c.stopped)

-- `main` has waited for no more children than have ended.
Waited-Step :
    {k : SemOp} {s t : System} → Step k s t → waited s.main ≤ exits s → waited t.main ≤ exits t
unfolding exits
Waited-Step {k} {s} (main_moves e) h =
    (After-some _ _ (main_waits k s.shared (exits s) s.main h) e).1
Waited-Step {k} {s} (pilot_moves e) h =
    omega (arith, h, (After-some _ _ (pilot_ends k s.shared s.pilot) e).1)
Waited-Step {k} {s} (hostess_moves e) h =
    omega (arith, h, After-some _ _ (hostess_ends k s.shared s.hostess s.n_checked) e)
Waited-Step {k} {s} (passenger_moves {p} i lt e) h = omega (
  arith,
  h,
  (After-some _ _ (passenger_ends k s.shared i (s.passenger i)) e).1,
  total-update passenger_ended s.passenger p n_pass i lt,
)

Waited-Faulty :
    {k : SemOp} {s t : System}
    → FaultyStep k s t
    → waited s.main ≤ exits s
    → waited t.main ≤ exits t
unfolding exits
Waited-Faulty (regular st) h = Waited-Step st h
Waited-Faulty {k} {s} (main_dies e c) h = omega arith
Waited-Faulty {k} {s} (pilot_dies e c) h =
    omega (arith, h, (After-some _ _ (pilot_ends k s.shared s.pilot) e).1)
Waited-Faulty {k} {s} (hostess_dies e c) h =
    omega (arith, h, After-some _ _ (hostess_ends k s.shared s.hostess s.n_checked) e)
Waited-Faulty {k} {s} (passenger_dies i lt e c) h = omega (
  arith,
  h,
  (After-some _ _ (passenger_ends k s.shared i (s.passenger i)) e).1,
  total-update passenger_ended s.passenger PassengerPlace.failed n_pass i lt,
)

Waited-Steps :
    {k : SemOp} {s t : System}
    → waited s.main ≤ exits s
    → FaultySteps k s t
    → waited t.main ≤ exits t
Waited-Steps h here = h
Waited-Steps h (further r st) = Waited-Faulty st (Waited-Steps h r)

-- The pilot goes on, and the hostess will not tell it to end.
record Stranded (s : System) : Type 0 where
  gone : s.hostess ≡ HostessPlace.failed
  unfinished : finished s.shared ≡ false
  flies : s.pilot ≢ PilotPlace.exited

Stranded-Faulty :
    {k : SemOp} {s t : System}
    → FaultyStep k s t
    → waited s.main ≤ exits s
    → Stranded s
    → Stranded t
Stranded-Faulty {k} {s} (regular (main_moves e)) w h = record {
  gone = h.gone;
  unfinished = (After-some _ _ (main_waits k s.shared (exits s) s.main w) e).0 ∙ h.unfinished;
  flies = h.flies;
}
Stranded-Faulty {k} {s} (regular (pilot_moves e)) w h =
    let (same, _, on) = After-some _ _ (pilot_ends k s.shared s.pilot) e in
    record { gone = h.gone; unfinished = same ∙ h.unfinished; flies = on h.unfinished }
Stranded-Faulty {k} {s} (regular (hostess_moves e)) w h = absurd (
    omega (
      arith,
      After-some _ _ (hostess_ends k s.shared s.hostess s.n_checked) e,
      ap hostess_ended h.gone,
    ))
Stranded-Faulty {k} {s} (regular (passenger_moves i lt e)) w h = record {
  gone = h.gone;
  unfinished = (After-some _ _ (passenger_ends k s.shared i (s.passenger i)) e).0 ∙ h.unfinished;
  flies = h.flies;
}
Stranded-Faulty {k} {s} (main_dies e c) w h = record {
  gone = h.gone;
  unfinished =
      stopped_finished c
      ∙ (After-some _ _ (main_waits k s.shared (exits s) s.main w) e).0
      ∙ h.unfinished;
  flies = h.flies;
}
Stranded-Faulty {k} {s} (pilot_dies e c) w h =
    let (same, _, on) = After-some _ _ (pilot_ends k s.shared s.pilot) e in
    record {
      gone = h.gone;
      unfinished = stopped_finished c ∙ same ∙ h.unfinished;
      flies = ground arith;
    }
Stranded-Faulty {k} {s} (hostess_dies e c) w h = absurd (
    omega (
      arith,
      After-some _ _ (hostess_ends k s.shared s.hostess s.n_checked) e,
      ap hostess_ended h.gone,
    ))
Stranded-Faulty {k} {s} (passenger_dies i lt e c) w h = record {
  gone = h.gone;
  unfinished =
      stopped_finished c
      ∙ (After-some _ _ (passenger_ends k s.shared i (s.passenger i)) e).0
      ∙ h.unfinished;
  flies = h.flies;
}

Stranded-Steps :
    {k : SemOp} {s t : System}
    → waited s.main ≤ exits s
    → Stranded s
    → FaultySteps k s t
    → Stranded t
Stranded-Steps w h here = h
Stranded-Steps w h (further r st) = Stranded-Faulty st (Waited-Steps w r) (Stranded-Steps w h r)

pilot_cases :
    (p : PilotPlace) → p ≢ PilotPlace.exited → (p ≡ PilotPlace.failed) ⊎ (pilot_ended p ≡ 0)
pilot_cases p h = ground arith

passenger_ended-le : (a : PassengerPlace) → passenger_ended a ≤ 1
passenger_ended-le a = ground arith

main_not_through :
    (m : MainPlace) → waited m ≤ n_pass + 1 → (m ≢ MainPlace.result) × (m ≢ MainPlace.exited)
main_not_through m h = ground arith

-- A pilot that is not out keeps `main` in its loop.
kept_waiting :
    (t : System)
    → waited t.main ≤ exits t
    → t.hostess ≡ HostessPlace.failed
    → t.pilot ≢ PilotPlace.exited
    → (t.pilot ≡ PilotPlace.failed) ⊎ ((t.main ≢ MainPlace.result) × (t.main ≢ MainPlace.exited))
unfolding exits
kept_waiting t w gone flies = elim (pilot_cases t.pilot flies) [
  | inl failed ↦ inl failed
  | inr running ↦ inr (
      main_not_through t.main (
        omega (
          arith,
          w,
          running,
          ap hostess_ended gone,
          total_bounded passenger_ended passenger_ended-le n_pass t.passenger,
        )))
]

-- If the hostess has ended with a failure before `finished` is set, and the pilot has not left its loop,
-- then the simulation never completes, whatever `semop` and the saving functions do: in every later state
-- `finished` is not set and the pilot has not left its loop, and unless the pilot has failed too,
-- `main` is not at the result, nor has it ended with success.
pub hostess_needed :
    (k : SemOp) (f : FullStat) (s t : System)
    → FaultySteps k (initial f) s
    → s.hostess ≡ HostessPlace.failed
    → s.shared.f_st.finished ≡ false
    → s.pilot ≢ PilotPlace.exited
    → FaultySteps k s t
    → (t.shared.f_st.finished ≡ false)
      × (t.pilot ≢ PilotPlace.exited)
      × ((t.pilot ≡ PilotPlace.failed)
          ⊎ ((t.main ≢ MainPlace.result) × (t.main ≢ MainPlace.exited)))
hostess_needed k f s t r gone unfinished flies on =
    let w = Waited-Steps (omega arith) r in
    let h = Stranded-Steps w (record { gone = gone; unfinished = unfinished; flies = flies }) on in
    (h.unfinished, h.flies, kept_waiting t (Waited-Steps w on) h.gone h.flies)
