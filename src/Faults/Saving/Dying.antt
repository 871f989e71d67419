-- ===== src/Faults/Saving/Dying.antt =====
-- The mutex when a saving function may end its program.
use so_assignment2_air_bridg.Base.{
  ℕ, ◌≡◌, ◌≢◌, sym, ap, arith, ◌∙◌, ◌++◌, length, length-append, total, total-update,
}
use so_assignment2_air_bridg.Data.{FullStat, n_pass}
use so_assignment2_air_bridg.Semaphore.{SemOp}
use so_assignment2_air_bridg.Shared.{Shared}
use so_assignment2_air_bridg.Main.{start}
use so_assignment2_air_bridg.Passenger.{PassengerPlace}
use so_assignment2_air_bridg.System.{System, initial}
use so_assignment2_air_bridg.Invariant.{
  After-some, pilot_inside, hostess_inside, passenger_inside, mutex_raised, mutex_raised-le,
}
use so_assignment2_air_bridg.Safety.{processes_inside}
use so_assignment2_air_bridg.Faults.{MayFail}
use so_assignment2_air_bridg.Faults.Exclusion.{
  Held, Step-Held, pilot_holds, hostess_holds, passenger_holds, main_holds,
}
use so_assignment2_air_bridg.Faults.Saving.{
  SaveFails, FaultyStep, regular, main_dies, pilot_dies, hostess_dies, passenger_dies, FaultySteps,
  here, further,
}
use so_assignment2_air_bridg.Faults.Saving.Effects.{Saves, silent, saving}

-- A saving function that fails is one that would have added to the log.
pub SaveFails-grows : {s t u : Shared} → SaveFails s t u → t.log ≢ s.log
SaveFails-grows {s} {t} c e = absurd (
    omega
      (arith, c.grows, ap length (sym c.entries ∙ e), length-append s.log (c.written ++ c.lost)))

-- So it fails inside a critical section.
pub SaveFails-Saves :
    {i : ℕ} {s t u : Shared} → SaveFails s t u → Saves i s t → (i ≡ 1) × (u.sems ≡ s.sems)
SaveFails-Saves c (silent same) = absurd (SaveFails-grows c same.log_kept)
SaveFails-Saves c (saving one sems) = (one, ap (λ (x : Shared). x.sems) c.stopped ∙ sems)

stopped_sems : {s t u : Shared} → SaveFails s t u → u.sems ≡ t.sems
stopped_sems c = ap (λ (x : Shared). x.sems) c.stopped

pub Faulty-Held : {k : SemOp} {s t : System} → MayFail k → FaultyStep k s t → Held s → Held t
unfolding Held pilot_inside hostess_inside passenger_inside mutex_raised
Faulty-Held law (regular st) h = Step-Held law st h
Faulty-Held {k} {s} law (main_dies {p} e c) h =
    let held = After-some _ _ (main_holds k law s.shared _ s.main (processes_inside s) h) e in
    rw (stopped_sems c) (omega (arith, held, mutex_raised-le p))
Faulty-Held {k} {s} law (pilot_dies e c) h =
    rw (stopped_sems c) (omega (arith, h, After-some _ _ (pilot_holds k law s.shared s.pilot) e))
Faulty-Held {k} {s} law (hostess_dies e c) h =
    rw (stopped_sems c)
      (omega (arith, h, After-some _ _ (hostess_holds k law s.shared s.hostess s.n_checked) e))
Faulty-Held {k} {s} law (passenger_dies i lt e c) h = rw (stopped_sems c) (
    omega (
      arith,
      h,
      After-some _ _ (passenger_holds k law s.shared i (s.passenger i)) e,
      total-update passenger_inside s.passenger PassengerPlace.failed n_pass i lt,
    ))

pub initial-Held : (f : FullStat) → Held (initial f)
unfolding Held start pilot_inside hostess_inside passenger_inside mutex_raised total
initial-Held f = omega arith

pub Steps-Held : {k : SemOp} {s t : System} → MayFail k → Held s → FaultySteps k s t → Held t
Steps-Held law h here = h
Steps-Held law h (further r st) = Faulty-Held law st (Steps-Held law h r)
