-- ===== src/Faults/Saving/Frozen.antt =====
-- The mutex that nobody will raise: the steps of the simulation leave it down, and leave the record.
use so_assignment2_air_bridg.Base.{
  ℕ, ◌+◌, ◌≡◌, ◌⊎◌, inl, inr, refl, arith, ◌∙◌, [], ◌∷◌, ◌++◌, total-update, total-own,
}
use so_assignment2_air_bridg.Data.{n_pass}
use so_assignment2_air_bridg.Semaphore.{SemOp}
use so_assignment2_air_bridg.Logging.{Entry}
use so_assignment2_air_bridg.Shared.{Shared}
use so_assignment2_air_bridg.Main.{MainPlace, main_step}
use so_assignment2_air_bridg.Passenger.{PassengerPlace}
use so_assignment2_air_bridg.System.{
  System, Step, main_moves, pilot_moves, hostess_moves, passenger_moves, exits,
}
use so_assignment2_air_bridg.Invariant.{
  After, After-some, pilot_inside, hostess_inside, passenger_inside, mutex_raised, mutex_raised-le,
}
use so_assignment2_air_bridg.Safety.{processes_inside}
use so_assignment2_air_bridg.Locked.{SameData}
use so_assignment2_air_bridg.Faults.{MayFail}
use so_assignment2_air_bridg.Faults.Exclusion.{
  Held, pilot_holds, hostess_holds, passenger_holds, up_other,
}
use so_assignment2_air_bridg.Faults.Saving.{
  SaveFails, FaultyStep, regular, main_dies, pilot_dies, hostess_dies, passenger_dies, child_dies,
}
use so_assignment2_air_bridg.Faults.Saving.Effects.{
  Saves, silent, saving, pilot-Saves, hostess-Saves, passenger-Saves, main-Saves,
}
use so_assignment2_air_bridg.Faults.Saving.Dying.{SaveFails-grows, SaveFails-Saves}

abbrev pub main_ended : MainPlace → ℕ
main_ended MainPlace.exited = 1
main_ended MainPlace.failed = 1
main_ended _ = 0

-- The mutex is down and nobody will raise it.
pub record Frozen (t : Shared) (u : System) : Type 0 where
  pub free : u.shared.sems 1 + processes_inside u ≡ 0
  pub raised : mutex_raised u.main ≡ 1
  pub stored : u.shared.f_st ≡ t.f_st
  pub kept :
      (u.shared.log ≡ t.log)
      ⊎ ((main_ended u.main ≡ 1) × (u.shared.log ≡ t.log ++ (Entry.air_lift_result t.f_st ∷ [])))

Frozen-here :
    {s : System}
    → s.shared.sems 1 + processes_inside s ≡ 0
    → mutex_raised s.main ≡ 1
    → Frozen s.shared s
Frozen-here free raised = record { free = free; raised = raised; stored = refl; kept = inl refl }

-- The process that dies was the only one inside.
pub child-Frozen :
    {k : SemOp} {s t : System}
    → Held s
    → (st : FaultyStep k s t) → child_dies st ≡ 1
    → Frozen t.shared t
unfolding Held pilot_inside hostess_inside passenger_inside
child-Frozen h (regular st) d = absurd (omega (arith, d))
child-Frozen h (main_dies e c) d = absurd (omega (arith, d))
child-Frozen {k} {s} h (pilot_dies e c) d =
    let (one, sems) = SaveFails-Saves c (After-some _ _ (pilot-Saves k s.shared s.pilot) e) in
    Frozen-here (rw sems (omega (arith, h, one, mutex_raised-le s.main)))
      (omega (arith, h, one, mutex_raised-le s.main))
child-Frozen {k} {s} h (hostess_dies e c) d =
    let (one, sems) =
      SaveFails-Saves c (After-some _ _ (hostess-Saves k s.shared s.hostess s.n_checked) e) in
    Frozen-here (rw sems (omega (arith, h, one, mutex_raised-le s.main)))
      (omega (arith, h, one, mutex_raised-le s.main))
child-Frozen {k} {s} h (passenger_dies i lt e c) d =
    let (one, sems) =
      SaveFails-Saves c (After-some _ _ (passenger-Saves k s.shared i (s.passenger i)) e) in
    let left = total-update passenger_inside s.passenger PassengerPlace.failed n_pass i lt in
    Frozen-here (rw sems (omega (arith, h, one, left, mutex_raised-le s.main)))
      (omega (arith, h, one, left, mutex_raised-le s.main))

-- Once it has raised the mutex, `main` does nothing to it, and stays so until it ends.
pub main-Frozen :
    (k : SemOp) (law : MayFail k) (e : ℕ) (m : MainPlace) (s : Shared)
    → mutex_raised m ≡ 1
    → After
        (λ t q. (t.sems 1 ≡ s.sems 1) × (mutex_raised q ≡ 1) × (main_ended m ≡ 0))
        (main_step k e m s)
unfolding main_step mutex_raised
main-Frozen k law e m s raised = grind (arith, up_other k law s.sems 0 refl)

no_saving : {i : ℕ} {s t : Shared} → i ≡ 0 → Saves i s t → SameData s t
no_saving e (silent same) = same
no_saving e (saving one sems) = absurd (omega arith)

-- A child that is outside neither saves nor dies by it.
pub no_death : {A : Type 0} {i : ℕ} {s t u : Shared} → i ≡ 0 → SaveFails s t u → Saves i s t → A
no_death e c w = absurd (SaveFails-grows c (no_saving e w).log_kept)

same_data :
    {x : Shared} {s t : System}
    → t.shared.sems 1 + processes_inside t ≡ 0
    → mutex_raised t.main ≡ 1
    → t.main ≡ s.main
    → SameData s.shared t.shared
    → Frozen x s
    → Frozen x t
same_data free raised at same h = record {
  free = free;
  raised = raised;
  stored = same.record_kept ∙ h.stored;
  kept = rw (same.log_kept, at) h.kept;
}

pub log_before :
    {x : Shared} {s : System} → Frozen x s → main_ended s.main ≡ 0 → s.shared.log ≡ x.log
log_before h running = elim h.kept [
  | inl same ↦ same
  | inr (ended, longer) ↦ absurd (omega (arith, ended, running))
]

pub Frozen-Step :
    {k : SemOp} {x : Shared} {s t : System} → MayFail k → Step k s t → Frozen x s → Frozen x t
Frozen-Step {k} {x} {s} law (main_moves {t} {p} e) h =
    let (sems, raised, running) =
      After-some _ _ (main-Frozen k law (exits s) s.main s.shared h.raised) e in
    let before = log_before h running in
    elim (After-some _ _ (main-Saves k s.shared (exits s) s.main) e) [
      | inl same ↦ record {
        free = omega (arith, sems, h.free);
        raised = raised;
        stored = same.record_kept ∙ h.stored;
        kept = inl (same.log_kept ∙ before);
      }
      | inr (out, wrote) ↦ record {
        free = omega (arith, sems, h.free);
        raised = raised;
        stored = rw wrote h.stored;
        kept = inr (rw out refl, rw (wrote, before, h.stored) refl);
      }
    ]
Frozen-Step {k} {x} {s} law (pilot_moves e) h =
    same_data (omega (arith, h.free, After-some _ _ (pilot_holds k law s.shared s.pilot) e))
      h.raised refl
      (no_saving (omega (arith, h.free)) (After-some _ _ (pilot-Saves k s.shared s.pilot) e)) h
Frozen-Step {k} {x} {s} law (hostess_moves e) h =
    same_data
      (omega (arith, h.free, After-some _ _ (hostess_holds k law s.shared s.hostess s.n_checked) e))
      h.raised refl
      (no_saving (omega (arith, h.free))
        (After-some _ _ (hostess-Saves k s.shared s.hostess s.n_checked) e))
      h
Frozen-Step {k} {x} {s} law (passenger_moves {p} i lt e) h =
    same_data
      (omega (
        arith,
        h.free,
        After-some _ _ (passenger_holds k law s.shared i (s.passenger i)) e,
        total-update passenger_inside s.passenger p n_pass i lt,
      ))
      h.raised refl
      (no_saving (omega (arith, h.free, total-own passenger_inside n_pass s.passenger i lt))
        (After-some _ _ (passenger-Saves k s.shared i (s.passenger i)) e))
      h
