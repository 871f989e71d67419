-- ===== src/Faults/Saving/Lost.antt =====
-- What is left of the simulation after a saving function has ended a child inside its critical section.
use mathlib.Core.List.{append_cancel_left}
use so_assignment2_air_bridg.Base.{
  ◌≡◌, ◌⊎◌, inl, inr, refl, sym, ap, arith, ◌∙◌, [], ◌∷◌, ◌++◌, some, List, append-nil, total-own,
}
use so_assignment2_air_bridg.Data.{FullStat, n_pass}
use so_assignment2_air_bridg.Semaphore
use so_assignment2_air_bridg.Semaphore.{SemOp}
use so_assignment2_air_bridg.Logging.{Entry}
use so_assignment2_air_bridg.Shared.{Shared}
use so_assignment2_air_bridg.Main.{MainPlace, main_step}
use so_assignment2_air_bridg.System.{System, initial, exits}
use so_assignment2_air_bridg.Invariant.{After-some, passenger_inside, mutex_raised}
use so_assignment2_air_bridg.Safety.{processes_inside}
use so_assignment2_air_bridg.Faults.{MayFail}
use so_assignment2_air_bridg.Faults.Saving.{
  SaveFails, FaultyStep, regular, main_dies, pilot_dies, hostess_dies, passenger_dies, FaultySteps,
  here, further, child_dies,
}
use so_assignment2_air_bridg.Faults.Saving.Effects.{
  pilot-Saves, hostess-Saves, passenger-Saves, main-Saves,
}
use so_assignment2_air_bridg.Faults.Saving.Dying.{SaveFails-grows, initial-Held, Steps-Held}
use so_assignment2_air_bridg.Faults.Saving.Frozen.{
  Frozen, child-Frozen, main-Frozen, no_death, log_before, Frozen-Step,
}

-- Of one entry, nothing or all is written.
one_entry :
    {A : Type 0} (x : A) (written lost : List A)
    → written ++ lost ≡ x ∷ []
    → (written ≡ []) ⊎ (written ≡ x ∷ [])
one_entry x [] lost e = inl refl
one_entry x (y ∷ []) lost e = inr (ground arith)
one_entry x (y ∷ z ∷ ys) lost e = ground arith

-- The result is all that can still be written.
result_cut :
    {k : SemOp} {x t u : Shared} {s : System} {p : MainPlace}
    → MayFail k
    → main_step k (exits s) s.main s.shared ≡ some (t, p)
    → SaveFails s.shared t u
    → Frozen x s
    → Frozen x (record s { shared = u; main = MainPlace.failed })
unfolding mutex_raised
result_cut {k} {x} {t} {u} {s} law e c h =
    let (sems, raised, running) =
      After-some _ _ (main-Frozen k law (exits s) s.main s.shared h.raised) e in
    let before = log_before h running in
    elim (After-some _ _ (main-Saves k s.shared (exits s) s.main) e) [
      | inl same ↦ absurd (SaveFails-grows c same.log_kept)
      | inr (out, wrote) ↦
          let entry : c.written ++ c.lost ≡ Entry.air_lift_result s.shared.f_st ∷ [] =
            append_cancel_left s.shared.log _ _
              (sym c.entries ∙ ap (λ (y : Shared). y.log) wrote) in
          record {
            free = rw (c.stopped) (omega (arith, sems, h.free));
            raised = refl;
            stored = rw (c.stopped) (rw wrote h.stored);
            kept = elim (one_entry (Entry.air_lift_result s.shared.f_st) c.written c.lost entry) [
              | inl nothing ↦ inl (rw (c.stopped) (rw (nothing, before) (append-nil x.log)))
              | inr all ↦ inr (refl, rw (c.stopped) (rw (all, before, h.stored) refl))
            ];
          }
    ]

Frozen-Faulty :
    {k : SemOp} {x : Shared} {s t : System} → MayFail k → FaultyStep k s t → Frozen x s → Frozen x t
Frozen-Faulty law (regular st) h = Frozen-Step law st h
Frozen-Faulty law (main_dies e c) h = result_cut law e c h
Frozen-Faulty {k} {x} {s} law (pilot_dies e c) h =
    no_death (omega (arith, h.free)) c (After-some _ _ (pilot-Saves k s.shared s.pilot) e)
Frozen-Faulty {k} {x} {s} law (hostess_dies e c) h =
    no_death (omega (arith, h.free)) c
      (After-some _ _ (hostess-Saves k s.shared s.hostess s.n_checked) e)
Frozen-Faulty {k} {x} {s} law (passenger_dies i lt e c) h =
    no_death (omega (arith, h.free, total-own passenger_inside n_pass s.passenger i lt)) c
      (After-some _ _ (passenger-Saves k s.shared i (s.passenger i)) e)

Frozen-Steps :
    {k : SemOp} {x : Shared} {s t : System}
    → MayFail k
    → Frozen x s
    → FaultySteps k s t
    → Frozen x t
Frozen-Steps law h here = h
Frozen-Steps law h (further r st) = Frozen-Faulty law st (Frozen-Steps law h r)

-- If a call of `semop` that succeeds has the documented effect, and a saving function ends the pilot, the
-- hostess or a passenger inside its critical section, then from there on the mutex is down and no process
-- is inside a critical section, the record of the problem stays as the section has stored it, and
-- nothing more comes into the log but the result, if `main` gets to it. Calls of `semop` and other
-- saving functions may fail at any time.
pub lock_lost :
    (k : SemOp) (f : FullStat) (s t u : System) (st : FaultyStep k s t)
    → MayFail k
    → FaultySteps k (initial f) s
    → child_dies st ≡ 1
    → FaultySteps k t u
    → (u.shared.sems Semaphore.mutex ≡ 0)
      × (processes_inside u ≡ 0)
      × (u.shared.f_st ≡ t.shared.f_st)
      × ((u.shared.log ≡ t.shared.log)
          ⊎ (u.shared.log ≡ t.shared.log ++ (Entry.air_lift_result t.shared.f_st ∷ [])))
lock_lost k f s t u st law r d on =
    let held = Steps-Held law (initial-Held f) r in
    let h = Frozen-Steps law (child-Frozen held st d) on in
    (
      omega (arith, h.free),
      omega (arith, h.free),
      h.stored,
      elim h.kept [ inl same ↦ inl same | inr (ended, longer) ↦ inr longer ],
    )
