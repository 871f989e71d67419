-- ===== src/ResultLast.antt =====
-- When `main` of src/probSemSharedMemAirLift.c writes the result, and the log behind it.
use so_assignment2_air_bridg.Base.{
  ℕ, ◌+◌, ◌≡◌, ◌≤◌, ◌<◌, refl, some, [], ◌∷◌, ◌++◌, arith, update, total, total-update,
  total_bounded, ltb, Bool-cases, inl, inr,
}
use so_assignment2_air_bridg.Data.{FullStat, n_pass}
use so_assignment2_air_bridg.Semaphore.{SemOp}
use so_assignment2_air_bridg.Shared.{Shared}
use so_assignment2_air_bridg.Logging.{Entry, Log, save_air_lift_result}
use so_assignment2_air_bridg.Main.{MainPlace, main_step, write_result}
use so_assignment2_air_bridg.Pilot.{PilotPlace, pilot_step}
use so_assignment2_air_bridg.Hostess.{HostessPlace, hostess_step}
use so_assignment2_air_bridg.Passenger.{PassengerPlace, passenger_step}
use so_assignment2_air_bridg.Invariant.{After, After-some}
use so_assignment2_air_bridg.System.{
  System, Step, main_moves, pilot_moves, hostess_moves, passenger_moves, Reach, begin, later, exits,
  pilot_ended, hostess_ended, passenger_ended,
}

-- A process that moves has not ended.
module _ (k : SemOp) (s : Shared) where
  pilot_moving :
      (p : PilotPlace) {t : Shared} {q : PilotPlace}
      → pilot_step k p s ≡ some (t, q)
      → pilot_ended p ≡ 0
  unfolding pilot_step
  pilot_moving PilotPlace.exited e = absurd (ground arith)
  pilot_moving PilotPlace.failed e = absurd (ground arith)
  pilot_moving _ e = refl

  hostess_moving :
      (h : HostessPlace) (n : ℕ) {t : Shared} {q : HostessPlace × ℕ}
      → hostess_step k h n s ≡ some (t, q)
      → hostess_ended h ≡ 0
  unfolding hostess_step
  hostess_moving HostessPlace.exited n e = absurd (ground arith)
  hostess_moving HostessPlace.failed n e = absurd (ground arith)
  hostess_moving _ n e = refl

  passenger_moving :
      (id : ℕ) (a : PassengerPlace) {t : Shared} {q : PassengerPlace}
      → passenger_step k id a s ≡ some (t, q)
      → passenger_ended a ≡ 0
  unfolding passenger_step
  passenger_moving id PassengerPlace.exited e = absurd (ground arith)
  passenger_moving id PassengerPlace.failed e = absurd (ground arith)
  passenger_moving id _ e = refl

pilot_ended-le : (p : PilotPlace) → pilot_ended p ≤ 1
pilot_ended-le p = ground arith

hostess_ended-le : (h : HostessPlace) → hostess_ended h ≤ 1
hostess_ended-le h = ground arith

passenger_ended-le : (a : PassengerPlace) → passenger_ended a ≤ 1
passenger_ended-le a = ground arith

-- A child that moves: some child had not ended, and no more are running than before.
record Grows (s t : System) : Type 0 where
  open_before : exits s ≤ n_pass + 1
  more : exits s ≤ exits t

module _ (s : System) (u : Shared) where
  exits_bounded : total passenger_ended n_pass s.passenger ≤ n_pass
  exits_bounded = total_bounded passenger_ended passenger_ended-le n_pass s.passenger

  pilot-Grows :
      (p : PilotPlace) → pilot_ended s.pilot ≡ 0 → Grows s (record s { shared = u; pilot = p })
  unfolding exits
  pilot-Grows p e = record {
    open_before = omega (arith, exits_bounded, hostess_ended-le s.hostess, e);
    more = omega (arith, e);
  }

  hostess-Grows :
      (h : HostessPlace) (n : ℕ)
      → hostess_ended s.hostess ≡ 0
      → Grows s (record s { shared = u; hostess = h; n_checked = n })
  unfolding exits
  hostess-Grows h n e = record {
    open_before = omega (arith, exits_bounded, pilot_ended-le s.pilot, e);
    more = omega (arith, e);
  }

  passenger-Grows :
      (i : ℕ) (a : PassengerPlace)
      → i < n_pass
      → passenger_ended (s.passenger i) ≡ 0
      → Grows s (record s { shared = u; passenger = update s.passenger i a })
  unfolding exits
  passenger-Grows i a lt e = record {
    open_before = omega (
      arith,
      total-update passenger_ended s.passenger PassengerPlace.exited n_pass i lt,
      total_bounded passenger_ended passenger_ended-le n_pass
          (update s.passenger i PassengerPlace.exited),
      pilot_ended-le s.pilot,
      hostess_ended-le s.hostess,
      e,
    );
    more = omega (arith, total-update passenger_ended s.passenger a n_pass i lt, e);
  }

-- How far `main` has come: it has counted children that have ended, and behind the result it has
-- appended the entry that shows the present record.
unfoldable Counted : MainPlace → ℕ → Shared → Type 0
Counted (MainPlace.waiting m) e s = m ≤ e
Counted MainPlace.result e s = n_pass + 2 ≤ e
Counted MainPlace.exited e s =
    (n_pass + 2 ≤ e) × ((earlier : Log) × (s.log ≡ earlier ++ (Entry.air_lift_result s.f_st ∷ [])))
Counted _ e s = Unit

main-Counted :
    (k : SemOp) (e : ℕ) (m : MainPlace) (s : Shared)
    → Counted m e s
    → After (λ t q. Counted q e t) (main_step k e m s)
unfolding main_step Counted write_result save_air_lift_result
main-Counted k e MainPlace.enable s c = ground arith
main-Counted k e MainPlace.signal s c = ground arith
main-Counted k e (MainPlace.waiting m) s c = elim (Bool-cases (ltb m e)) [
  | inl more ↦ elim (Bool-cases (ltb (m + 1) (n_pass + 2))) [
    | inl again ↦ rw (more, again) (ground arith)
    | inr over ↦ rw (more, over) (ground arith)
  ]
  | inr waits ↦ rw waits (ground arith)
]
main-Counted k e MainPlace.result s c = (c, (s.log, refl))
main-Counted k e MainPlace.exited s c = tt
main-Counted k e MainPlace.failed s c = tt

-- While a child has not ended, `main` has not come to the result.
child-Counted :
    (m : MainPlace) (e d : ℕ) (s t : Shared)
    → e ≤ n_pass + 1
    → e ≤ d
    → Counted m e s
    → Counted m d t
unfolding Counted
child-Counted (MainPlace.waiting m) e d s t lo le c = omega arith
child-Counted MainPlace.result e d s t lo le c = absurd (omega arith)
child-Counted MainPlace.exited e d s t lo le c = absurd (omega (arith, c.0))
child-Counted _ e d s t lo le c = tt

Step-Counted :
    {k : SemOp} {s t : System}
    → Step k s t
    → Counted s.main (exits s) s.shared
    → Counted t.main (exits t) t.shared
unfolding exits
Step-Counted {k} {s} (main_moves {t} {p} e) c =
    After-some _ _ (main-Counted k (exits s) s.main s.shared c) e
Step-Counted {k} {s} (pilot_moves {t} {p} e) c =
    let g = pilot-Grows s t p (pilot_moving k s.shared s.pilot e) in
    child-Counted s.main _ _ s.shared t g.open_before g.more c
Step-Counted {k} {s} (hostess_moves {t} {p} {n} e) c =
    let g = hostess-Grows s t p n (hostess_moving k s.shared s.hostess s.n_checked e) in
    child-Counted s.main _ _ s.shared t g.open_before g.more c
Step-Counted {k} {s} (passenger_moves {t} {p} i lt e) c =
    let g = passenger-Grows s t i p lt (passenger_moving k s.shared i (s.passenger i) e) in
    child-Counted s.main _ _ s.shared t g.open_before g.more c

Reach-Counted :
    {k : SemOp} {f : FullStat} {s : System} → Reach k f s → Counted s.main (exits s) s.shared
unfolding Counted
Reach-Counted begin = tt
Reach-Counted (later r st) = Step-Counted st (Reach-Counted r)

-- When `main` comes to the result, the pilot has ended.
pub result_waits :
    {k : SemOp} {f : FullStat} {s : System}
    → Reach k f s
    → s.main ≡ MainPlace.result
    → pilot_ended s.pilot ≡ 1
unfolding Counted exits
result_waits {s} r e =
    let all = rw e at (Reach-Counted r) in
    omega (arith, all, exits_bounded s s.shared, pilot_ended-le s.pilot, hostess_ended-le s.hostess)

-- For every `semop`, one that fails included: if `main` has come to its end, all children have ended
-- before, well or with a failure, and the last entry of the log is the result, which shows the
-- present record.
pub result_comes_last :
    (k : SemOp) (f : FullStat) (s : System)
    → Reach k f s
    → s.main ≡ MainPlace.exited
    → (exits s ≡ n_pass + 2)
      × ((earlier : Log) × (s.shared.log ≡ earlier ++ (Entry.air_lift_result s.shared.f_st ∷ [])))
unfolding Counted exits
result_comes_last k f s r e =
    let (all, written) = rw e at (Reach-Counted r) in
    (
      omega (
        arith,
        all,
        exits_bounded s s.shared,
        pilot_ended-le s.pilot,
        hostess_ended-le s.hostess,
      ),
      written,
    )
