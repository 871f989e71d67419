-- ===== src/LastFlight.antt =====
-- Who is on the plane between the start of boarding and the opening of the doors at the destination: the
-- passengers checked since the last entry of `saveStartBoarding` (src/logging.c).
mod Boarded
mod Lists
pub use Lists.{last_flight, pilot_keeps, main_list, hostess_list, passenger_list}
use so_assignment2_air_bridg.Base.{
  ℕ, ◌+◌, ◌≡◌, ◌<◌, inl, inr, arith, true, total-same, update-same, ◌≢◌, ◌⊎◌, some,
}
use so_assignment2_air_bridg.Data.{FullStat, n_pass}
use so_assignment2_air_bridg.Semaphore.{SemOp, IsSemOp}
use so_assignment2_air_bridg.Shared.{Shared}
use so_assignment2_air_bridg.Pilot.{PilotPlace}
use so_assignment2_air_bridg.Passenger.{PassengerPlace, passenger_step}
use so_assignment2_air_bridg.System.{
  System, Step, main_moves, pilot_moves, hostess_moves, passenger_moves, Reach, begin, later, exits,
}
use so_assignment2_air_bridg.Invariant.{
  SystemInv, reached, reached_mono, pilot_awaiting, let_out, After-some, Reach-Inv,
}
use so_assignment2_air_bridg.Termination.{arriving-drop_down}
use so_assignment2_air_bridg.Safety.{in_air, not_failed}
use so_assignment2_air_bridg.Checked.{
  Tally, presented, times_logged, occurrences, occurrences-append, checked_ids, Presents, elsewhere,
  shows, fails, main_ids, pilot_ids, hostess_ids, passenger_ids, Reach-Tally,
}
use Boarded.{idle_lem, presented_lem, opening_lem}
use Lists.{on_flight, PilotFlies, same_flight, new_flight, pilot_list, passenger_stays}

-- On a flight: who was checked has left before, or was checked for this flight.
OnFlight : (ℕ → PassengerPlace) → PilotPlace → Shared → Type 0
OnFlight p q s =
    on_flight q ≡ true
    → (j : ℕ) → j < n_pass
    → occurrences j (last_flight s.log) + reached 13 (p j) ≡ times_logged j s

unlogged :
    {id : ℕ} {a b : PassengerPlace} {s t : Shared}
    → Presents id a b s t
    → (checked_ids t.log ≡ checked_ids s.log) ⊎ (b ≡ PassengerPlace.failed)
unlogged (elsewhere c e) = inl c.ids
unlogged (shows at next c) = inl c.ids
unlogged (fails broken) = inr broken

-- On a flight no passenger leaves, and none logs anything that counts.
passenger_stays_aboard :
    (k : SemOp) (s : System) {t : Shared} {b : PassengerPlace} (id : ℕ)
    → (lt : id < n_pass) → SystemInv s
    → b ≢ PassengerPlace.failed
    → on_flight s.pilot ≡ true
    → passenger_step k id (s.passenger id) s.shared ≡ some (t, b)
    → (checked_ids t.log ≡ checked_ids s.shared.log) × (reached 13 b ≡ reached 13 (s.passenger id))
unfolding on_flight
passenger_stays_aboard k s {b} id lt i whole on e = (
  elim (unlogged (After-some _ _ (passenger_ids k id (s.passenger id) s.shared) e)) [
    | inl ids ↦ ids
    | inr broken ↦ absurd (whole broken)
  ],
  elim (After-some _ _ (passenger_stays k id (s.passenger id) s.shared) e) [
    | inl stays ↦ stays
    | inr (inl at) ↦ let here = arriving-drop_down s id lt i at in ground (arith, here)
    | inr (inr broken) ↦ absurd (whole broken)
  ],
)

Step-OnFlight :
    {k : SemOp} {s t : System}
    → Step k s t
    → SystemInv s
    → SystemInv t
    → Tally s.passenger s.shared
    → OnFlight s.passenger s.pilot s.shared
    → OnFlight t.passenger t.pilot t.shared
unfolding OnFlight occurrences
Step-OnFlight {k} {s} (main_moves e) i i' y h on j lt =
    let c = After-some _ _ (main_ids k (exits s) s.main s.shared) e in
    rw (After-some _ _ (main_list k s.shared _ s.main) e, c.ids) (h on j lt)
Step-OnFlight {k} {s} (pilot_moves e) i i' y h on j lt =
    let c = After-some _ _ (pilot_ids k s.pilot s.shared) e in
    elim (After-some _ _ (pilot_list k s.shared s.pilot) e on) [
      | same_flight was same ↦ rw (same, c.ids) (h was j lt)
      | new_flight at empty ↦ rw (empty, c.ids) (omega (arith, opening_lem s.passenger i y at j lt))
    ]
Step-OnFlight {k} {s} (hostess_moves e) i i' y h on j lt =
    let lists = After-some _ _ (hostess_list k s.shared s.hostess s.n_checked) e in
    elim (After-some _ _ (hostess_ids k s.hostess s.n_checked s.shared) e) [
      | inl c ↦ elim lists [
        | inl (same, few) ↦ rw (same, c.ids) (h on j lt)
        | inr (longer, more) ↦ absurd (omega (arith, c.boarded, more))
      ]
      | inr (at, c) ↦ elim lists [
        | inl (same, few) ↦ absurd (omega (arith, c.boarded, few))
        | inr (longer, more) ↦
            rw (longer, c.ids)
              (omega (
                arith,
                occurrences-append j (last_flight s.shared.log) s.shared.f_st.passenger_checked,
                occurrences-append j (checked_ids s.shared.log) s.shared.f_st.passenger_checked,
                h on j lt,
              ))
      ]
    ]
Step-OnFlight {k} {s} {t} (passenger_moves {p = b} id below e) i i' y h on j lt =
    let whole : b ≢ PassengerPlace.failed =
      λ broken. not_failed t id below i' (ground (arith, broken)) in
    let (ids, stays) = passenger_stays_aboard k s id below i whole on e in
    let same = After-some _ _ (passenger_list k s.shared id (s.passenger id)) e in
    rw (same, ids, update-same (reached 13) s.passenger id j b stays) (h on j lt)

-- 1 for a passenger in `waitUntilDestination` who waits for the end of the flight
pub waits_to_land : PassengerPlace → ℕ
waits_to_land PassengerPlace.arrive_down = 1
waits_to_land _ = 0

waits_to_land_lem : (a : PassengerPlace) → waits_to_land a + reached 11 a ≡ reached 10 a
unfolding waits_to_land
waits_to_land_lem a = ground arith

in_air_lem :
    (q : PilotPlace)
    → in_air q ≡ true
    → (on_flight q ≡ true) × (pilot_awaiting q ≡ 0) × ((l b : ℕ) → let_out q l b ≡ l)
unfolding on_flight pilot_awaiting let_out
in_air_lem (PilotPlace.drop_loop i) e = ground arith
in_air_lem q e = (ground arith, ground arith, λ l b. ground arith)

Reach-OnFlight :
    {k : SemOp} {f : FullStat} {s : System}
    → IsSemOp k
    → Reach k f s
    → OnFlight s.passenger s.pilot s.shared
unfolding OnFlight on_flight
Reach-OnFlight law begin on j lt = ground (arith, on)
Reach-OnFlight law (later r st) on j lt =
    Step-OnFlight st (Reach-Inv law r) (Reach-Inv law (later r st)) (Reach-Tally law r)
      (Reach-OnFlight law r) on j lt

-- If `semop` behaves as documented, then in every reachable state in which the plane is in the air, the
-- passengers checked since boarding last started are exactly those who wait in `waitUntilDestination`
-- to be let out, each checked once: nobody who was checked before is still aboard, and nobody who was
-- checked for this flight is elsewhere.
pub aboard_in_air :
    (k : SemOp) (f : FullStat) (s : System)
    → IsSemOp k
    → Reach k f s
    → in_air s.pilot ≡ true
    → (j : ℕ) → j < n_pass
    → occurrences j (last_flight s.shared.log) ≡ waits_to_land (s.passenger j)
unfolding OnFlight
aboard_in_air k f s law r air j lt =
    let i : SystemInv s = Reach-Inv law r in
    let t : Tally s.passenger s.shared = Reach-Tally law r in
    let (on, idle, shut) = in_air_lem s.pilot air in
    let now : presented s.passenger ≡ s.shared.f_st.total_pass_boarded =
      presented_lem s.passenger i t idle in
    let quiet = idle_lem s.hostess (omega (arith, i.turn, idle)) in
    let seen =
      total-same (reached 10) (reached 8) (reached_mono 8 10 (omega arith)) n_pass s.passenger
        (omega (arith, now, i.passports, i.boarded, quiet)) j lt in
    let held =
      total-same (reached 13) (reached 11) (reached_mono 11 13 (omega arith)) n_pass s.passenger
        (omega (arith, i.exits_allowed, shut _ s.shared.f_st.total_pass_boarded)) j lt in
    omega (
      arith,
      Reach-OnFlight law r on j lt,
      t.all_logged now j lt,
      seen,
      held,
      waits_to_land_lem (s.passenger j),
    )
