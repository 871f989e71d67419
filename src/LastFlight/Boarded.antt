-- ===== src/LastFlight/Boarded.antt =====
-- The passengers whom the hostess has counted, while the pilot does not wait for her.
use so_assignment2_air_bridg.Base.{ℕ, ◌≡◌, ◌<◌, refl, sym, ◌∙◌, arith, total-le, total-same}
use so_assignment2_air_bridg.Data.{n_pass}
use so_assignment2_air_bridg.Shared.{Shared}
use so_assignment2_air_bridg.Pilot.{PilotPlace}
use so_assignment2_air_bridg.Hostess.{HostessPlace}
use so_assignment2_air_bridg.Passenger.{PassengerPlace}
use so_assignment2_air_bridg.Main.{MainPlace}
use so_assignment2_air_bridg.Invariant.{
  Inv, counts, reached, reached_mono, pilot_awaiting, hostess_boarding, hostess_called,
  hostess_counted, PilotPlane,
}
use so_assignment2_air_bridg.Checked.{Tally, presented, times_logged}

pub idle_lem :
    (h : HostessPlace) → hostess_boarding h ≡ 0 → (hostess_called h ≡ 0) × (hostess_counted h ≡ 0)
unfolding hostess_boarding hostess_called hostess_counted
idle_lem h e = ground arith

-- While the pilot does not wait for the hostess, who has shown the passport has boarded.
pub presented_lem :
    (p : ℕ → PassengerPlace) {m : MainPlace} {q : PilotPlace} {h : HostessPlace} {n : ℕ}
    {s : Shared}
    → Inv m q h n (counts p) s
    → Tally p s
    → pilot_awaiting q ≡ 0
    → presented p ≡ s.f_st.total_pass_boarded
presented_lem p {h} i t idle =
    let quiet = idle_lem h (omega (arith, i.turn)) in
    omega (
      arith,
      quiet,
      i.calls,
      i.boarded,
      t.behind,
      total-le (reached 8) (reached 6) (reached_mono 6 8 (omega arith)) n_pass p,
    )

-- When a flight is opened, all who were checked before have left the plane.
pub opening_lem :
    (p : ℕ → PassengerPlace) {m : MainPlace} {q : PilotPlace} {h : HostessPlace} {n : ℕ}
    {s : Shared}
    → Inv m q h n (counts p) s
    → Tally p s
    → q ≡ PilotPlace.signal_body
    → (j : ℕ) → j < n_pass
    → times_logged j s ≡ reached 13 (p j)
unfolding pilot_awaiting PilotPlane
opening_lem p {m} {q} {h} {n} {s} i t e j lt =
    let here : Inv m PilotPlace.signal_body h n (counts p) s = rw e at i in
    let now : presented p ≡ s.f_st.total_pass_boarded = presented_lem p here t refl in
    t.all_logged now j lt
    ∙ sym (
        total-same (reached 13) (reached 8) (reached_mono 8 13 (omega arith)) n_pass p
          (omega (arith, now, here.aboard, here.pilot_plane)) j lt)
