-- ===== src/Sealed.antt =====
-- Who is on the plane changes only where it should: during the flight nobody boards and nobody leaves.
use so_assignment2_air_bridg.Base.{ℕ, ◌<◌, inl, inr, refl, sym, ap, ◌∙◌, ◌≡◌, ◌≢◌, true, arith}
use so_assignment2_air_bridg.Data.{FullStat, n_pass}
use so_assignment2_air_bridg.Semaphore.{SemOp, IsSemOp}
use so_assignment2_air_bridg.Semaphore.Ideal.{ideal}
use so_assignment2_air_bridg.Shared.{Shared}
use so_assignment2_air_bridg.Pilot.{PilotPlace}
use so_assignment2_air_bridg.Hostess.{HostessPlace}
use so_assignment2_air_bridg.System.{
  System, Step, main_moves, pilot_moves, hostess_moves, passenger_moves, Reach, later, exits,
}
use so_assignment2_air_bridg.Invariant.{
  SystemInv, pilot_awaiting, hostess_boarding, Reach-Inv, Inv-IsLow, Step-ideal, After-some,
}
use so_assignment2_air_bridg.Termination.{arriving-drop_down}
use so_assignment2_air_bridg.Safety.{in_air, not_failed}
use so_assignment2_air_bridg.Checked.{
  occurrences, checked_ids, main_ids, pilot_ids, hostess_ids, passenger_ids, elsewhere, shows,
  fails,
}
use so_assignment2_air_bridg.LastFlight.{
  pilot_keeps, main_list, hostess_list, passenger_list, last_flight, waits_to_land, aboard_in_air,
}
use so_assignment2_air_bridg.Frame.{Kept, main_same, pilot_same, hostess_same, passenger_same}

-- As many passengers are aboard, as many have boarded, and the records of the flights are the same;
-- and the same passengers are checked in the log, for this flight and for all.
pub record SamePlane (s t : Shared) : Type 0 where
  pub aboard : t.f_st.n_pass_in_flight ≡ s.f_st.n_pass_in_flight
  pub boarded : t.f_st.total_pass_boarded ≡ s.f_st.total_pass_boarded
  pub recorded : t.f_st.n_passengers_in_flight ≡ s.f_st.n_passengers_in_flight
  pub number : t.f_st.n_flight ≡ s.f_st.n_flight
  pub on_board : last_flight t.log ≡ last_flight s.log
  pub checked : checked_ids t.log ≡ checked_ids s.log

Kept-SamePlane :
    {s t : Shared} {o q : ℕ}
    → Kept s t o q
    → last_flight t.log ≡ last_flight s.log
    → checked_ids t.log ≡ checked_ids s.log
    → SamePlane s t
Kept-SamePlane h list ids = record {
  aboard = h.aboard;
  boarded = h.boarded;
  recorded = h.recorded;
  number = h.number;
  on_board = list;
  checked = ids;
}

-- While the plane is in the air, the pilot opens no flight, and waits neither for the hostess nor
-- for passengers to leave.
record AloneInAir (p : PilotPlace) : Type 0 where
  idle : pilot_awaiting p ≡ 0
  not_opening : p ≢ PilotPlace.signal_body
  not_landed : p ≢ PilotPlace.drop_down

in_air-AloneInAir : (p : PilotPlace) → in_air p ≡ true → AloneInAir p
unfolding pilot_awaiting
in_air-AloneInAir PilotPlace.drop_down e = ground arith
in_air-AloneInAir PilotPlace.signal_body e = ground arith
in_air-AloneInAir p e = record {
  idle = ground arith;
  not_opening = λ b. ground arith;
  not_landed = λ b. ground arith;
}

not_boarding :
    (h : HostessPlace)
    → hostess_boarding h ≡ 0
    → (h ≢ HostessPlace.board_body) × (h ≢ HostessPlace.ready_body)
unfolding hostess_boarding
not_boarding h e = (λ b. ground arith, λ b. ground arith)

ideal_sealed :
    {s t : System}
    → SystemInv s
    → SystemInv t
    → in_air s.pilot ≡ true
    → Step ideal s t
    → SamePlane s.shared t.shared
ideal_sealed {s} i j air (main_moves e) =
    Kept-SamePlane (After-some _ _ (main_same s.shared (Inv-IsLow i) s.main _) e)
      (After-some _ _ (main_list ideal s.shared _ s.main) e)
      (After-some _ _ (main_ids ideal (exits s) s.main s.shared) e).ids
ideal_sealed {s} i j air (pilot_moves e) =
    let alone : AloneInAir s.pilot = in_air-AloneInAir s.pilot air in
    Kept-SamePlane (After-some _ _ (pilot_same s.shared (Inv-IsLow i) s.pilot alone.not_opening) e)
      (After-some _ _ (pilot_keeps ideal s.shared s.pilot alone.not_opening) e)
      (After-some _ _ (pilot_ids ideal s.pilot s.shared) e).ids
ideal_sealed {s} i j air (hostess_moves e) =
    let still : hostess_boarding s.hostess ≡ 0 =
      omega (arith, i.turn, (in_air-AloneInAir s.pilot air).idle) in
    let away = not_boarding s.hostess still in
    let kept =
      After-some _ _ (hostess_same s.shared (Inv-IsLow i) s.hostess s.n_checked (away.0) (away.1))
        e in
    Kept-SamePlane kept
      (elim (After-some _ _ (hostess_list ideal s.shared s.hostess s.n_checked) e) [
        | inl (same, few) ↦ same
        | inr (longer, more) ↦ absurd (omega (arith, kept.boarded, more))
      ])
      (elim (After-some _ _ (hostess_ids ideal s.hostess s.n_checked s.shared) e) [
        | inl c ↦ c.ids
        | inr (at, c) ↦ absurd (away.0 at)
      ])
ideal_sealed {s} {t} i j air (passenger_moves {p = b} id lt e) =
    Kept-SamePlane
      (After-some _ _
        (passenger_same s.shared (Inv-IsLow i) (s.passenger id) id
          (λ b. (in_air-AloneInAir s.pilot air).not_landed (arriving-drop_down s id lt i b)))
        e)
      (After-some _ _ (passenger_list ideal s.shared id (s.passenger id)) e)
      (elim (After-some _ _ (passenger_ids ideal id (s.passenger id) s.shared) e) [
        | elsewhere c same ↦ c.ids
        | shows at next c ↦ c.ids
        | fails broken ↦ absurd (not_failed t id lt j (ground (arith, broken)))
      ])

-- Of a passenger whose place changes in the air, the log of that flight tells where it is.
seats_kept :
    {k : SemOp} {f : FullStat} {s t : System} (j : ℕ)
    → IsSemOp k
    → Reach k f s
    → in_air s.pilot ≡ true
    → (st : Step k s t) → last_flight t.shared.log ≡ last_flight s.shared.log
    → j < n_pass
    → waits_to_land (t.passenger j) ≡ waits_to_land (s.passenger j)
seats_kept j law r air (main_moves e) same lt = refl
seats_kept j law r air (pilot_moves e) same lt = refl
seats_kept j law r air (hostess_moves e) same lt = refl
seats_kept {k} {f} {s} {t} j law r air (passenger_moves id below e) same lt =
    sym (aboard_in_air k f t law (later r (passenger_moves id below e)) air j lt)
    ∙ (ap (occurrences j) same ∙ aboard_in_air k f s law r air j lt)

-- If `semop` behaves as documented, then while the plane is in the air no step of any process changes
-- who is aboard or who has boarded: every passenger who waits for the landing goes on to wait and no other
-- begins to, the log shows the same passengers checked, for this flight and for all, and the numbers
-- of passengers aboard and of passengers who have boarded, the number of the flight and the array of
-- flights stay as they are.
pub flight_sealed :
    (k : SemOp) (f : FullStat) (s t : System) (j : ℕ)
    → IsSemOp k
    → Reach k f s
    → in_air s.pilot ≡ true
    → Step k s t
    → j < n_pass
    → SamePlane s.shared t.shared × (waits_to_land (t.passenger j) ≡ waits_to_land (s.passenger j))
flight_sealed k f s t j law r air st lt =
    let i = Reach-Inv law r in
    let same = ideal_sealed i (Reach-Inv law (later r st)) air (Step-ideal law st i) in
    (same, seats_kept j law r air st same.on_board lt)
