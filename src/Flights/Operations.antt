-- ===== src/Flights/Operations.antt =====
-- The records of the flights in step with the counters: how each operation on the shared record
-- keeps them.
use so_assignment2_air_bridg.Base.{
  ℕ, suc, ◌+◌, ◌-◌, ◌*◌, ◌≡◌, ◌≤◌, ◌∙◌, false, List, [], ◌∷◌, ◌++◌, length, replicate,
  length-append, arith, decr, refl, append-nil, zero,
}
use so_assignment2_air_bridg.Data.{n_pass, min_fc, max_nf}
use so_assignment2_air_bridg.Shared.{Shared}
use so_assignment2_air_bridg.Pilot.{signal_ready_for_boarding}
use so_assignment2_air_bridg.Hostess.{board_passenger, signal_ready_to_flight}
use so_assignment2_air_bridg.Passenger.{arrive}
use so_assignment2_air_bridg.Invariant.{MayFly, Boarded}
use so_assignment2_air_bridg.Frame.{Kept}
use so_assignment2_air_bridg.Flights.Boardings.{
  boardings, bump-append, boardings-save_state, boardings-save_start_boarding,
  boardings-save_passenger_checked, boardings-save_flight_departed,
}
use so_assignment2_air_bridg.Flights.Records.{
  sum, Rules, sum-append, append-Rules, Rules-sum, set_next,
}

-- Who is aboard the flights that are open for boarding.
abbrev pub current : ℕ → ℕ → List ℕ
current zero a = []
current (suc _) a = a ∷ []

-- The flights `fl` have taken off, and the processes count `o` flights open for boarding; one is
-- open too while the pilot's signal is not yet used.
pub record Ledger (fl : List ℕ) (o : ℕ) (s : Shared) : Type 0 where
  pub written : s.f_st.n_passengers_in_flight ≡ fl ++ replicate (max_nf - length fl) 0
  pub number : s.f_st.n_flight ≡ length fl + o + s.sems 5
  pub single : o + s.sems 5 ≤ 1
  pub closed : o + s.sems 5 ≡ 0 → sum fl ≡ s.f_st.total_pass_boarded
  pub loading : o + s.sems 5 ≡ 1 → sum fl + s.f_st.n_pass_in_flight ≡ s.f_st.total_pass_boarded
  pub unfinished : o + s.sems 5 ≡ 1 → s.f_st.finished ≡ false
  pub rules : Rules s.f_st.finished fl
  pub logged : boardings s.log ≡ fl ++ current (o + s.sems 5) s.f_st.n_pass_in_flight

pub Kept-Ledger :
    {s t : Shared} {o q : ℕ} {fl : List ℕ} (r : ℕ)
    → Kept s t o q
    → boardings t.log ≡ boardings s.log
    → Ledger fl (o + r) s
    → Ledger fl (q + r) t
Kept-Ledger {s} {t} {o} {q} {fl} r k same h = record {
  written = k.recorded ∙ h.written;
  number = omega (arith, k.number, k.opened, h.number);
  single = omega (arith, k.opened, h.single);
  closed = λ e. ground (arith, k.opened, k.boarded, h.closed);
  loading = λ e. ground (arith, k.opened, k.boarded, k.aboard, h.loading);
  unfinished = λ e. k.flag ∙ h.unfinished (omega (arith, k.opened));
  rules = rw (k.flag) (h.rules);
  logged =
      let opened : q + r + t.sems 5 ≡ o + r + s.sems 5 = omega (arith, k.opened) in
      rw (same, h.logged, opened, k.aboard) refl;
}

-- A passenger leaves the plane while no flight is open.
pub arrive-Ledger :
    (id : ℕ) (s : Shared) {o : ℕ} {fl : List ℕ}
    → o + s.sems 5 ≡ 0
    → Ledger fl o s
    → Ledger fl o (arrive id s)
unfolding arrive
arrive-Ledger id s {fl} e h = record {
  written = h.written;
  number = h.number;
  single = h.single;
  closed = h.closed;
  loading = λ c. absurd (omega arith);
  unfinished = h.unfinished;
  rules = h.rules;
  logged =
      let before : boardings s.log ≡ fl ++ [] = rw e at h.logged in
      rw (boardings-save_state, before, e) refl;
}

-- The pilot opens a flight with an empty plane.
pub signal_ready_for_boarding-Ledger :
    (s : Shared) {o : ℕ} {fl : List ℕ}
    → o + s.sems 5 ≡ 0
    → s.f_st.n_pass_in_flight ≡ 0
    → s.f_st.finished ≡ false
    → s.f_st.total_pass_boarded ≤ n_pass
    → Ledger fl o s
    → Ledger fl (o + 1) (signal_ready_for_boarding s)
unfolding signal_ready_for_boarding
signal_ready_for_boarding-Ledger s {o} {fl} e empty f b h =
    let enough : min_fc * length fl ≤ sum fl = Rules-sum fl (rw f at h.rules) in
    record {
      written = h.written;
      number = omega (arith, h.number, h.closed e);
      single = omega arith;
      closed = λ c. absurd (omega arith);
      loading = λ c. omega (arith, h.closed e);
      unfinished = λ c. f;
      rules = h.rules;
      logged =
          let before : boardings s.log ≡ fl ++ [] = rw e at h.logged in
          let open_now : o + 1 + s.sems 5 ≡ 1 = omega arith in
          rw
            (
              boardings-save_start_boarding, boardings-save_state, before, open_now, empty,
              append-nil,
            )
            refl;
    }

-- A passenger boards the open flight.
pub board_passenger-Ledger :
    (s : Shared) {o : ℕ} {fl : List ℕ}
    → o + s.sems 5 ≡ 1
    → Boarded s.f_st (board_passenger s).f_st
    → Ledger fl o s
    → Ledger fl o (board_passenger s)
unfolding board_passenger
board_passenger-Ledger s {fl} e b h = record {
  written = h.written;
  number = h.number;
  single = h.single;
  closed = λ c. absurd (omega arith);
  loading = λ c. omega (arith, b.aboard, b.total, h.loading e);
  unfinished = h.unfinished;
  rules = h.rules;
  logged =
      let before : boardings s.log ≡ fl ++ (s.f_st.n_pass_in_flight ∷ []) = rw e at h.logged in
      rw (boardings-save_state, boardings-save_passenger_checked, before, e, bump-append, b.aboard)
        refl;
}

-- The hostess records the open flight.
pub signal_ready_to_flight-Ledger :
    (s : Shared) {o : ℕ} {fl : List ℕ}
    → MayFly s.f_st.n_pass_in_flight s.f_st.total_pass_boarded
    → s.f_st.total_pass_boarded ≤ n_pass
    → Ledger fl (o + 1) s
    → Ledger (fl ++ (s.f_st.n_pass_in_flight ∷ [])) o (signal_ready_to_flight s)
unfolding signal_ready_to_flight MayFly
signal_ready_to_flight-Ledger s {o} {fl} m b h =
    let a = s.f_st.n_pass_in_flight in
    let now : o + 1 + s.sems 5 ≡ 1 = omega (arith, h.single) in
    let before : Rules false fl = rw (h.unfinished now) at h.rules in
    let enough : min_fc * length fl ≤ sum fl = Rules-sum fl before in
    let index : decr s.f_st.n_flight ≡ length fl = omega (arith, h.number, h.loading now) in
    let free : max_nf - length fl ≡ suc (max_nf - (length fl + 1)) = omega (arith, h.loading now) in
    let len : length (fl ++ (a ∷ [])) ≡ length fl + 1 = omega (arith, length-append fl (a ∷ [])) in
    record {
      written = rw (h.written, index, free, len) (set_next fl (max_nf - (length fl + 1)) a);
      number = omega (arith, h.number, len);
      single = omega arith;
      closed = λ c. omega (arith, sum-append fl a, h.loading now);
      loading = λ c. absurd (omega arith);
      unfinished = λ c. absurd (omega arith);
      rules = append-Rules _ fl a before (m.0) (m.1) (ground arith);
      logged =
          let shown : boardings s.log ≡ fl ++ (a ∷ []) = rw now at h.logged in
          let closed_now : o + s.sems 5 ≡ 0 = omega arith in
          rw (boardings-save_flight_departed, boardings-save_state, shown, closed_now, append-nil)
            refl;
    }
