-- ===== src/Checked/Steps.antt =====
-- The checks in step with the passengers: who has shown the passport has been logged, but for the one
-- before the hostess.
use so_assignment2_air_bridg.Base.{
  ℕ, ◌+◌, ◌≡◌, ◌≤◌, ◌<◌, refl, ◌∙◌, inl, inr, arith, ◌==◌, if◌then◌else◌, length, length-append,
  update, total, total-update, total-le, [], ◌∷◌, Bool-cases,
}
use so_assignment2_air_bridg.Data.{n_pass}
use so_assignment2_air_bridg.Shared.{Shared}
use so_assignment2_air_bridg.Pilot.{PilotPlace}
use so_assignment2_air_bridg.Hostess.{HostessPlace}
use so_assignment2_air_bridg.Passenger.{PassengerPlace}
use so_assignment2_air_bridg.Main.{MainPlace}
use so_assignment2_air_bridg.Invariant.{
  Inv, counts, reached, reached_mono, hostess_called, hostess_counted, hostess_seen,
}
use so_assignment2_air_bridg.Checked.Ids.{
  checked_ids, occurrences, occurrences-append, SameIds, Ticks, Shows,
}

-- The passengers who have shown the passport.
abbrev pub presented : (ℕ → PassengerPlace) → ℕ
presented p = total (reached 8) n_pass p

-- How often the check of passenger `j` is logged.
abbrev pub times_logged : ℕ → Shared → ℕ
times_logged j s = occurrences j (checked_ids s.log)

pub record Tally (p : ℕ → PassengerPlace) (s : Shared) : Type 0 where
  pub size : length (checked_ids s.log) ≡ s.f_st.total_pass_boarded
  pub behind : s.f_st.total_pass_boarded ≤ presented p
  pub ahead : presented p ≤ s.f_st.total_pass_boarded + 1
  pub all_logged :
      presented p ≡ s.f_st.total_pass_boarded
      → (j : ℕ) → j < n_pass
      → times_logged j s ≡ reached 8 (p j)
  pub one_waits :
      presented p ≡ s.f_st.total_pass_boarded + 1
      → (j : ℕ) → j < n_pass
      → times_logged j s + (if s.f_st.passenger_checked == j then 1 else 0) ≡ reached 8 (p j)

-- A step that logs no check and moves nobody past the passport.
pub SameIds-Tally :
    {s t : Shared} {p q : ℕ → PassengerPlace}
    → SameIds s t
    → presented q ≡ presented p
    → ((j : ℕ) → j < n_pass → reached 8 (q j) ≡ reached 8 (p j))
    → Tally p s
    → Tally q t
SameIds-Tally {s} {t} {p} {q} c e same h = record {
  size = rw (c.ids, c.boarded) h.size;
  behind = omega (arith, c.boarded, h.behind);
  ahead = omega (arith, c.boarded, h.ahead);
  all_logged = λ now j lt. rw (c.ids, same j lt) (h.all_logged (omega (arith, c.boarded)) j lt);
  one_waits =
      λ now j lt. rw (c.ids, c.current, same j lt) (h.one_waits (omega (arith, c.boarded)) j lt);
}

-- Before the hostess counts a passenger, that one has presented the passport.
pub seen-presented :
    (p : ℕ → PassengerPlace) {m : MainPlace} {q : PilotPlace} {h : HostessPlace} {n : ℕ}
    {s : Shared}
    → Inv m q h n (counts p) s
    → h ≡ HostessPlace.board_body
    → s.f_st.total_pass_boarded + 1 ≤ presented p
unfolding hostess_seen hostess_counted
seen-presented p {m} {q} {n} {s} i e =
    let at_board : Inv m q HostessPlace.board_body n (counts p) s = rw e at i in
    omega (
      arith,
      at_board.passports,
      at_board.boarded,
      total-le (reached 10) (reached 8) (reached_mono 8 10 (omega arith)) n_pass p,
    )

-- The hostess logs the one before her.
pub Ticks-Tally :
    {s t : Shared} {p : ℕ → PassengerPlace}
    → Ticks s t
    → s.f_st.total_pass_boarded + 1 ≤ presented p
    → s.f_st.total_pass_boarded ≤ n_pass
    → Tally p s
    → Tally p t
Ticks-Tally {s} {t} {p} c one few h =
    let more : t.f_st.total_pass_boarded ≡ s.f_st.total_pass_boarded + 1 =
      omega (arith, c.boarded) in
    let waits : presented p ≡ s.f_st.total_pass_boarded + 1 = omega (arith, h.ahead) in
    record {
      size = rw (c.ids) (
          omega (
            arith,
            more,
            h.size,
            length-append (checked_ids s.log) (s.f_st.passenger_checked ∷ []),
          ));
      behind = omega (arith, more);
      ahead = omega (arith, more, h.ahead);
      all_logged = λ now j lt. rw (c.ids) (
          occurrences-append j (checked_ids s.log) s.f_st.passenger_checked
          ∙ h.one_waits waits j lt);
      one_waits = λ now j lt. absurd (omega (arith, more));
    }

hostess_called-counted :
    (h : HostessPlace) → (hostess_counted h ≤ hostess_called h) × (hostess_called h ≤ 1)
unfolding hostess_called hostess_counted
hostess_called-counted h = ground arith

-- Only a passenger whom the hostess has called shows the passport, so nobody else waits.
pub called-presented :
    (p : ℕ → PassengerPlace) {m : MainPlace} {q : PilotPlace} {h : HostessPlace} {n : ℕ}
    {s : Shared}
    → Inv m q h n (counts p) s
    → (id : ℕ) → id < n_pass
    → p id ≡ PassengerPlace.show_body
    → presented p ≤ s.f_st.total_pass_boarded
called-presented p {h} {s} i id lt e =
    let next = update p id PassengerPlace.show_leave in
    let six : reached 6 (p id) ≡ 1 = rw e refl in
    let eight : reached 8 (p id) ≡ 0 = rw e refl in
    omega (
      arith,
      i.calls,
      i.boarded,
      hostess_called-counted h,
      total-le (reached 8) (reached 6) (reached_mono 6 8 (omega arith)) n_pass next,
      total-update (reached 8) p PassengerPlace.show_leave n_pass id lt,
      total-update (reached 6) p PassengerPlace.show_leave n_pass id lt,
    )

-- A passenger presents the passport.
pub Shows-Tally :
    {s t : Shared} {p : ℕ → PassengerPlace} (id : ℕ)
    → id < n_pass
    → p id ≡ PassengerPlace.show_body
    → Shows id s t
    → presented p ≤ s.f_st.total_pass_boarded
    → Tally p s
    → Tally (update p id PassengerPlace.show_leave) t
Shows-Tally {s} {t} {p} id lt e c none h =
    let eight : reached 8 (p id) ≡ 0 = rw e refl in
    let more : presented (update p id PassengerPlace.show_leave) ≡ presented p + 1 =
      omega (arith, total-update (reached 8) p PassengerPlace.show_leave n_pass id lt) in
    let level : presented p ≡ s.f_st.total_pass_boarded = omega (arith, h.behind) in
    record {
      size = rw (c.ids, c.boarded) h.size;
      behind = omega (arith, more, c.boarded, level);
      ahead = omega (arith, more, c.boarded, level);
      all_logged = λ now j below. absurd (omega (arith, more, c.boarded, level));
      one_waits = λ now j below.
          let before : times_logged j s ≡ reached 8 (p j) = h.all_logged level j below in
          elim (Bool-cases (id == j)) [
            | inl own ↦
                let same : id ≡ j = ground arith in
                let fresh : reached 8 (p j) ≡ 0 = rw same at eight in
                rw (c.ids, c.current, own) (omega (arith, before, fresh))
            | inr other ↦ rw (c.ids, c.current, other) (omega (arith, before))
          ];
    }
