-- ===== src/Checked.antt =====
-- Every passenger is checked exactly once.
mod Ids
mod Steps
unfoldable pub use Ids.{checked_ids, occurrences}
pub use Ids.{
  occurrences-append, SameIds, Ticks, Shows, Presents, elsewhere, shows, fails, main_ids, pilot_ids,
  hostess_ids, passenger_ids,
}
pub use Steps.{Tally, presented, times_logged}
use so_assignment2_air_bridg.Base.{
  ℕ, ◌+◌, ◌≡◌, ◌≤◌, ◌<◌, refl, ◌∙◌, inl, inr, arith, ◌==◌, length, total, total-update, Bool-cases,
  total_ones, update-same,
}
use so_assignment2_air_bridg.Data.{FullStat, n_pass}
use so_assignment2_air_bridg.Semaphore.{SemOp, IsSemOp}
use so_assignment2_air_bridg.Passenger.{PassengerPlace}
use so_assignment2_air_bridg.Logging.{create_log}
use so_assignment2_air_bridg.Main.{start}
use so_assignment2_air_bridg.System.{
  System, Step, main_moves, pilot_moves, hostess_moves, passenger_moves, Reach, begin, later, exits,
}
use so_assignment2_air_bridg.Invariant.{SystemInv, reached, After-some, Reach-Inv}
use so_assignment2_air_bridg.Progress.{AllDone}
use so_assignment2_air_bridg.Result.{result-Complete}
use so_assignment2_air_bridg.Safety.{not_failed}
use Steps.{SameIds-Tally, Ticks-Tally, Shows-Tally, seen-presented, called-presented}

initial-Tally : (f : FullStat) → Tally (λ _. PassengerPlace.connect) (start f)
unfolding start create_log checked_ids occurrences total
initial-Tally f = record {
  size = refl;
  behind = omega arith;
  ahead = omega arith;
  all_logged = λ now j lt. refl;
  one_waits = λ now. absurd (omega arith);
}

Step-Tally :
    {k : SemOp} {s t : System}
    → Step k s t
    → SystemInv s
    → SystemInv t
    → Tally s.passenger s.shared
    → Tally t.passenger t.shared
Step-Tally {k} {s} (main_moves e) i j h =
    SameIds-Tally (After-some _ _ (main_ids k (exits s) s.main s.shared) e) refl (λ _ _. refl) h
Step-Tally {k} {s} (pilot_moves e) i j h =
    SameIds-Tally (After-some _ _ (pilot_ids k s.pilot s.shared) e) refl (λ _ _. refl) h
Step-Tally {k} {s} (hostess_moves e) i j h =
    elim (After-some _ _ (hostess_ids k s.hostess s.n_checked s.shared) e) [
      | inl c ↦ SameIds-Tally c refl (λ _ _. refl) h
      | inr (at, c) ↦
          Ticks-Tally c (seen-presented s.passenger i at) (omega (arith, i.queued, i.ordered)) h
    ]
Step-Tally {k} {s} {t} (passenger_moves {t = u} {p = b} id lt e) i j h =
    elim (After-some _ _ (passenger_ids k id (s.passenger id) s.shared) e) [
      | elsewhere c same ↦
          SameIds-Tally c (omega (arith, total-update (reached 8) s.passenger b n_pass id lt, same))
            (λ x below. update-same (reached 8) s.passenger id x b same) h
      | shows at next c ↦
          rw next (Shows-Tally id lt at c (called-presented s.passenger i id lt at) h)
      | fails broken ↦ absurd (not_failed t id lt j (ground (arith, broken)))
    ]

pub Reach-Tally :
    {k : SemOp} {f : FullStat} {s : System} → IsSemOp k → Reach k f s → Tally s.passenger s.shared
Reach-Tally {f} law begin = initial-Tally f
Reach-Tally law (later r st) =
    Step-Tally st (Reach-Inv law r) (Reach-Inv law (later r st)) (Reach-Tally law r)

-- If `semop` behaves as documented, in every reachable state no passenger's check is logged more than
-- once, or before that passenger has shown the passport, and as many checks are logged as passengers
-- have boarded.
pub checked_once :
    (k : SemOp) (f : FullStat) (s : System)
    → IsSemOp k
    → Reach k f s
    → (j : ℕ) → j < n_pass
    → (length (checked_ids s.shared.log) ≡ s.shared.f_st.total_pass_boarded)
      × (occurrences j (checked_ids s.shared.log) ≤ reached 8 (s.passenger j))
checked_once k f s law r j lt =
    let h : Tally s.passenger s.shared = Reach-Tally law r in
    (
      h.size,
      elim (Bool-cases (presented s.passenger == s.shared.f_st.total_pass_boarded)) [
        | inl level ↦
            let now : presented s.passenger ≡ s.shared.f_st.total_pass_boarded = ground arith in
            omega (arith, h.all_logged now j lt)
        | inr one ↦
            let now : presented s.passenger ≡ s.shared.f_st.total_pass_boarded + 1 =
              ground (arith, h.behind, h.ahead) in
            omega (arith, h.one_waits now j lt)
      ],
    )

-- If `semop` behaves as documented and all processes have ended, the log has one check for every
-- passenger, and no other.
pub everybody_checked :
    (k : SemOp) (f : FullStat) (s : System)
    → IsSemOp k
    → Reach k f s
    → AllDone s
    → (j : ℕ) → j < n_pass
    → (length (checked_ids s.shared.log) ≡ n_pass) × (occurrences j (checked_ids s.shared.log) ≡ 1)
everybody_checked k f s law r d j lt =
    let h : Tally s.passenger s.shared = Reach-Tally law r in
    let all : s.shared.f_st.total_pass_boarded ≡ n_pass =
      (result-Complete k f s law r d).all_boarded in
    let now : presented s.passenger ≡ n_pass =
      total_ones (reached 8) n_pass s.passenger
        (λ j lt. rw (d.children.passengers_done j lt) refl) in
    (
      h.size ∙ all,
      let done : reached 8 (s.passenger j) ≡ 1 = rw (d.children.passengers_done j lt) refl in
          omega (arith, h.all_logged (omega (arith, all)) j lt),
    )
