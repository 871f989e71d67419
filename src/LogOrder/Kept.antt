-- ===== src/LogOrder/Kept.antt =====
-- What it means that the log is in order, and steps that write nothing in it that counts.
use so_assignment2_air_bridg.Base.{
  ℕ, ◌+◌, ◌≡◌, ◌≢◌, arith, none, some, ◌==◌, if◌then◌else◌, inl, inr, ◌⊎◌,
}
use so_assignment2_air_bridg.Shared.{Shared, Turn}
use so_assignment2_air_bridg.Pilot.{PilotPlace}
use so_assignment2_air_bridg.System.{System}
use so_assignment2_air_bridg.Invariant.{After}
use so_assignment2_air_bridg.Frame.{Kept, pilot_opened, hostess_filling}
use so_assignment2_air_bridg.LogOrder.Phases.{
  Phase, phase_of, Stage, on_ground, boarding, flying_out, unloading, home, away, back, stage,
}

-- The phase, if `o` flights are open for boarding and `a` passengers are aboard.
unfoldable pub expected : Stage → ℕ → ℕ → Phase
expected home o a = on_ground
expected away o a = if o == 0 then flying_out else boarding a
expected back o a = unloading

-- The log is in order, and says where the plane is.
abbrev pub InOrder : Stage → ℕ → Shared → Type 0
InOrder g o s = phase_of s.log ≡ some (expected g (o + s.sems 5) s.f_st.n_pass_in_flight)

pub Kept-InOrder :
    (g : Stage) {s t : Shared} {o q : ℕ} (r : ℕ)
    → Kept s t o q
    → phase_of t.log ≡ phase_of s.log
    → InOrder g (o + r) s
    → InOrder g (q + r) t
Kept-InOrder g {s} {t} {o} {q} r c same l =
    let e : q + r + t.sems 5 ≡ o + r + s.sems 5 = omega (arith, c.opened) in
    rw (same, e, c.aboard) l

-- A step of the pilot that leaves the phase and the stage as they are.
pub pilot-Kept :
    (g : Stage) (o r : ℕ) (s : Shared) (w : Turn PilotPlace)
    → InOrder g (o + r) s
    → After (λ t q. Kept s t o (pilot_opened q)) w
    → After (λ t q. (phase_of t.log ≡ phase_of s.log) × ((q ≡ PilotPlace.failed) ⊎ (stage q ≡ g))) w
    → After (λ t q. (q ≢ PilotPlace.failed) → InOrder (stage q) (pilot_opened q + r) t) w
pilot-Kept g o r s none l a b = tt
pilot-Kept g o r s (some (t, q)) l c (same, inl broken) = λ whole. absurd (whole broken)
pilot-Kept g o r s (some (t, q)) l c (same, inr e) = λ whole. rw e (Kept-InOrder g r c same l)

-- A step of another process that leaves the phase as it is.
pub other-Kept :
    {P : Type 0} (count : P → ℕ) (g : Stage) (o r : ℕ) (s : Shared) (w : Turn P)
    → InOrder g (o + r) s
    → After (λ t q. Kept s t o (count q)) w
    → After (λ t _. phase_of t.log ≡ phase_of s.log) w
    → After (λ t q. InOrder g (count q + r) t) w
other-Kept count g o r s none l a b = tt
other-Kept count g o r s (some (t, q)) l c same = Kept-InOrder g r c same l

-- The flights that are open for boarding, but for the signal to the hostess.
abbrev pub open_flights : System → ℕ
open_flights s = pilot_opened s.pilot + hostess_filling s.hostess
