-- ===== src/Invariant/Turns.antt =====
-- What holds after a step, if it was made: the cases of a step over the model `ideal` of `semop`.
use so_assignment2_air_bridg.Base.{
  ℕ, ◌+◌, ◌-◌, ◌≤◌, ◌<◌, ◌≡◌, some, none, arith, update, ◌==◌, ltb, Bool-cases, inl, inr, true,
}
use so_assignment2_air_bridg.Semaphore.{sem_vmx, down_buf, up_buf, gate_bufs}
use so_assignment2_air_bridg.Semaphore.Ideal.{ideal, ideal-down, ideal-up, ideal-gate}
use so_assignment2_air_bridg.Shared.{Shared, Turn, checked}

-- `Q` holds of what is shared and of the place after the step, if it can be made.
abbrev pub After : {P : Type 0} → (Shared → P → Type 0) → Turn P → Type 0
After Q none = Unit
After Q (some (t, p)) = Q t p

pub After-some :
    {P : Type 0} (Q : Shared → P → Type 0) (r : Turn P) {t : Shared} {p : P}
    → After Q r
    → r ≡ some (t, p)
    → Q t p
After-some Q r a e = rw e at a

module _ {P : Type 0} (Q : Shared → P → Type 0) (s : Shared) (fail next : P) where
  pub down_turn :
      (i : ℕ)
      → (0 < s.sems i → Q (record s { sems = update s.sems i (s.sems i - 1) }) next)
      → After Q (checked (ideal s.sems (down_buf i)) s fail next)
  down_turn i q = elim (Bool-cases (s.sems i == 0)) [
    | inl e ↦ rw (ideal-down, e) tt
    | inr e ↦ rw (ideal-down, e) (q (ground arith))
  ]

  pub up_turn :
      (i : ℕ)
      → s.sems i < sem_vmx
      → Q (record s { sems = update s.sems i (s.sems i + 1) }) next
      → After Q (checked (ideal s.sems (up_buf i)) s fail next)
  up_turn i lt q = let e : ltb (s.sems i) sem_vmx ≡ true = ground arith in rw (ideal-up, e) q

  pub gate_turn :
      s.sems 0 ≤ sem_vmx
      → (0 < s.sems 0 → Q s next)
      → After Q (checked (ideal s.sems gate_bufs) s fail next)
  gate_turn le q = elim (Bool-cases (s.sems 0 == 0)) [
    | inl e ↦ rw (ideal-gate s.sems le, e) tt
    | inr e ↦ rw (ideal-gate s.sems le, e) (q (ground arith))
  ]
