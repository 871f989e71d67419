-- ===== src/Semaphore/Ideal.antt =====
-- A model of `semop` that runs, and every system call as documented agrees with it on the calls
-- that src/semaphore.c makes.
use so_assignment2_air_bridg.Base.{
  ℕ, ◌+◌, ◌-◌, ◌≤◌, ◌<◌, ◌≡◌, [], ◌∷◌, fun_ext, arith, ◌==◌, ltb, if◌then◌else◌, update,
}
use so_assignment2_air_bridg.Semaphore.{
  Delta, minus_one, plus_one, Values, Outcome, done, blocked, failed, SemOp, IsSemOp, sem_nu,
  sem_vmx, start_gate, down_buf, up_buf, gate_bufs,
}

-- One operation of an array.
unfoldable pub adjust : Delta → ℕ → Values → Outcome
adjust minus_one i v = if v i == 0 then blocked else done (update v i (v i - 1))
adjust plus_one i v = if ltb (v i) sem_vmx then done (update v i (v i + 1)) else failed

-- The operations are made in order, and all together or not at all.
unfoldable pub ideal : SemOp
unfolding adjust
ideal v [] = done v
ideal v (b ∷ bs) = elim (adjust b.sem_op b.sem_num v) [
  | done w ↦ ideal w bs
  | blocked ↦ blocked
  | failed ↦ failed
]

module _ (v : Values) (i : ℕ) where
  pub ideal-down :
      ideal v (down_buf i) ≡ (if v i == 0 then blocked else done (update v i (v i - 1)))
  unfolding ideal
  ideal-down = ground arith

  pub ideal-up :
      ideal v (up_buf i) ≡ (if ltb (v i) sem_vmx then done (update v i (v i + 1)) else failed)
  unfolding ideal
  ideal-up = ground arith

-- Taking one from the gate and giving it back leaves the values as they were.
pub gate_back : (v : Values) → 0 < v 0 → update (update v 0 (v 0 - 1)) 0 (v 0 - 1 + 1) ≡ v
gate_back v h = fun_ext λ j. ground arith

pub ideal-gate :
    (v : Values)
    → v start_gate ≤ sem_vmx
    → ideal v gate_bufs ≡ (if v start_gate == 0 then blocked else done v)
unfolding ideal
ideal-gate v h = ground (arith, gate_back v)

-- The model behaves as documented.
pub ideal-IsSemOp : IsSemOp ideal
ideal-IsSemOp = record {
  down_waits = λ v i _ h. ground (arith, ideal-down v i);
  down_takes = λ v i _ h. ground (arith, ideal-down v i);
  up_adds = λ v i _ h. ground (arith, ideal-up v i);
  gate_waits = λ v h. ground (arith, ideal-gate v);
  gate_opens = λ v h l. ground (arith, ideal-gate v);
}

-- A system call as documented does what the model does.
module _ {k : SemOp} (law : IsSemOp k) (v : Values) where
  pub down_agrees : (i : ℕ) → i ≤ sem_nu → k v (down_buf i) ≡ ideal v (down_buf i)
  down_agrees i le = ground (arith, law.down_waits v i le, law.down_takes v i le, ideal-down v i)

  pub up_agrees : (i : ℕ) → i ≤ sem_nu → v i < sem_vmx → k v (up_buf i) ≡ ideal v (up_buf i)
  up_agrees i le lt = ground (arith, law.up_adds v i le lt, ideal-up v i)

  pub gate_agrees : v start_gate ≤ sem_vmx → k v gate_bufs ≡ ideal v gate_bufs
  gate_agrees le = ground (arith, law.gate_waits v, law.gate_opens v, ideal-gate v)
