-- ===== src/Faults.antt =====
-- The simulation over a `semop` that may fail in any call, as when a signal interrupts it.
pub mod Exclusion
pub mod Saving
use so_assignment2_air_bridg.Base.{ℕ, ◌+◌, ◌-◌, ◌≡◌, ◌<◌, update, arith}
use so_assignment2_air_bridg.Semaphore.{SemOp, Values, done, down_buf, up_buf, gate_bufs}
use so_assignment2_air_bridg.Semaphore.Ideal.{ideal, adjust, ideal-down, ideal-up, gate_back}

-- The documented effect of a call that succeeds; nothing is said of when a call blocks or fails.
pub record MayFail (semop : SemOp) : Type 0 where
  pub down_took :
      (v w : Values) (i : ℕ)
      → semop v (down_buf i) ≡ done w
      → (0 < v i) × (w ≡ update v i (v i - 1))
  pub up_added : (v w : Values) (i : ℕ) → semop v (up_buf i) ≡ done w → w ≡ update v i (v i + 1)
  pub gate_passed : (v w : Values) → semop v gate_bufs ≡ done w → w ≡ v

-- The model of `semop` is an instance.
pub ideal-MayFail : MayFail ideal
unfolding ideal adjust
ideal-MayFail = record {
  down_took = λ v w i e. ground (arith, ideal-down v i);
  up_added = λ v w i e. ground (arith, ideal-up v i);
  gate_passed = λ v w e. ground (arith, gate_back v);
}
