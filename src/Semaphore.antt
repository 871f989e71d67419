-- ===== src/Semaphore.antt =====
-- src/semaphore.c and src/sharedDataSync.h: the eight semaphores and the operations on the set. The
-- operating system's `semop` is a parameter, of type `SemOp`; the set has one identifier, which the
-- operations here leave out.
pub mod Ideal
use so_assignment2_air_bridg.Base.{ℕ, ◌+◌, ◌-◌, ◌%◌, ◌^◌, ◌≤◌, ◌<◌, ◌≡◌, List, [], ◌∷◌, update}

-- `SEM_NU` and the locations in the set; location 0 is the start gate of `semConnect`.
abbrev pub sem_nu : ℕ
sem_nu = 8

abbrev pub start_gate : ℕ
start_gate = 0

abbrev pub mutex : ℕ
mutex = 1

abbrev pub passengers_in_queue : ℕ
passengers_in_queue = 2

abbrev pub passengers_wait_in_queue : ℕ
passengers_wait_in_queue = 3

abbrev pub passengers_wait_in_flight : ℕ
passengers_wait_in_flight = 4

abbrev pub ready_for_boarding : ℕ
ready_for_boarding = 5

abbrev pub ready_to_flight : ℕ
ready_to_flight = 6

abbrev pub id_shown : ℕ
id_shown = 7

abbrev pub plane_empty : ℕ
plane_empty = 8

-- The values that the code puts into `sem_op`.
pub data Delta : Type 0 where
  minus_one plus_one : Delta

-- `struct sembuf`; `sem_num` is an unsigned short, and the flags are always 0.
pub record SemBuf : Type 0 where
  pub sem_num : ℕ
  pub sem_op : Delta

-- The values of the semaphores by location.
abbrev pub Values : Type 0
Values = ℕ → ℕ

-- What a call of `semop` does: it completes, it would block, or it returns -1.
pub data Outcome : Type 0 where
  done : Values → Outcome
  blocked : Outcome
  failed : Outcome

-- `SEMVMX`, the largest value of a semaphore.
abbrev pub sem_vmx : ℕ
sem_vmx = 32767

abbrev pub down_buf : ℕ → List SemBuf
down_buf i = record { sem_num = i; sem_op = minus_one } ∷ []

abbrev pub up_buf : ℕ → List SemBuf
up_buf i = record { sem_num = i; sem_op = plus_one } ∷ []

-- The two operations of `semConnect`, which the system makes as one.
abbrev pub gate_bufs : List SemBuf
gate_bufs =
    record { sem_num = start_gate; sem_op = minus_one }
    ∷ record { sem_num = start_gate; sem_op = plus_one }
    ∷ []

-- `semop` of the operating system; nothing is assumed of it here.
abbrev pub SemOp : Type 0
SemOp = Values → List SemBuf → Outcome

-- The documented behaviour of `semop` on a set that is not removed, in a process that catches no
-- signal: a decrement waits for a positive value, and an increment below `SEMVMX` succeeds.
pub record IsSemOp (semop : SemOp) : Type 0 where
  pub down_waits : (v : Values) (i : ℕ) → i ≤ sem_nu → v i ≡ 0 → semop v (down_buf i) ≡ blocked
  pub down_takes :
      (v : Values) (i : ℕ)
      → i ≤ sem_nu
      → 0 < v i
      → semop v (down_buf i) ≡ done (update v i (v i - 1))
  pub up_adds :
      (v : Values) (i : ℕ)
      → i ≤ sem_nu
      → v i < sem_vmx
      → semop v (up_buf i) ≡ done (update v i (v i + 1))
  pub gate_waits : (v : Values) → v start_gate ≡ 0 → semop v gate_bufs ≡ blocked
  pub gate_opens :
      (v : Values) → 0 < v start_gate → v start_gate ≤ sem_vmx → semop v gate_bufs ≡ done v

-- `semConnect`, without the identifier of the set.
unfoldable pub sem_connect : SemOp → Values → Outcome
sem_connect semop v = semop v gate_bufs

-- `semSignal`
unfoldable pub sem_signal : SemOp → Values → Outcome
sem_signal semop v = semop v (up_buf start_gate)

-- `semDown`
unfoldable pub sem_down : SemOp → Values → ℕ → Outcome
sem_down semop v sindex = semop v (down_buf (sindex % 2 ^ 16))

-- `semUp`
unfoldable pub sem_up : SemOp → Values → ℕ → Outcome
sem_up semop v sindex = semop v (up_buf (sindex % 2 ^ 16))
