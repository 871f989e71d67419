-- ===== src/Attempt.antt =====
-- What may go wrong outside of the life cycles, and results that carry it. A program that reports a
-- failure ends with `EXIT_FAILURE`.
use so_assignment2_air_bridg.Base.{
  ℕ, ◌+◌, ◌-◌, ◌^◌, Bool, true, false, List, none, some, get_elem?, length, leb, ◌==◌,
  if◌then◌else◌,
}
use so_assignment2_air_bridg.Format.{Bytes}

pub data Failure : Type 0 where
  wrong_count wrong_id wrong_key : Failure  -- the command line
  no_key no_semaphores no_memory no_map : Failure  -- making or finding what is shared
  no_mutex no_fork no_signal no_child : Failure
  no_log not_closed : Failure  -- `openLog` and `closeLog` when the log is created
  not_unmapped not_destroyed : Failure
  undefined : Failure  -- C does not say: a text does not fit its array, or an argument is missing

pub data Attempt {ℓ} (A : Type ℓ) : Type ℓ where
  ok : A → Attempt A
  fail : Failure → Attempt A

infixl 5 ◌>>=◌ ◌>>◌
abbrev pub ◌>>=◌ {ℓ κ} : {A : Type ℓ} {B : Type κ} → Attempt A → (A → Attempt B) → Attempt B
ok a >>= f = f a
fail e >>= f = fail e

abbrev pub ◌>>◌ {ℓ} : {B : Type ℓ} → Attempt (Unit {0}) → Attempt B → Attempt B
m >> k = m >>= λ _. k

abbrev pub require : Bool → Failure → Attempt (Unit {0})
require true e = ok tt
require false e = fail e

-- `argv[i]`
abbrev pub arg : List Bytes → ℕ → Attempt Bytes
arg argv i = elim (get_elem? argv i) [ some a ↦ ok a | none ↦ fail undefined ]

-- `strcpy` into an array of `n` bytes, which must hold the final 0 too.
abbrev pub strcpy : ℕ → Bytes → Attempt Bytes
strcpy n s = if leb (length s + 1) n then ok s else fail undefined

-- `-1` as an `int`
abbrev pub minus_one : ℕ
minus_one = 2 ^ 32 - 1

-- `if (r == -1) { perror (…); exit (EXIT_FAILURE); }`
abbrev pub check : ℕ → Failure → Attempt ℕ
check r e = if r == minus_one then fail e else ok r
