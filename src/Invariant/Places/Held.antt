-- ===== src/Invariant/Places/Held.antt =====
-- What the places of the hostess, the pilot and `main` say about the semaphores and the counters.
use so_assignment2_air_bridg.Base.{
  ℕ, ◌+◌, ◌≤◌, ◌<◌, ◌≡◌, ◌⊎◌, Bool, true, false, ◌==◌, if◌then◌else◌,
}
use so_assignment2_air_bridg.Data.{n_pass, min_fc, max_fc}
use so_assignment2_air_bridg.Pilot.{PilotPlace}
use so_assignment2_air_bridg.Hostess.{HostessPlace}
use so_assignment2_air_bridg.Main.{MainPlace}

-- The hostess has accepted a passenger whom she has not yet counted in `nPassengers`; has called
-- that passenger; has seen the passport; has counted the passenger as boarded.
unfoldable pub hostess_accepted : HostessPlace → ℕ
hostess_accepted HostessPlace.check_enter = 1
hostess_accepted HostessPlace.check_body = 1
hostess_accepted HostessPlace.check_leave = 1
hostess_accepted HostessPlace.check_call = 1
hostess_accepted HostessPlace.check_id = 1
hostess_accepted HostessPlace.board_enter = 1
hostess_accepted HostessPlace.board_body = 1
hostess_accepted (HostessPlace.board_leave _) = 1
hostess_accepted _ = 0

unfoldable pub hostess_called : HostessPlace → ℕ
hostess_called HostessPlace.check_id = 1
hostess_called HostessPlace.board_enter = 1
hostess_called HostessPlace.board_body = 1
hostess_called (HostessPlace.board_leave _) = 1
hostess_called _ = 0

unfoldable pub hostess_seen : HostessPlace → ℕ
hostess_seen HostessPlace.board_enter = 1
hostess_seen HostessPlace.board_body = 1
hostess_seen (HostessPlace.board_leave _) = 1
hostess_seen _ = 0

unfoldable pub hostess_counted : HostessPlace → ℕ
hostess_counted (HostessPlace.board_leave _) = 1
hostess_counted _ = 0

-- The hostess works on a flight; the pilot waits for her.
unfoldable pub hostess_boarding : HostessPlace → ℕ
hostess_boarding HostessPlace.connect = 0
hostess_boarding HostessPlace.next_enter = 0
hostess_boarding HostessPlace.next_body = 0
hostess_boarding HostessPlace.next_leave = 0
hostess_boarding HostessPlace.next_down = 0
hostess_boarding HostessPlace.exited = 0
hostess_boarding HostessPlace.failed = 0
hostess_boarding _ = 1

unfoldable pub pilot_awaiting : PilotPlace → ℕ
pilot_awaiting PilotPlace.wait_enter = 1
pilot_awaiting PilotPlace.wait_body = 1
pilot_awaiting PilotPlace.wait_leave = 1
pilot_awaiting PilotPlace.wait_down = 1
pilot_awaiting _ = 0

-- How many passengers the pilot has let out, when `left` have left and `boarded` have boarded.
unfoldable pub let_out : PilotPlace → ℕ → ℕ → ℕ
let_out (PilotPlace.drop_loop i) left boarded = left + i
let_out PilotPlace.drop_save left boarded = boarded
let_out PilotPlace.drop_leave left boarded = boarded
let_out PilotPlace.drop_down left boarded = boarded
let_out _ left boarded = left

-- The pilot has yet to learn that the plane is empty, and it is.
unfoldable pub emptied : PilotPlace → ℕ → ℕ
emptied PilotPlace.drop_save aboard = if aboard == 0 then 1 else 0
emptied PilotPlace.drop_leave aboard = if aboard == 0 then 1 else 0
emptied PilotPlace.drop_down aboard = if aboard == 0 then 1 else 0
emptied _ aboard = 0

-- The plane may take off: a flight is never empty, never above its maximal capacity, and below its
-- minimal capacity only if everybody has boarded.
unfoldable pub MayFly : ℕ → ℕ → Type 0
MayFly aboard boarded = (1 ≤ aboard) × (aboard ≤ max_fc) × ((min_fc ≤ aboard) ⊎ (boarded ≡ n_pass))

-- The pilot's place, the passengers aboard and those who have boarded in all.
unfoldable pub PilotPlane : PilotPlace → ℕ → ℕ → Type 0
PilotPlane PilotPlace.wait_enter aboard boarded = Unit
PilotPlane PilotPlace.wait_body aboard boarded = Unit
PilotPlane PilotPlace.wait_leave aboard boarded = Unit
PilotPlane PilotPlace.wait_down aboard boarded = Unit
PilotPlane (PilotPlace.flight_enter true) aboard boarded = MayFly aboard boarded
PilotPlane (PilotPlace.flight_body true) aboard boarded = MayFly aboard boarded
PilotPlane (PilotPlace.flight_leave true) aboard boarded = MayFly aboard boarded
PilotPlane PilotPlace.drop_enter aboard boarded = MayFly aboard boarded
PilotPlane PilotPlace.drop_stat aboard boarded = MayFly aboard boarded
PilotPlane (PilotPlace.drop_loop i) aboard boarded = MayFly aboard boarded × (i ≤ aboard)
PilotPlane PilotPlace.drop_save aboard boarded = aboard ≤ max_fc
PilotPlane PilotPlace.drop_leave aboard boarded = aboard ≤ max_fc
PilotPlane PilotPlace.drop_down aboard boarded = aboard ≤ max_fc
PilotPlane PilotPlace.failed aboard boarded = ⊥
PilotPlane _ aboard boarded = aboard ≡ 0

unfoldable pub HostessPlane : HostessPlace → ℕ → ℕ → Type 0
HostessPlane HostessPlace.connect aboard boarded = Unit
HostessPlane HostessPlace.next_enter aboard boarded = Unit
HostessPlane HostessPlace.next_body aboard boarded = Unit
HostessPlane HostessPlace.next_leave aboard boarded = Unit
HostessPlane HostessPlace.next_down aboard boarded = Unit
HostessPlane HostessPlace.exited aboard boarded = Unit
HostessPlane (HostessPlace.board_leave true) aboard boarded = MayFly aboard boarded
HostessPlane HostessPlace.ready_enter aboard boarded = MayFly aboard boarded
HostessPlane HostessPlace.ready_body aboard boarded = MayFly aboard boarded
HostessPlane HostessPlace.ready_leave aboard boarded = MayFly aboard boarded
HostessPlane HostessPlace.ready_post aboard boarded = MayFly aboard boarded
HostessPlane HostessPlace.failed aboard boarded = ⊥
HostessPlane _ aboard boarded = (aboard < max_fc) × (boarded < n_pass)

-- The hostess's own count of passengers.
unfoldable pub HostessCount : HostessPlace → ℕ → Type 0
HostessCount HostessPlace.connect n = n ≡ 0
HostessCount HostessPlace.ready_enter n = n ≤ n_pass
HostessCount HostessPlace.ready_body n = n ≤ n_pass
HostessCount HostessPlace.ready_leave n = n ≤ n_pass
HostessCount HostessPlace.ready_post n = n ≤ n_pass
HostessCount HostessPlace.exited n = n ≡ n_pass
HostessCount _ n = n < n_pass

-- The flag `finished` at the places of the hostess and of the pilot.
unfoldable pub HostessFlag : HostessPlace → Bool → ℕ → Type 0
HostessFlag HostessPlace.next_enter fin boarded = fin ≡ (boarded == n_pass)
HostessFlag HostessPlace.next_body fin boarded = fin ≡ (boarded == n_pass)
HostessFlag HostessPlace.next_leave fin boarded = fin ≡ (boarded == n_pass)
HostessFlag HostessPlace.next_down fin boarded = fin ≡ (boarded == n_pass)
HostessFlag HostessPlace.ready_leave fin boarded = fin ≡ (boarded == n_pass)
HostessFlag HostessPlace.ready_post fin boarded = fin ≡ (boarded == n_pass)
HostessFlag HostessPlace.exited fin boarded = fin ≡ (boarded == n_pass)
HostessFlag _ fin boarded = fin ≡ false

unfoldable pub PilotFlag : PilotPlace → Bool → Type 0
PilotFlag (PilotPlace.flight_enter false) fin = fin ≡ false
PilotFlag (PilotPlace.flight_body false) fin = fin ≡ false
PilotFlag (PilotPlace.flight_leave false) fin = fin ≡ false
PilotFlag PilotPlace.signal_enter fin = fin ≡ false
PilotFlag PilotPlace.signal_body fin = fin ≡ false
PilotFlag PilotPlace.signal_leave fin = fin ≡ false
PilotFlag PilotPlace.signal_post fin = fin ≡ false
PilotFlag PilotPlace.exited fin = fin ≡ true
PilotFlag _ fin = Unit

-- `main` has raised the mutex; has opened the start gate.
unfoldable pub mutex_raised : MainPlace → ℕ
mutex_raised MainPlace.enable = 0
mutex_raised _ = 1

unfoldable pub gate_opened : MainPlace → ℕ
gate_opened MainPlace.enable = 0
gate_opened MainPlace.signal = 0
gate_opened _ = 1

-- `main` has not failed, and its loop runs only below the number of its children.
unfoldable pub MainRuns : MainPlace → Type 0
MainRuns (MainPlace.waiting m) = m < n_pass + 2
MainRuns MainPlace.failed = ⊥
MainRuns _ = Unit
