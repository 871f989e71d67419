-- ===== src/Schedule.antt =====
-- Runs of the simulation by evaluation: the processes make their steps in a given order, over the
-- model `ideal` of `semop`.
use so_assignment2_air_bridg.Base.{ℕ, ◌≡◌, refl, some, none, List, [], ◌∷◌, dec_lt, update, total}
use so_assignment2_air_bridg.Data.{FullStat, n_pass}
use so_assignment2_air_bridg.Semaphore.Ideal.{ideal}
use so_assignment2_air_bridg.Shared.{Shared, Turn}
use so_assignment2_air_bridg.Pilot.{pilot_step}
use so_assignment2_air_bridg.Hostess.{hostess_step}
use so_assignment2_air_bridg.Passenger.{passenger_step}
use so_assignment2_air_bridg.Main.{main_step, start}
use so_assignment2_air_bridg.System.{
  System, Step, main_moves, pilot_moves, hostess_moves, passenger_moves, Reach, later, exits,
}

pub data Who : Type 0 where
  main pilot hostess : Who
  passenger : ℕ → Who

-- A reachable state.
pub record Run (f : FullStat) : Type 0 where
  pub last : System
  pub open last use *
  pub reach : Reach ideal f last

-- The state after a step, or the same state if the process has to wait.
extend :
    {P : Type 0} {f : FullStat} (r : Run f) (o : Turn P) (next : Shared → P → System)
    → ((t : Shared) (p : P) → o ≡ some (t, p) → Step ideal r.last (next t p))
    → Run f
extend r none next st = r
extend r (some (t, p)) next st = record { last = next t p; reach = later r.reach (st t p refl) }

turn : {f : FullStat} → Run f → Who → Run f
unfolding extend dec_lt
turn r Who.main =
    extend r (main_step ideal (exits r.last) r.main r.shared)
      (λ t p. record r.last { shared = t; main = p }) (λ t p e. main_moves e)
turn r Who.pilot =
    extend r (pilot_step ideal r.pilot r.shared) (λ t p. record r.last { shared = t; pilot = p })
      (λ t p e. pilot_moves e)
turn r Who.hostess =
    extend r (hostess_step ideal r.hostess r.n_checked r.shared)
      (λ t p. record r.last { shared = t; hostess = p.0; n_checked = p.1 })
      (λ t p e. hostess_moves e)
turn r (Who.passenger i) = elim (dec_lt i n_pass) [
  | yes lt ↦
      extend r (passenger_step ideal i (r.passenger i) r.shared)
        (λ t p. record r.last { shared = t; passenger = update r.passenger i p })
        (λ t p e. passenger_moves i lt e)
  | no _ ↦ r
]

-- The turns of a list, from its head on.
unfoldable pub run : {f : FullStat} → Run f → List Who → Run f
unfolding turn ideal main_step pilot_step hostess_step passenger_step exits total start
run r [] = r
run r (w ∷ ws) = run (turn r w) ws
