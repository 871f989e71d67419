-- ===== src/Invariant/Defs.antt =====
-- The invariant of the simulation: how the counters, the semaphores and the places of the processes
-- hang together.
use so_assignment2_air_bridg.Base.{ℕ, ◌+◌, ◌≡◌, false}
use so_assignment2_air_bridg.Shared.{Shared}
use so_assignment2_air_bridg.Pilot.{PilotPlace}
use so_assignment2_air_bridg.Hostess.{HostessPlace}
use so_assignment2_air_bridg.Main.{MainPlace}
use so_assignment2_air_bridg.System.{System}
use so_assignment2_air_bridg.Invariant.Places.{
  Counts, IsOrdered, counts, pilot_inside, hostess_inside, hostess_accepted, hostess_called,
  hostess_seen, hostess_counted, hostess_boarding, pilot_awaiting, let_out, emptied, MayFly,
  PilotPlane, HostessPlane, HostessCount, HostessFlag, PilotFlag, mutex_raised, gate_opened,
  MainRuns,
}

pub record Inv (m : MainPlace) (p : PilotPlace) (h : HostessPlace) (n : ℕ) (c : Counts) (s : Shared)
    : Type 0 where
  pub ordered : IsOrdered c
  pub gate : s.sems 0 ≡ gate_opened m
  pub exclusive : s.sems 1 + pilot_inside p + hostess_inside h + c.inside ≡ mutex_raised m
  pub arrivals : s.sems 2 + n + hostess_accepted h ≡ c.posted
  pub calls : s.sems 3 + c.called ≡ n + hostess_called h
  pub exits_allowed : s.sems 4 + c.freed ≡ let_out p c.left s.f_st.total_pass_boarded
  pub turn : s.sems 5 + hostess_boarding h + s.sems 6 ≡ pilot_awaiting p
  pub passports : s.sems 7 + n + hostess_seen h ≡ c.shown
  pub empty_plane : s.sems 8 + c.pending ≡ emptied p s.f_st.n_pass_in_flight
  pub aboard : s.f_st.n_pass_in_flight + c.left ≡ s.f_st.total_pass_boarded
  pub queued : s.f_st.n_pass_in_queue + s.f_st.total_pass_boarded ≡ c.joined
  pub boarded : s.f_st.total_pass_boarded ≡ n + hostess_counted h
  pub pilot_plane : PilotPlane p s.f_st.n_pass_in_flight s.f_st.total_pass_boarded
  pub hostess_plane : HostessPlane h s.f_st.n_pass_in_flight s.f_st.total_pass_boarded
  pub plane_called : s.sems 5 ≡ 1 → (s.f_st.n_pass_in_flight ≡ 0) × (s.f_st.finished ≡ false)
  pub plane_ready : s.sems 6 ≡ 1 → MayFly s.f_st.n_pass_in_flight s.f_st.total_pass_boarded
  pub hostess_count : HostessCount h n
  pub hostess_flag : HostessFlag h s.f_st.finished s.f_st.total_pass_boarded
  pub pilot_flag : PilotFlag p s.f_st.finished
  pub unbroken : c.broken ≡ 0
  pub main_runs : MainRuns m

abbrev pub SystemInv : System → Type 0
SystemInv s = Inv s.main s.pilot s.hostess s.n_checked (counts s.passenger) s.shared
