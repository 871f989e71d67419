-- ===== src/Progress/Deadlock.antt =====
-- No state that satisfies the invariant is a deadlock.
use so_assignment2_air_bridg.Base.{
  ℕ, ◌≡◌, ◌<◌, false, arith, refl, ◌⊎◌, inl, inr, total_ones, total_zeros, total-cong, total_full,
  total-own,
}
use so_assignment2_air_bridg.Data.{n_pass}
use so_assignment2_air_bridg.Semaphore.{Values}
use so_assignment2_air_bridg.Shared.{Shared}
use so_assignment2_air_bridg.Pilot.{PilotPlace}
use so_assignment2_air_bridg.Hostess.{HostessPlace}
use so_assignment2_air_bridg.Passenger.{PassengerPlace}
use so_assignment2_air_bridg.Main.{MainPlace}
use so_assignment2_air_bridg.Invariant.{
  Counts, counts, reached, reached-le, is_pending, is_broken, passenger_inside, pilot_inside,
  hostess_inside, pilot_awaiting, let_out, emptied, PilotPlane, PilotFlag, hostess_accepted,
  hostess_called, hostess_seen, hostess_counted, hostess_boarding, HostessPlane, HostessCount,
  HostessFlag, Inv, mutex_raised,
}
use so_assignment2_air_bridg.Progress.Ready.{pilot_ready, hostess_ready, passenger_ready}

-- What the places of the passengers add up to when none of them can move.
record Stuck (v : Values) (c : Counts) : Type 0 where
  posted : c.posted ≡ n_pass
  called : c.called ≡ c.shown
  freed : c.freed ≡ c.left
  pending : c.pending ≡ 0
  all_called : 0 < v 3 → c.called ≡ n_pass
  all_freed : 0 < v 4 → c.shown ≡ c.freed

module _ (v : Values) (a : PassengerPlace) (stuck : passenger_ready v a ≡ false) where
  not_inside : passenger_inside a ≡ 0
  unfolding passenger_inside
  not_inside = ground arith

  -- The passenger waits for a call, waits to be let out, or has left.
  waits :
      v 0 ≡ 1
      → v 1 ≡ 1
      → is_broken a ≡ 0
      → ((a ≡ PassengerPlace.queue_down) × (v 3 ≡ 0))
        ⊎ (((a ≡ PassengerPlace.arrive_down) × (v 4 ≡ 0)) ⊎ (a ≡ PassengerPlace.exited))
  unfolding is_broken
  waits gate free whole = ground arith

-- What each waiting passenger adds to the counts.
record Waiting (v : Values) (a : PassengerPlace) : Type 0 where
  posted : reached 5 a ≡ 1
  called : reached 6 a ≡ reached 10 a
  freed : reached 11 a ≡ reached 13 a
  pending : is_pending a ≡ 0
  all_called : 0 < v 3 → reached 6 a ≡ 1
  all_freed : 0 < v 4 → reached 10 a ≡ reached 11 a
  gone : reached 13 a ≡ 1 → a ≡ PassengerPlace.exited

waiting :
    (v : Values) (a : PassengerPlace)
    → passenger_ready v a ≡ false
    → v 0 ≡ 1
    → v 1 ≡ 1
    → is_broken a ≡ 0
    → Waiting v a
unfolding is_pending
waiting v a stuck gate free whole = elim (waits v a stuck gate free whole) [
  | inl (e, z) ↦ rw e (ground arith)
  | inr (inl (e, z)) ↦ rw e (ground arith)
  | inr (inr e) ↦ rw e (ground arith)
]

module _ (v : Values) (f : ℕ → PassengerPlace) (wait : (i : ℕ) → i < n_pass → Waiting v (f i)) where
  counts-Stuck : Stuck v (counts f)
  counts-Stuck = record {
    posted = total_ones (reached 5) n_pass f (λ i lt. (wait i lt).posted);
    called = total-cong (reached 6) (reached 10) n_pass f f (λ i lt. (wait i lt).called);
    freed = total-cong (reached 11) (reached 13) n_pass f f (λ i lt. (wait i lt).freed);
    pending = total_zeros is_pending n_pass f (λ i lt. (wait i lt).pending);
    all_called = λ h. total_ones (reached 6) n_pass f (λ i lt. (wait i lt).all_called h);
    all_freed =
        λ h. total-cong (reached 10) (reached 11) n_pass f f (λ i lt. (wait i lt).all_freed h);
  }

-- A hostess who cannot move waits for a flight or has left, if the passengers are stuck.
hostess_waits :
    {m : MainPlace} {p : PilotPlace} {n : ℕ} {c : Counts} {s : Shared} (h : HostessPlace)
    → Inv m p h n c s
    → Stuck s.sems c
    → s.sems 0 ≡ 1
    → s.sems 1 ≡ 1
    → hostess_ready s.sems h ≡ false
    → ((h ≡ HostessPlace.next_down) × (s.sems 5 ≡ 0)) ⊎ (h ≡ HostessPlace.exited)
unfolding hostess_accepted hostess_called hostess_seen HostessCount HostessPlane
hostess_waits HostessPlace.next_down i k gate free e = inl (refl, ground arith)
hostess_waits HostessPlace.exited i k gate free e = inr refl
hostess_waits _ i k gate free e = absurd (ground arith)

pilot_waits :
    {m : MainPlace} {h : HostessPlace} {n : ℕ} {c : Counts} {s : Shared} (p : PilotPlace)
    → Inv m p h n c s
    → s.sems 0 ≡ 1
    → s.sems 1 ≡ 1
    → pilot_ready s.sems p ≡ false
    → ((p ≡ PilotPlace.wait_down) × (s.sems 6 ≡ 0))
      ⊎ (((p ≡ PilotPlace.drop_down) × (s.sems 8 ≡ 0)) ⊎ (p ≡ PilotPlace.exited))
unfolding PilotPlane
pilot_waits PilotPlace.wait_down i gate free e = inl (refl, ground arith)
pilot_waits PilotPlace.drop_down i gate free e = inr (inl (refl, ground arith))
pilot_waits PilotPlace.exited i gate free e = inr (inr refl)
pilot_waits _ i gate free e = absurd (ground arith)

-- Everybody stuck means that all have left.
module _ {m : MainPlace} {n : ℕ} {c : Counts} {s : Shared} (k : Stuck s.sems c) where
  next_down-stuck :
      (p : PilotPlace)
      → Inv m p HostessPlace.next_down n c s
      → s.sems 5 ≡ 0
      → ((p ≡ PilotPlace.wait_down) × (s.sems 6 ≡ 0))
        ⊎ (((p ≡ PilotPlace.drop_down) × (s.sems 8 ≡ 0)) ⊎ (p ≡ PilotPlace.exited))
      → ⊥
  unfolding pilot_awaiting let_out emptied PilotFlag PilotPlane hostess_boarding HostessCount
      HostessFlag hostess_counted hostess_seen
  next_down-stuck p i z (inl (e, w)) =
      let j : Inv m PilotPlace.wait_down HostessPlace.next_down n c s = rw e at i in ground arith
  next_down-stuck p i z (inr (inl (e, w))) =
      let j : Inv m PilotPlace.drop_down HostessPlace.next_down n c s = rw e at i in ground arith
  next_down-stuck p i z (inr (inr e)) =
      let j : Inv m PilotPlace.exited HostessPlace.next_down n c s = rw e at i in ground arith

  exited-stuck :
      (p : PilotPlace)
      → Inv m p HostessPlace.exited n c s
      → ((p ≡ PilotPlace.wait_down) × (s.sems 6 ≡ 0))
        ⊎ (((p ≡ PilotPlace.drop_down) × (s.sems 8 ≡ 0)) ⊎ (p ≡ PilotPlace.exited))
      → (p ≡ PilotPlace.exited) × (c.left ≡ n_pass)
  unfolding pilot_awaiting let_out emptied PilotFlag PilotPlane hostess_boarding HostessCount
      HostessFlag hostess_counted hostess_seen
  exited-stuck p i (inl (e, w)) =
      let j : Inv m PilotPlace.wait_down HostessPlace.exited n c s = rw e at i in
      absurd (ground arith)
  exited-stuck p i (inr (inl (e, w))) =
      let j : Inv m PilotPlace.drop_down HostessPlace.exited n c s = rw e at i in
      absurd (ground arith)
  exited-stuck p i (inr (inr e)) =
      let j : Inv m PilotPlace.exited HostessPlace.exited n c s = rw e at i in (e, ground arith)

pilot_not_inside : (v : Values) (p : PilotPlace) → pilot_ready v p ≡ false → pilot_inside p ≡ 0
unfolding pilot_inside
pilot_not_inside v p e = ground arith

hostess_not_inside :
    (v : Values) (h : HostessPlace) → hostess_ready v h ≡ false → hostess_inside h ≡ 0
unfolding hostess_inside
hostess_not_inside v h e = ground arith

-- When nobody can move, though `main` has opened the gate, everybody has left.
module _ {m : MainPlace} {p : PilotPlace} {h : HostessPlace} {n : ℕ} {s : Shared}
    (f : ℕ → PassengerPlace) (i : Inv m p h n (counts f) s) (gate : s.sems 0 ≡ 1)
    (raised : mutex_raised m ≡ 1) (pilot_stuck : pilot_ready s.sems p ≡ false)
    (hostess_stuck : hostess_ready s.sems h ≡ false)
    (stuck : (j : ℕ) → j < n_pass → passenger_ready s.sems (f j) ≡ false) where
  mutex_free : s.sems 1 ≡ 1
  mutex_free = omega (
    arith,
    i.exclusive,
    pilot_not_inside s.sems p pilot_stuck,
    hostess_not_inside s.sems h hostess_stuck,
    total_zeros passenger_inside n_pass f (λ j lt. not_inside s.sems (f j) (stuck j lt)),
  )

  all_wait : (j : ℕ) → j < n_pass → Waiting s.sems (f j)
  all_wait j lt =
      waiting s.sems (f j) (stuck j lt) gate mutex_free
        (omega (arith, total-own is_broken n_pass f j lt, i.unbroken))

  pub all_left :
      (p ≡ PilotPlace.exited)
      × (h ≡ HostessPlace.exited)
      × ((j : ℕ) → j < n_pass → f j ≡ PassengerPlace.exited)
  all_left =
      let k : Stuck s.sems (counts f) = counts-Stuck s.sems f all_wait in
      let pilot_place = pilot_waits p i gate mutex_free pilot_stuck in
      elim (hostess_waits h i k gate mutex_free hostess_stuck) [
        | inl (e, z) ↦ absurd (next_down-stuck k p (rw e at i) z pilot_place)
        | inr e ↦
            let last = exited-stuck k p (rw e at i) pilot_place in
            (
              last.0,
              e,
              λ j lt.
                  (all_wait j lt).gone
                    (total_full (reached 13) (reached-le 13) n_pass f last.1 j lt),
            )
      ]
