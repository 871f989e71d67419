-- ===== src/Invariant/Places/Bounds.antt =====
-- Bounds on what the places say about the semaphores and the counters.
use so_assignment2_air_bridg.Base.{ℕ, ◌+◌, ◌≤◌, ◌<◌, ◌≡◌, refl, Bool, arith}
use so_assignment2_air_bridg.Data.{max_fc}
use so_assignment2_air_bridg.Pilot.{PilotPlace}
use so_assignment2_air_bridg.Hostess.{HostessPlace}
use so_assignment2_air_bridg.Main.{MainPlace}
use so_assignment2_air_bridg.Invariant.Places.Counting.{pilot_inside}
use so_assignment2_air_bridg.Invariant.Places.Held.{
  hostess_called, hostess_boarding, pilot_awaiting, let_out, emptied, MayFly, PilotPlane,
  HostessPlane, PilotFlag, mutex_raised, gate_opened,
}

pub mutex_raised-le : (m : MainPlace) → mutex_raised m ≤ 1
unfolding mutex_raised
mutex_raised-le MainPlace.enable = omega arith
mutex_raised-le _ = omega arith

pub gate_opened-le : (m : MainPlace) → gate_opened m ≤ 1
unfolding gate_opened
gate_opened-le MainPlace.enable = omega arith
gate_opened-le _ = omega arith

pub MayFly-bounds : (aboard boarded : ℕ) → MayFly aboard boarded → (1 ≤ aboard) × (aboard ≤ max_fc)
unfolding MayFly
MayFly-bounds aboard boarded h = (h.0, h.1)

-- While the pilot waits for the hostess, nothing is known of the plane and nobody is let out.
pub awaiting-PilotPlane : (p : PilotPlace) (a b : ℕ) → pilot_awaiting p ≡ 1 → PilotPlane p a b
unfolding pilot_awaiting PilotPlane
awaiting-PilotPlane PilotPlace.wait_enter a b h = tt
awaiting-PilotPlane PilotPlace.wait_body a b h = tt
awaiting-PilotPlane PilotPlace.wait_leave a b h = tt
awaiting-PilotPlane PilotPlace.wait_down a b h = tt
awaiting-PilotPlane _ a b h = absurd (omega arith)

pub awaiting-PilotFlag : (p : PilotPlace) (fin : Bool) → pilot_awaiting p ≡ 1 → PilotFlag p fin
unfolding pilot_awaiting PilotFlag
awaiting-PilotFlag PilotPlace.wait_enter fin h = tt
awaiting-PilotFlag PilotPlace.wait_body fin h = tt
awaiting-PilotFlag PilotPlace.wait_leave fin h = tt
awaiting-PilotFlag PilotPlace.wait_down fin h = tt
awaiting-PilotFlag _ fin h = absurd (omega arith)

pub awaiting_lem :
    (p : PilotPlace) (l b a : ℕ) → pilot_awaiting p ≡ 1 → (let_out p l b ≡ l) × (emptied p a ≡ 0)
unfolding pilot_awaiting let_out emptied
awaiting_lem PilotPlace.wait_enter l b a h = (refl, refl)
awaiting_lem p l b a h = ground arith

pub pilot_awaiting-le : (p : PilotPlace) → pilot_awaiting p ≤ 1
unfolding pilot_awaiting
pilot_awaiting-le PilotPlace.wait_enter = omega arith
pilot_awaiting-le _ = omega arith

pub emptied-le : (p : PilotPlace) (a : ℕ) → emptied p a ≤ 1
unfolding emptied
emptied-le PilotPlace.drop_save a = ground arith
emptied-le p a = ground arith

-- Passengers who may leave while the pilot is in no critical section: the pilot waits for them.
pub let_out-drop_down :
    (p : PilotPlace) (l b : ℕ) → pilot_inside p ≡ 0 → l < let_out p l b → p ≡ PilotPlace.drop_down
unfolding pilot_inside let_out
let_out-drop_down PilotPlace.drop_down l b out lt = refl
let_out-drop_down (PilotPlace.drop_loop j) l b out lt = absurd (omega arith)
let_out-drop_down p l b out lt = absurd (omega arith)

-- Away from a flight the hostess knows nothing of the plane.
pub idle-HostessPlane :
    (h : HostessPlace) (a b a' b' : ℕ)
    → hostess_boarding h ≡ 0
    → HostessPlane h a b
    → HostessPlane h a' b'
unfolding hostess_boarding HostessPlane
idle-HostessPlane HostessPlace.connect a b a' b' e k = tt
idle-HostessPlane HostessPlace.next_enter a b a' b' e k = tt
idle-HostessPlane HostessPlace.next_body a b a' b' e k = tt
idle-HostessPlane HostessPlace.next_leave a b a' b' e k = tt
idle-HostessPlane HostessPlace.next_down a b a' b' e k = tt
idle-HostessPlane HostessPlace.exited a b a' b' e k = tt
idle-HostessPlane HostessPlace.failed a b a' b' e k = k
idle-HostessPlane _ a b a' b' e k = absurd (omega arith)

pub hostess_called-le : (h : HostessPlace) → hostess_called h ≤ 1
unfolding hostess_called
hostess_called-le HostessPlace.check_id = omega arith
hostess_called-le _ = omega arith

pub let_out-le : (p : PilotPlace) (l a b : ℕ) → PilotPlane p a b → a + l ≡ b → let_out p l b ≤ b
unfolding let_out PilotPlane
let_out-le (PilotPlace.drop_loop i) l a b h e = omega arith
let_out-le _ l a b h e = omega arith
