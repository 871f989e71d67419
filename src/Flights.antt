-- ===== src/Flights.antt =====
-- The flights of the air lift: how many there are and how many passengers each of them carries.
mod Records
mod Boardings
mod Operations
mod Steps
unfoldable pub use Records.{sum, Rules}
pub use Steps.{Inv-boarded, filling-boarding}
unfoldable pub use Boardings.{boardings, add_entries, add_entry, bump}
use so_assignment2_air_bridg.Base.{
  ℕ, ◌+◌, ◌-◌, ◌≡◌, ◌≤◌, ◌<◌, refl, true, false, List, [], ◌++◌, length, replicate, length-append,
  arith, decr, Bool-cases, inl, inr, ◌==◌, ◌∙◌, length-replicate, append-nil,
}
use so_assignment2_air_bridg.Data.{FullStat, n_pass, max_nf}
use so_assignment2_air_bridg.Semaphore.{SemOp, IsSemOp}
use so_assignment2_air_bridg.Shared.{Shared}
use so_assignment2_air_bridg.Hostess.{HostessPlace}
use so_assignment2_air_bridg.Main.{start}
use so_assignment2_air_bridg.System.{System, initial, Reach, begin, later}
use so_assignment2_air_bridg.Invariant.{Step-ideal, Reach-Inv}
use so_assignment2_air_bridg.Frame.{pilot_opened, hostess_filling}
use so_assignment2_air_bridg.Progress.{AllDone}
use so_assignment2_air_bridg.Result.{Complete, result-Complete}
use Records.{Rules-sum, Rules-sum_last}
use Operations.{Ledger}
use Boardings.{boardings, add_entry, add_entries}
use so_assignment2_air_bridg.Logging.{create_log}
use Steps.{Recorded, SystemRecorded, Step-Recorded, Inv-boarded}

-- New shared memory is filled with zeros (`shmget`): no flight has been made.
pub record IsFresh (f : FullStat) : Type 0 where
  pub no_flight : f.n_flight ≡ 0
  pub no_records : f.n_passengers_in_flight ≡ replicate max_nf 0

initial-Recorded : (f : FullStat) → IsFresh f → SystemRecorded (initial f)
unfolding start pilot_opened hostess_filling Rules sum boardings add_entry add_entries create_log
initial-Recorded f fresh = (
  [],
  record {
    written = fresh.no_records;
    number = fresh.no_flight;
    single = omega arith;
    closed = λ e. refl;
    loading = λ e. absurd (omega arith);
    unfinished = λ e. absurd (omega arith);
    rules = tt;
    logged = refl;
  },
)

Reach-Recorded :
    {k : SemOp} {f : FullStat} {s : System} → IsSemOp k → IsFresh f → Reach k f s → SystemRecorded s
Reach-Recorded {f} law fresh begin = initial-Recorded f fresh
Reach-Recorded law fresh (later r st) =
    let i = Reach-Inv law r in Step-Recorded (Step-ideal law st i) i (Reach-Recorded law fresh r)

-- The flights that have been opened: those that took off and at most one more.
Ledger-number :
    {fl : List ℕ} {o : ℕ} {s : Shared}
    → Ledger fl o s
    → s.f_st.total_pass_boarded ≤ n_pass
    → s.f_st.n_flight ≤ 5
Ledger-number {fl} {o} {s} l b = elim (Bool-cases (o + s.sems 5 == 1)) [
  | inl e ↦
      let now : o + s.sems 5 ≡ 1 = ground arith in
      let before : Rules false fl = rw (l.unfinished now) at l.rules in
      omega (arith, Rules-sum fl before, l.number, l.loading now)
  | inr e ↦
      let none_open : o + s.sems 5 ≡ 0 = ground (arith, l.single) in
      omega (arith, Rules-sum_last s.f_st.finished fl l.rules, l.number, l.closed none_open)
]

Ledger-length :
    {fl : List ℕ} {o : ℕ} {s : Shared}
    → Ledger fl o s
    → s.f_st.total_pass_boarded ≤ n_pass
    → length s.f_st.n_passengers_in_flight ≡ max_nf
Ledger-length {fl} {o} {s} l b =
    let few : s.f_st.n_flight ≤ 5 = Ledger-number l b in
    rw (l.written) (
      omega (
        arith,
        length-append fl (replicate (max_nf - length fl) 0),
        length-replicate {A = ℕ} (max_nf - length fl) 0,
        l.number,
      ))

-- If the shared memory is new and `semop` behaves as documented, at most five flights are made,
-- which the array of `MAXNF` flights can hold, and when the hostess records a flight, the index
-- `nFlight - 1` is inside the array.
pub flights_bounded :
    (k : SemOp) (f : FullStat) (s : System)
    → IsSemOp k
    → IsFresh f
    → Reach k f s
    → let g = s.shared.f_st in
      (g.n_flight ≤ 5)
      × (length g.n_passengers_in_flight ≡ max_nf)
      × (s.hostess ≡ HostessPlace.ready_body → decr g.n_flight < length g.n_passengers_in_flight)
unfolding hostess_filling
flights_bounded k f s law fresh r =
    let b : s.shared.f_st.total_pass_boarded ≤ n_pass = Inv-boarded (Reach-Inv law r) in
    let l : SystemRecorded s = Reach-Recorded law fresh r in
    let few : s.shared.f_st.n_flight ≤ 5 = Ledger-number (l.1) b in
    let len : length s.shared.f_st.n_passengers_in_flight ≡ max_nf = Ledger-length (l.1) b in
    (
      few,
      len,
      λ e.
          let open_flight : hostess_filling s.hostess ≡ 1 = rw e refl in
          let some_flight : 1 ≤ s.shared.f_st.n_flight = omega (arith, l.1.number) in
          rw len (omega arith),
    )

-- The flights `fl` are all that were made, and together they carried everybody.
pub record AllFlights (fl : List ℕ) (f : FullStat) : Type 0 where
  pub array : f.n_passengers_in_flight ≡ fl ++ replicate (max_nf - length fl) 0
  pub number : f.n_flight ≡ length fl
  pub everybody : sum fl ≡ n_pass
  pub rules : Rules true fl

-- If the shared memory is new, `semop` behaves as documented and all processes have ended,
-- `nFlight` counts the flights made, the array holds the number of passengers of each, these add up
-- to all passengers, every flight carried somebody and at most the maximal number, and all but the
-- last at least the minimal number.
pub flights_carry_all :
    (k : SemOp) (f : FullStat) (s : System)
    → IsSemOp k
    → IsFresh f
    → Reach k f s
    → AllDone s
    → (fl : List ℕ) × AllFlights fl s.shared.f_st
unfolding hostess_filling pilot_opened
flights_carry_all k f s law fresh r d =
    let c : Complete s.shared = result-Complete k f s law r d in
    let all : SystemRecorded s = Reach-Recorded law fresh r in
    let l : Recorded 0 s.shared = rw (d.children.pilot_done, d.children.hostess_done) at all in
    (
      l.0,
      record {
        array = l.1.written;
        number = omega (arith, l.1.number, c.boarding_used);
        everybody = l.1.closed (omega (arith, c.boarding_used)) ∙ c.all_boarded;
        rules = rw (c.flag) at l.1.rules;
      },
    )

-- Together the boardings in the log are all passengers.
pub sum-boardings :
    (k : SemOp) (f : FullStat) (s : System)
    → IsSemOp k
    → IsFresh f
    → Reach k f s
    → AllDone s
    → sum (boardings s.shared.log) ≡ n_pass
unfolding hostess_filling pilot_opened
sum-boardings k f s law fresh r d =
    let c : Complete s.shared = result-Complete k f s law r d in
    let all : SystemRecorded s = Reach-Recorded law fresh r in
    let l : Recorded 0 s.shared = rw (d.children.pilot_done, d.children.hostess_done) at all in
    let shown : boardings s.shared.log ≡ l.0 ++ [] = rw (c.boarding_used) at l.1.logged in
    rw (shown, append-nil) (l.1.closed (omega (arith, c.boarding_used)) ∙ c.all_boarded)

-- If the shared memory is new, `semop` behaves as documented and all processes have ended, the log has
-- as many boardings as `nFlight` says, and the array holds for each flight the number of passengers
-- that the log shows as checked in its boarding, and zeros behind.
pub boardings_match_array :
    (k : SemOp) (f : FullStat) (s : System)
    → IsSemOp k
    → IsFresh f
    → Reach k f s
    → AllDone s
    → let shown = boardings s.shared.log in
      (s.shared.f_st.n_flight ≡ length shown)
      × (s.shared.f_st.n_passengers_in_flight ≡ shown ++ replicate (max_nf - length shown) 0)
unfolding hostess_filling pilot_opened
boardings_match_array k f s law fresh r d =
    let c : Complete s.shared = result-Complete k f s law r d in
    let all : SystemRecorded s = Reach-Recorded law fresh r in
    let l : Recorded 0 s.shared = rw (d.children.pilot_done, d.children.hostess_done) at all in
    let shown : boardings s.shared.log ≡ l.0 ++ [] = rw (c.boarding_used) at l.1.logged in
    (
      rw (shown, append-nil) (omega (arith, l.1.number, c.boarding_used)),
      rw (shown, append-nil) (l.1.written),
    )
