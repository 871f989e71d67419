-- ===== src/Lib.antt =====
-- Air lift: the simulation of src/, in which one plane carries 21 passengers to their
-- destination.
--
-- Four programs share a record (`FULL_STAT` in src/probDataStruct.h) and eight semaphores
-- (src/sharedDataSync.h): the generator `main` (src/probSemSharedMemAirLift.c), the pilot
-- (src/semSharedMemPilot.c), the hostess (src/semSharedMemHostess.c) and 21 passengers
-- (src/semSharedMemPassenger.c). Every change of the record is logged (src/logging.c).
--
-- Data: the constants and the records. Semaphore: `semConnect`, `semSignal`, `semDown`, `semUp`
-- of src/semaphore.c over a parameter for the system call `semop`; its documented behaviour is
-- the record `IsSemOp`, and Semaphore.Ideal has a function that behaves so. Logging: the log as a
-- list of entries. Shared: what the processes share, and the outcomes of the two ways in which
-- the code calls a semaphore (with a test for failure, and without). Pilot, Hostess, Passenger,
-- Main: each program as a set of places and a function from a place to the next one; `flight`,
-- `waitForNextFlight` and so on are the functions of the same names, and a step is one call of a
-- semaphore or the statements between two of them, in a critical section as a rule. System: all
-- processes together, under any scheduler. That the statements of a section are one step is the
-- work of the mutex, so long as calls of `semop` that succeed have the documented effect
-- (Faults.Exclusion); for any other `semop` the steps are still whole.
--
-- Invariant: how the counters, the semaphores and the places hang together. Progress and
-- Termination: whether the simulation can stop early or run for ever. Safety, Sealed, Result:
-- what holds on the way and at the end. Refinement: the air lift seen from outside, as a step
-- relation of its own. Frame and Flights: what a step leaves alone, the array that records how
-- many passengers each flight carried, and the boardings that the log shows. States: the state
-- field of each process. LastEntry: the states saved in the log. Checked: the passengers whose
-- check is in the log. FlightLists: the same by flight. LastFlight: the passengers on the present
-- flight. LogOrder: the entries of the log, one after the other. ResultLast: when the result is
-- written. Counters: the `++` and `--`. Locked: which steps write, and who holds the mutex then.
-- States.Transitions: the order of the values of the state fields. Faults: calls that may fail at
-- any time. Faults.Saving: saving functions that end their program. Schedule and Tests: runs by
-- evaluation. Base: shared names and lemmas.
--
-- Format: what the code uses of `printf` and `strtol`. Logging.Lines: the text of each entry.
-- Logging.Reading and Logging.RoundTrip: a reader for the lines of states. Printing: the text of
-- the logs of the simulation. Logging.Files: `openLog` and `closeLog`, and the file or the
-- standard output to which the entries go; Filing: what the simulation leaves there.
--
-- Attempt: results that carry a failure. Ipc: src/semaphore.c and src/sharedMemory.c over
-- parameters for `semget`, `semop`, `semctl`, `shmget`, `shmat`, `shmdt` and `shmctl`, of which
-- nothing is assumed. Startup: how the pilot, the hostess and a passenger read their command
-- lines, connect and end; Startup.Handover: the children as `main` makes them. Generator: what
-- `main` of src/probSemSharedMemAirLift.c makes before its loop of `wait` and removes after it,
-- with parameters for `ftok`, `fork` and the opening and closing of the log, in parts
-- (Generator.Parts and Generator.Plan), up to its end or to a call that fails
-- (Generator.Partial), with what its calls must return for it to succeed (Generator.Working and
-- Generator.Sufficient); Main has what comes between.
--
-- An `int` and an `unsigned int` are native numbers, the patterns of 32 bits, with the
-- wrap-around written out at every `++` and `--`. A step makes no loop. The only fuel is the ten
-- digits of a printed number, which are enough for 32 bits. The bound on the steps of a run is a
-- measure of the initial state: a round of the hostess for every passenger, a flight of the pilot
-- for every passenger, and the steps of every process.
--
-- Not modelled: the delays (`usleep`; the scheduler may delay any step), `freopen` of the error
-- output and the messages of `perror`, an `execl` that fails in a child (it ends like a child
-- that cannot connect), the text that is written before a file fails, and what a write through a
-- pointer that is not set or null, or outside of an array, does (C leaves it undefined; such a
-- call has the result `undefined`, or no text). The shell and awk scripts, the build rules and
-- the prebuilt binaries are not modelled either.
pub mod Base
pub mod Data
pub mod Format
pub mod Semaphore
pub mod Logging
pub mod Attempt
pub mod Ipc
pub mod Startup
pub mod Generator
pub mod Shared
pub mod Pilot
pub mod Hostess
pub mod Passenger
pub mod Main
pub mod System
pub mod Invariant
pub mod Progress
pub mod Termination
pub mod Safety
pub mod Frame
pub mod Sealed
pub mod Flights
pub mod Result
pub mod States
pub mod LastEntry
pub mod Checked
pub mod Printing
pub mod Filing
pub mod ResultLast
pub mod FlightLists
pub mod LastFlight
pub mod LogOrder
pub mod Counters
pub mod Locked
pub mod Faults
pub mod Refinement
pub mod Schedule
pub mod Tests
