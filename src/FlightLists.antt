-- ===== src/FlightLists.antt =====
-- The passengers of each flight by name, as the log shows them: the entries of `savePassengerChecked` behind
-- each entry of `saveStartBoarding` (src/logging.c).
mod Collect
use mathlib.Core.List.{flatten, map, Perm, map-append}
pub use Collect.{upto, once-perm}
use so_assignment2_air_bridg.Base.{
  ℕ, suc, ◌+◌, ◌-◌, ◌≡◌, ◌≤◌, refl, ap, sym, ◌∙◌, arith, List, [], ◌∷◌, ◌++◌, length, length-append,
  append_assoc, append-nil, replicate,
}
use so_assignment2_air_bridg.Data.{FullStat, n_pass, max_nf}
use so_assignment2_air_bridg.Semaphore.{SemOp, IsSemOp}
use so_assignment2_air_bridg.Logging.{Entry, Log}
use so_assignment2_air_bridg.System.{System, Reach}
use so_assignment2_air_bridg.Progress.{AllDone}
use so_assignment2_air_bridg.Checked.{checked_ids, everybody_checked}
use so_assignment2_air_bridg.Flights.{
  IsFresh, boardings, add_entry, add_entries, bump, sum, sum-boardings, boardings_match_array,
}

-- One more name in the last list.
unfoldable add_name : ℕ → List (List ℕ) → List (List ℕ)
add_name i [] = []
add_name i (x ∷ []) = (x ++ (i ∷ [])) ∷ []
add_name i (x ∷ y ∷ xs) = x ∷ add_name i (y ∷ xs)

unfoldable add_names : List (List ℕ) → Log → List (List ℕ)
add_names gs [] = gs
add_names gs (Entry.start_boarding f ∷ es) = add_names (gs ++ ([] ∷ [])) es
add_names gs (Entry.passenger_checked f ∷ es) = add_names (add_name f.passenger_checked gs) es
add_names gs (_ ∷ es) = add_names gs es

-- For each boarding in the log, the passengers who were checked in it.
pub flight_lists : Log → List (List ℕ)
flight_lists l = add_names [] l

length-add_name : (i : ℕ) (gs : List (List ℕ)) → length (add_name i gs) ≡ length gs
unfolding add_name
length-add_name i [] = refl
length-add_name i (x ∷ []) = refl
length-add_name i (x ∷ y ∷ xs) = ap suc (length-add_name i (y ∷ xs))

lengths-add_name : (i : ℕ) (gs : List (List ℕ)) → map length (add_name i gs) ≡ bump (map length gs)
unfolding add_name bump
lengths-add_name i [] = refl
lengths-add_name i (x ∷ []) = ap (λ n. n ∷ []) (length-append x (i ∷ []))
lengths-add_name i (x ∷ y ∷ xs) = ap (λ l. length x ∷ l) (lengths-add_name i (y ∷ xs))

lengths-add_names :
    (gs : List (List ℕ)) (l : Log) → map length (add_names gs l) ≡ add_entries (map length gs) l
unfolding add_names add_entries add_entry
lengths-add_names gs [] = refl
lengths-add_names gs (Entry.start_boarding f ∷ es) =
    lengths-add_names (gs ++ ([] ∷ [])) es
    ∙ ap (λ x. add_entries x es) (map-append length gs ([] ∷ []))
lengths-add_names gs (Entry.passenger_checked f ∷ es) =
    lengths-add_names (add_name f.passenger_checked gs) es
    ∙ ap (λ x. add_entries x es) (lengths-add_name f.passenger_checked gs)
lengths-add_names gs (_ ∷ es) = lengths-add_names gs es

flatten-add_name :
    (i : ℕ) (gs : List (List ℕ)) → 1 ≤ length gs → flatten (add_name i gs) ≡ flatten gs ++ (i ∷ [])
unfolding add_name flatten
flatten-add_name i [] h = absurd (omega arith)
flatten-add_name i (x ∷ []) h =
    append-nil (x ++ (i ∷ [])) ∙ ap (λ l. l ++ (i ∷ [])) (sym (append-nil x))
flatten-add_name i (x ∷ y ∷ xs) h =
    ap (λ l. x ++ l) (flatten-add_name i (y ∷ xs) (omega arith))
    ∙ sym (append_assoc x (flatten (y ∷ xs)) (i ∷ []))

flatten-snoc : (gs : List (List ℕ)) → flatten (gs ++ ([] ∷ [])) ≡ flatten gs
unfolding flatten
flatten-snoc [] = refl
flatten-snoc (x ∷ gs) = ap (λ l. x ++ l) (flatten-snoc gs)

-- Behind a boarding, every check is listed.
flatten-add_names :
    (gs : List (List ℕ)) (l : Log)
    → 1 ≤ length gs
    → flatten (add_names gs l) ≡ flatten gs ++ checked_ids l
unfolding add_names checked_ids
flatten-add_names gs [] h = sym (append-nil (flatten gs))
flatten-add_names gs (Entry.start_boarding f ∷ es) h =
    flatten-add_names (gs ++ ([] ∷ [])) es (omega (arith, length-append gs ([] ∷ [])))
    ∙ ap (λ x. x ++ checked_ids es) (flatten-snoc gs)
flatten-add_names gs (Entry.passenger_checked f ∷ es) h =
    flatten-add_names (add_name f.passenger_checked gs) es
      (omega (arith, length-add_name f.passenger_checked gs))
    ∙ ap (λ x. x ++ checked_ids es) (flatten-add_name f.passenger_checked gs h)
    ∙ append_assoc (flatten gs) (f.passenger_checked ∷ []) (checked_ids es)
flatten-add_names gs (_ ∷ es) h = flatten-add_names gs es h

-- Only checks in front of the first boarding are in no list.
early_checks : (l : Log) → (early : List ℕ) × (checked_ids l ≡ early ++ flatten (add_names [] l))
unfolding add_names checked_ids flatten add_name
early_checks [] = ([], refl)
early_checks (Entry.start_boarding f ∷ es) =
    ([], sym (flatten-add_names ([] ∷ []) es (omega arith)))
early_checks (Entry.passenger_checked f ∷ es) =
    let (early, e) = early_checks es in
    (f.passenger_checked ∷ early, ap (λ l. f.passenger_checked ∷ l) e)
early_checks (_ ∷ es) = early_checks es

length-flatten : (gs : List (List ℕ)) → length (flatten gs) ≡ sum (map length gs)
unfolding flatten sum
length-flatten [] = refl
length-flatten (x ∷ gs) = omega (arith, length-append x (flatten gs), length-flatten gs)

-- A list with as many names as there are checks leaves none out.
complete_lists :
    (l : Log)
    → length (flatten (flight_lists l)) ≡ length (checked_ids l)
    → checked_ids l ≡ flatten (flight_lists l)
unfolding flight_lists
complete_lists l h =
    let (early, e) = early_checks l in
    let none : length early ≡ 0 =
      omega (arith, ap length e, length-append early (flatten (add_names [] l))) in
    let nothing : early ≡ [] = ground arith in rw nothing at e

lengths-flight_lists : (l : Log) → map length (flight_lists l) ≡ boardings l
unfolding flight_lists boardings
lengths-flight_lists l = lengths-add_names [] l

-- If the shared memory is new, `semop` behaves as documented and all processes have ended, the
-- passengers checked in the boardings of the log are all passengers, each in one flight and once, and
-- the array of flights holds the length of each flight's list, and zeros behind.
pub flights_partition :
    (k : SemOp) (f : FullStat) (s : System)
    → IsSemOp k
    → IsFresh f
    → Reach k f s
    → AllDone s
    → let lists = flight_lists s.shared.log in
      Perm (flatten lists) (upto n_pass)
      × (s.shared.f_st.n_passengers_in_flight
          ≡ map length lists ++ replicate (max_nf - length (map length lists)) 0)
flights_partition k f s law fresh r d =
    let l = s.shared.log in
    let shown : map length (flight_lists l) ≡ boardings l = lengths-flight_lists l in
    let checks : length (checked_ids l) ≡ n_pass =
      (everybody_checked k f s law r d 0 (omega arith)).0 in
    let all : length (flatten (flight_lists l)) ≡ n_pass =
      length-flatten (flight_lists l) ∙ ap sum shown ∙ sum-boardings k f s law fresh r d in
    let listed : checked_ids l ≡ flatten (flight_lists l) = complete_lists l (all ∙ sym checks) in
    (
      once-perm n_pass (flatten (flight_lists l)) all
          (λ j lt. rw (sym listed) ((everybody_checked k f s law r d j lt).1)),
      rw shown ((boardings_match_array k f s law fresh r d).1),
    )
