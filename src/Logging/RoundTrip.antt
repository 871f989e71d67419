-- ===== src/Logging/RoundTrip.antt =====
-- The line that `saveState` prints, read back, and its width.
use so_assignment2_air_bridg.Base.{
  ℕ, suc, ◌+◌, ◌*◌, ◌^◌, ◌≡◌, ◌≤◌, ◌<◌, refl, List, [], ◌∷◌, ◌++◌, none, some, length, arith,
  get_elem?, take, length-append, sym, ◌∙◌, take_all,
}
use so_assignment2_air_bridg.Data.{FullStat, n_pass}
use so_assignment2_air_bridg.Format.{Bytes, codes, field, zero_field}
use so_assignment2_air_bridg.Format.Decimal.{length-int_text, length-field}
use so_assignment2_air_bridg.Logging.Lines.{state_line, print_header}
use so_assignment2_air_bridg.Logging.Reading.{
  read, ReadsTo, field-Column, blank-Column, passenger_columns-Column,
}

-- The array has a state for every passenger, and the numbers leave a blank before them.
pub record IsShort (f : FullStat) : Type 0 where
  pub size : length f.st.passenger_stat ≡ n_pass
  pub pilot : f.st.pilot_stat < 100
  pub hostess : f.st.hostess_stat < 100
  pub passengers : (j v : ℕ) → get_elem? f.st.passenger_stat j ≡ some v → v < 1000
  pub queue : f.n_pass_in_queue < 1000
  pub aboard : f.n_pass_in_flight < 1000
  pub boarded : f.total_pass_boarded < 1000

-- The numbers that a line of the log stands for.
pub state_numbers : FullStat → List ℕ
state_numbers f =
    f.st.pilot_stat
    ∷ f.st.hostess_stat
    ∷ (f.st.passenger_stat ++ (f.n_pass_in_queue ∷ f.n_pass_in_flight ∷ f.total_pass_boarded ∷ []))

-- What is said of the line of a state: it reads back, and it is as long as the header.
pub record IsLineOf (f : FullStat) (line : Bytes) : Type 0 where
  pub reads : read none line ≡ some (state_numbers f)
  pub aligned : length line ≡ length print_header

line_end : ReadsTo (codes "\n") []
unfolding read
line_end = record { begins = refl; reads = refl }

narrow-length : (w j v : ℕ) → suc j ≤ w → v < 10 ^ suc j → v < 2 ^ 31 → length (field w v) ≡ w
narrow-length w j v le h fits = length-field w v (omega (arith, length-int_text j v h fits))

header-length : length print_header ≡ 105
unfolding print_header zero_field
header-length = refl

length-append_bytes : (s t : Bytes) → length (s ++ t) ≡ length s + length t
length-append_bytes = length-append

-- for `omega`, on texts
ruleset lengths = (arith, length-append_bytes)

line-length :
    (f : FullStat) (cs : Bytes)
    → IsShort f
    → length cs ≡ 4 * n_pass
    → length (
        field 3 f.st.pilot_stat
        ++ (field 3 f.st.hostess_stat
            ++ (codes " "
                ++ (cs
                    ++ (codes " "
                        ++ (field 4 f.n_pass_in_queue
                            ++ (field 4 f.n_pass_in_flight
                                ++ (field 4 f.total_pass_boarded ++ codes "\n"))))))))
      ≡ 105
line-length f cs h len = omega (
  lengths,
  len,
  narrow-length 3 1 f.st.pilot_stat (omega arith) h.pilot (omega (arith, h.pilot)),
  narrow-length 3 1 f.st.hostess_stat (omega arith) h.hostess (omega (arith, h.hostess)),
  narrow-length 4 2 f.n_pass_in_queue (omega arith) h.queue (omega (arith, h.queue)),
  narrow-length 4 2 f.n_pass_in_flight (omega arith) h.aboard (omega (arith, h.aboard)),
  narrow-length 4 2 f.total_pass_boarded (omega arith) h.boarded (omega (arith, h.boarded)),
)

-- The line that `saveState` prints for a state whose numbers fit their columns reads back as that
-- state's numbers, and it is as long as the line of the column titles.
pub state_line_lem :
    (f : FullStat) → IsShort f → (line : Bytes) × (state_line f ≡ some line) × IsLineOf f line
unfolding state_line state_numbers
state_line_lem f h =
    let (cs, e, c, len) =
      passenger_columns-Column n_pass f.st.passenger_stat (omega (arith, h.size)) h.passengers in
    let all : take n_pass f.st.passenger_stat ≡ f.st.passenger_stat =
      take_all n_pass f.st.passenger_stat h.size in
    let counters = (field-Column 2 f.n_pass_in_queue h.queue (omega (arith, h.queue))).extends _ _ (
      (field-Column 2 f.n_pass_in_flight h.aboard (omega (arith, h.aboard))).extends _ _ (
        (field-Column 2 f.total_pass_boarded h.boarded (omega (arith, h.boarded))).extends _ _
          line_end)) in
    let whole = (field-Column 1 f.st.pilot_stat h.pilot (omega (arith, h.pilot))).extends _ _ (
      (field-Column 1 f.st.hostess_stat h.hostess (omega (arith, h.hostess))).extends _ _
        (blank-Column.extends _ _ (c.extends _ _ (blank-Column.extends _ _ counters)))) in
    (
      _,
      rw e refl,
      record {
        reads = rw all at whole.reads;
        aligned = line-length f cs h len ∙ sym header-length;
      },
    )
