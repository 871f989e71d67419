-- ===== src/Logging/Files.antt =====
-- `openLog` and `closeLog` of src/logging.c, and where a saving function writes. The results of `fopen` and
-- `fclose` are parameters; `fopen` empties a file that it opens with "w" and keeps it with "a".
use so_assignment2_air_bridg.Base.{
  ℕ, ◌≡◌, refl, sym, Bool, true, [], ◌∷◌, ◌++◌, Option, none, some, length, ◌==◌, if◌then◌else◌,
  append_assoc, append-nil, arith, Option-cases, inl, inr,
}
use so_assignment2_air_bridg.Format.{Bytes}
use so_assignment2_air_bridg.Logging.{Entry, Log}
use so_assignment2_air_bridg.Logging.Lines.{entry_text, log_text}

-- `fic`: the standard output, or a file that is open.
pub data Stream : Type 0 where
  stdout file : Stream

-- What has been written to the standard output, and the file of the name, if it exists.
pub record Disk : Type 0 where
  pub out : Bytes
  pub content : Option Bytes

pub data Mode : Type 0 where
  write append : Mode

-- How a saving function ends: it returns, or it ends the program.
pub data Saved : Type 0 where
  saved : Disk → Saved
  no_open no_close : Disk → Saved

-- The text in the file of the name.
abbrev pub text_of : Option Bytes → Bytes
text_of none = []
text_of (some s) = s

-- `fopen` in a mode, where it succeeds
abbrev pub opened : Mode → Disk → Disk
opened Mode.write d = record d { content = some [] }
opened Mode.append d = record d { content = some (text_of d.content) }

-- `openLog`
unfoldable pub open_log : Bool → Bytes → Mode → Disk → Option (Stream × Disk)
open_log opens n_fic mode d =
    if length n_fic == 0
    then some (Stream.stdout, d)
    else if opens
    then some (Stream.file, opened mode d)
    else none

-- `fprintf` and `fputs` on a stream
abbrev pub print : Stream → Bytes → Disk → Disk
print Stream.stdout s d = record d { out = d.out ++ s }
print Stream.file s d = record d { content = some (text_of d.content ++ s) }

-- `closeLog`
unfoldable pub close_log : Bool → Stream → Disk → Saved
close_log closes Stream.stdout d = saved d
close_log closes Stream.file d = if closes then saved d else no_close d

-- The mode in which the saving function opens the file
abbrev pub entry_mode : Entry → Mode
entry_mode Entry.created = Mode.write
entry_mode _ = Mode.append

-- A saving function, with the results of `fopen` and `fclose`; nothing if its text is not defined.
unfoldable pub save_entry : Bool → Bool → Bytes → Entry → Disk → Option Saved
save_entry opens closes n_fic e d = elim (open_log opens n_fic (entry_mode e) d) [
  | none ↦ some (no_open d)
  | some (fic, d_open) ↦ elim (entry_text e) [
    | none ↦ none
    | some s ↦ some (close_log closes fic (print fic s d_open))
  ]
]

-- One saving function after the other, until one ends its program.
unfoldable pub save_log : Bool → Bool → Bytes → Log → Disk → Option Saved
save_log opens closes n_fic [] d = some (saved d)
save_log opens closes n_fic (e ∷ es) d = elim (save_entry opens closes n_fic e d) [
  | some (saved d_new) ↦ save_log opens closes n_fic es d_new
  | r ↦ r
]

-- The entries that are appended.
unfoldable pub AllAppended : Log → Type 0
AllAppended [] = Unit
AllAppended (e ∷ es) = (entry_mode e ≡ Mode.append) × AllAppended es

-- The first line of a text that is defined, and the others.
record Printed (e : Entry) (es : Log) (text : Bytes) : Type 0 where
  line : Bytes
  rest : Bytes
  first : entry_text e ≡ some line
  others : log_text es ≡ some rest
  together : text ≡ line ++ rest

log_text-Printed :
    (e : Entry) (es : Log) (text : Bytes) → log_text (e ∷ es) ≡ some text → Printed e es text
unfolding log_text
log_text-Printed e es text h = elim (Option-cases (entry_text e)) [
  | inl missing ↦ absurd (ground (arith, missing))
  | inr (line, first) ↦ elim (Option-cases (log_text es)) [
    | inl missing ↦ absurd (ground (arith, first, missing))
    | inr (rest, others) ↦ record {
      line = line;
      rest = rest;
      first = first;
      others = others;
      together = ground (arith, first, others);
    }
  ]
]

abbrev pub kept : Bytes → Bytes → Disk
kept out s = record { out = out; content = some s }

save_entry_file :
    (c : ℕ) (name : Bytes) (e : Entry) (out s line : Bytes)
    → entry_mode e ≡ Mode.append
    → entry_text e ≡ some line
    → save_entry true true (c ∷ name) e (kept out s) ≡ some (saved (kept out (s ++ line)))
unfolding save_entry open_log close_log
save_entry_file c name e out s line mode first = ground (arith, mode, first)

save_entry_out :
    (opens closes : Bool) (e : Entry) (d : Disk) (line : Bytes)
    → entry_text e ≡ some line
    → save_entry opens closes [] e d ≡ some (saved (record d { out = d.out ++ line }))
unfolding save_entry open_log close_log
save_entry_out opens closes e d line first = rw (first, save_entry) refl

-- With a name, each text is put at the end of the file.
save_log_file :
    (c : ℕ) (name : Bytes) (es : Log) (out s text : Bytes)
    → AllAppended es
    → log_text es ≡ some text
    → save_log true true (c ∷ name) es (kept out s) ≡ some (saved (kept out (s ++ text)))
unfolding save_log log_text AllAppended
save_log_file c name [] out s text a h =
    let e : text ≡ [] = ground arith in rw (e, append-nil s) refl
save_log_file c name (e ∷ es) out s text a h =
    let p = log_text-Printed e es text h in
    let (mode, more) = a in
    rw
      (
        p.together,
        sym (append_assoc s p.line p.rest),
        save_entry_file c name e out s p.line mode p.first,
        save_log,
      )
      (save_log_file c name es out (s ++ p.line) p.rest more p.others)

-- Without one, it goes to the standard output.
pub save_log_out :
    (opens closes : Bool) (es : Log) (d : Disk) (text : Bytes)
    → log_text es ≡ some text
    → save_log opens closes [] es d ≡ some (saved (record d { out = d.out ++ text }))
unfolding save_log log_text
save_log_out opens closes [] d text h =
    let e : text ≡ [] = ground arith in rw (e, append-nil d.out) refl
save_log_out opens closes (e ∷ es) d text h =
    let p = log_text-Printed e es text h in
    rw
      (
        p.together,
        sym (append_assoc d.out p.line p.rest),
        save_entry_out opens closes e d p.line p.first,
        save_log,
      )
      (save_log_out opens closes es (record d { out = d.out ++ p.line }) p.rest p.others)

-- The log of a simulation: the first entry empties the file, and the others are appended.
unfoldable pub IsLog : Log → Type 0
IsLog [] = ⊥
IsLog (e ∷ es) = (entry_mode e ≡ Mode.write) × AllAppended es

-- With a name, the file then holds the text of the log, whatever it held before.
pub save_log_named :
    (c : ℕ) (name : Bytes) (l : Log) (d : Disk) (text : Bytes)
    → IsLog l
    → log_text l ≡ some text
    → save_log true true (c ∷ name) l d ≡ some (saved (kept d.out text))
unfolding IsLog save_log
save_log_named c name [] d text h e = absurd h
save_log_named c name (x ∷ es) d text h e =
    let (mode, more) = h in
    let p = log_text-Printed x es text e in
    let emptied : save_entry true true (c ∷ name) x d ≡ some (saved (kept d.out p.line)) =
      unfold save_entry open_log close_log in ground (arith, mode, p.first) in
    rw (p.together, emptied, save_log) (save_log_file c name es d.out p.line p.rest more p.others)

append-AllAppended :
    (l : Log) (e : Entry) → AllAppended l → entry_mode e ≡ Mode.append → AllAppended (l ++ (e ∷ []))
unfolding AllAppended
append-AllAppended [] e h k = (k, tt)
append-AllAppended (x ∷ l) e h k = (h.0, append-AllAppended l e (h.1) k)

pub append-IsLog :
    (l : Log) (e : Entry) → entry_mode e ≡ Mode.append → IsLog l → IsLog (l ++ (e ∷ []))
unfolding IsLog
append-IsLog [] e k h = absurd h
append-IsLog (x ∷ l) e k h = (h.0, append-AllAppended l e (h.1) k)
