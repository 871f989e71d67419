-- ===== src/Generator/Buffers.antt =====
-- The arrays of characters of `main` in src/probSemSharedMemAirLift.c: `nFicErr`, into which the names
-- of the error files are written in place.
use so_assignment2_air_bridg.Base.{
  ℕ, zero, suc, ◌+◌, [], ◌∷◌, ◌++◌, length, take, leb, ◌==◌, if◌then◌else◌,
}
use so_assignment2_air_bridg.Format.{Bytes, codes}
use so_assignment2_air_bridg.Attempt.{Attempt, ok, fail, undefined}

-- The elements from an index on.
abbrev pub drop : ℕ → Bytes → Bytes
drop zero s = s
drop (suc n) [] = []
drop (suc n) (c ∷ s) = drop n s

-- `strcpy (buffer + i, text)`, and `sprintf` of that text, with the final 0.
unfoldable pub write_text : ℕ → Bytes → Bytes → Attempt Bytes
write_text i text buffer =
    if leb (i + length text + 1) (length buffer)
    then ok (take i buffer ++ (text ++ 0 ∷ drop (i + length text + 1) buffer))
    else fail undefined

-- The text in an array, up to its first 0.
unfoldable pub c_string : Bytes → Bytes
c_string [] = []
c_string (c ∷ s) = let rest = c_string s in if c == 0 then [] else c ∷ rest

-- `nFicErr` as it is initialised, with its final 0
abbrev pub error_buffer : Bytes
error_buffer = codes "error_        " ++ (0 ∷ [])
