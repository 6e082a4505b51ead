-- ===== src/Crown/Tape.antt =====
-- crown/tape.cpp: the text of a tape, and the ops that it stands for.
pub mod RoundTrip
pub mod Comments
use sygaldreye.Common.{
  ℕ, zero, suc, ◌+◌, List, [], ◌∷◌, ◌++◌, Bool, true, false, ◌&&◌, ◌==◌, eq_bytes, codes, length,
  if◌then◌else◌,
}
use sygaldreye.Common.Outcome.{Outcome, ok, throws, ◌>>=◌, bad_record}
use sygaldreye.Formats.Address.{split, stoi_char}
use sygaldreye.Crown.{Op, OpKind, instantiate, link, write_default, starts_with}

-- `%` starts an escape where two characters follow it, and stands for itself elsewhere.
unfoldable pub unesc : List ℕ → Outcome (List ℕ)
unesc [] = ok []
unesc (c ∷ []) = ok (c ∷ [])
unesc (c ∷ a ∷ []) = ok (c ∷ a ∷ [])
unesc (c ∷ a ∷ b ∷ cs) = elim (c == b'%') [
  | true ↦ (do d ← stoi_char (a ∷ b ∷ []); rest ← unesc cs; ok (d ∷ rest))
  | false ↦ (do rest ← unesc (a ∷ b ∷ cs); ok (c ∷ rest))
]

-- The loop over the fields of a line: empty ones are left out.
unfoldable pub unesc_fields : List (List ℕ) → Outcome (List (List ℕ))
unfolding unesc
unesc_fields [] = ok []
unesc_fields ([] ∷ fields) = unesc_fields fields
unesc_fields ((c ∷ cs) ∷ fields) = do
  field ← unesc (c ∷ cs)
  rest ← unesc_fields fields
  ok (field ∷ rest)

abbrev pub op_kind_of : List ℕ → List OpKind
op_kind_of name =
    if eq_bytes name (codes "NODE")
    then instantiate ∷ []
    else if eq_bytes name (codes "LINK")
    then link ∷ []
    else if eq_bytes name (codes "SET")
    then write_default ∷ []
    else []

abbrev pub ops_for : ℕ → List OpKind → List ℕ → List ℕ → Outcome (List Op)
ops_for lineno [] a b = throws (bad_record lineno)
ops_for lineno (kind ∷ _) a b = ok (record { what = kind; a = a; b = b } ∷ [])

-- The record of a line, none for an empty line or a comment.
unfoldable pub record_of : ℕ → List (List ℕ) → Outcome (List Op)
record_of lineno [] = ok []
record_of lineno (name ∷ fields) = if starts_with (codes "#") name then ok [] else elim fields [
  | a ∷ b ∷ [] ↦ ops_for lineno (op_kind_of name) a b
  | _ ↦ throws (bad_record lineno)
]

unfoldable pub read_lines : ℕ → List (List ℕ) → Outcome (List Op)
unfolding unesc_fields record_of split
read_lines lineno [] = ok []
read_lines lineno (line ∷ lines) = do
  fields ← unesc_fields (split b' ' line)
  ops ← record_of lineno fields
  rest ← read_lines (lineno + 1) lines
  ok (ops ++ rest)

unfoldable pub read_tape : List ℕ → Outcome (List Op)
unfolding split read_lines
read_tape text = read_lines 1 (split b'\n' text)
