-- ===== src/Naming/Oracle.antt =====
-- naming/oracle/oracle.cpp: which connections are legal, and by what mapping.
use sygaldreye.Common.{
  ℕ, suc, List, [], Bool, true, false, not, ◌&&◌, ◌||◌, eq_bytes, codes, if◌then◌else◌,
}

pub record Promise : Type 0 where
  pub kind : List ℕ
  pub discipline : List ℕ

pub record Verdict : Type 0 where
  pub legal : Bool
  pub mapping : List ℕ

unfoldable pub clocked : List ℕ → Bool
clocked d = not (eq_bytes d (codes "event")) && not (eq_bytes d (codes "value"))

abbrev pub illegal : Verdict
illegal = record { legal = false; mapping = [] }

abbrev pub legal_by : List ℕ → Verdict
legal_by mapping = record { legal = true; mapping = mapping }

abbrev pub is_span : List ℕ → Bool
is_span kind = eq_bytes kind (codes "span")

-- Which kinds are structured is in a table that the build generates.
module _ (structured_kind : List ℕ → Bool) where
  unfoldable pub judged : Promise → Promise → Verdict
  judged from to =
      if (structured_kind from.kind || structured_kind to.kind)
        && (clocked from.discipline || clocked to.discipline)
      then illegal
      else if not (eq_bytes from.kind to.kind) && (not (is_span from.kind) && not (is_span to.kind))
      then illegal
      else if eq_bytes from.discipline to.discipline
      then legal_by []
      else if eq_bytes from.discipline (codes "event") || eq_bytes to.discipline (codes "event")
      then illegal
      else if clocked to.discipline
      then legal_by (codes "latch")
      else if eq_bytes to.discipline (codes "value")
      then legal_by (codes "snapshot")
      else illegal

  -- With the count of lookups.
  abbrev pub connection_legal : Promise → Promise → ℕ → Verdict × ℕ
  connection_legal from to lookups = (judged from to, suc lookups)
