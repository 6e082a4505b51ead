-- ===== src/Naming.antt =====
-- naming/environment/environment.cpp: what a name is resolved in.
pub mod Oracle
pub mod Resolver
pub mod Spans
pub mod Pieces
pub mod Folds
pub mod Located
pub mod Wrapped
pub mod Settled
pub mod Again
mod Runs
use sygaldreye.Common.{
  ℕ, zero, suc, ◌+◌, List, [], ◌∷◌, ◌++◌, Bool, true, false, ◌&&◌, Option, none, some, eq_bytes,
  codes, if◌then◌else◌,
}
use sygaldreye.Common.Outcome.{Outcome, ok, throws, ◌>>=◌, Run, run_then, no_such_object}
use sygaldreye.Common.Maps.{lookup, assign}
use sygaldreye.Formats.Pins.{multicodec_dag_cbor}
use sygaldreye.Formats.Base32.{cid_to_text}
use sygaldreye.Formats.Cid.{Hash, cid_of}
use sygaldreye.Formats.Cbor.Json.{Json, Fields, string, object, field, end}
use sygaldreye.Formats.Cbor.Encode.{encode}
use sygaldreye.Formats.Address.{Address, FirstStep, refname, cid, peerkey, parse_address}

pub record Environment : Type 0 where
  pub backing : List (List ℕ × Json)
  pub hot : List (List ℕ × Unit {0})
  pub refs : List (List ℕ × List ℕ)
  pub subs : List (List ℕ × List ℕ)
  pub io_count : ℕ

abbrev pub new_environment : Environment
new_environment = record { backing = []; hot = []; refs = []; subs = []; io_count = 0 }

-- `emplace`: an entry that is there stays as it is.
abbrev pub emplace : List ℕ → Json → Option Json → List (List ℕ × Json) → List (List ℕ × Json)
emplace k v none m = assign k v m
emplace k v (some w) m = m

abbrev pub keep_projection : List ℕ → Json → Environment → Environment
keep_projection text projection e = record e {
  backing = emplace text projection (lookup text e.backing) e.backing;
}

module _ (blake3 : Hash) where
  unfoldable pub commit : Json → Environment → Run Environment (List ℕ)
  commit projection e =
      run_then (encode projection, e)
        (λ bytes e.
          let text = cid_to_text (cid_of blake3 multicodec_dag_cbor bytes) in
          (ok text, keep_projection text projection e))

-- `if (hot_.insert(cid_text).second) ++io_count_;`
abbrev pub warmed : List ℕ → Option (Unit {0}) → Environment → Environment
warmed text (some u) e = e
warmed text none e = record e { hot = assign text tt e.hot; io_count = suc e.io_count }

abbrev pub found : List ℕ → Option Json → Environment → Run Environment Json
found text none e = (throws no_such_object, e)
found text (some v) e = (ok v, warmed text (lookup text e.hot) e)

unfoldable pub fetch : List ℕ → Environment → Run Environment Json
fetch text e = found text (lookup text e.backing) e

abbrev pub set_ref : List ℕ → List ℕ → Environment → Environment
set_ref name text e = record e { refs = assign name text e.refs }

abbrev pub ref : List ℕ → Environment → Option (List ℕ)
ref name e = lookup name e.refs

abbrev pub subscribe : List ℕ → List ℕ → Environment → Environment
subscribe id address_text e = record e { subs = e.subs ++ ((id, address_text) ∷ []) }

abbrev pub crosses : List ℕ → Address → Bool
crosses name a = elim a.kind [ refname ↦ eq_bytes a.head name | _ ↦ false ]

-- The object `{"to": id, "addr": text, "now": cid_text}`, by its keys' order.
abbrev pub event : List ℕ → List ℕ → List ℕ → Json
event id text now = object (
    field (codes "addr") (string text)
      (field (codes "now") (string now) (field (codes "to") (string id) end)))

unfoldable pub events_for : List ℕ → List ℕ → List (List ℕ × List ℕ) → Outcome (List Json)
unfolding parse_address
events_for name now [] = ok []
events_for name now ((id, text) ∷ subs) = do
  addr ← parse_address text
  events ← events_for name now subs
  ok (if crosses name addr then event id text now ∷ events else events)

-- A subscription whose text does not parse throws, when the name is bound already.
unfoldable pub move_ref : List ℕ → List ℕ → Environment → Run Environment (List Json)
unfolding events_for
move_ref name text e = (events_for name text e.subs, set_ref name text e)
