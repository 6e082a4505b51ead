-- ===== src/Naming/Runs.antt =====
-- Names at concrete inputs.
use sygaldreye.Common.{◌^◌, ◌-◌, ℕ, ◌≡◌, refl, List, [], ◌∷◌, true, false, take, drop, arith, codes}
use Prim.Native.String.{String}
use sygaldreye.Common.Outcome.{ok, throws, out_of_range}
use sygaldreye.Common.Maps.{lookup, assign}
use sygaldreye.Formats.Sample.{checksum}
use sygaldreye.Formats.Cbor.Json.{
  Json, string, object, array, field, end, link_object, nil, cons, slash,
}
use sygaldreye.Formats.Address.{Address, refname, parse_address, print_address, print_route, escape}
use sygaldreye.Formats.Address.RoundTrip.{LooksLikeCid}
use sygaldreye.Naming.{Environment, new_environment, fetch, move_ref, subscribe}
use sygaldreye.Naming.Resolver.{
  at, subscript, link_cid, follow, enter, enter_nodes, enter_member, enter_port, descend,
  Resolution, root_of, resolve_from, resolve,
}
use sygaldreye.Naming.Settled.{Extends-refl}
use sygaldreye.Naming.Spans.{
  Span, Located, fits, span_in, span_at, substr, text_in, span_text, walk, walk_links,
}
use sygaldreye.Naming.Located.{joined, span_text-span_at, span_text-ok}
use sygaldreye.Naming.Wrapped.{span_text-wraps}
use sygaldreye.Naming.Again.{Later, now, subscribed, moved, resolve-again}

-- A graph with one node, whose port is answered by the declaration of its type.
abbrev graph : Json
graph = object (
    field (codes "kind") (string (codes "graph")) (
      field (codes "lock") (object (link_object (codes "bafylock0")))
        (field (codes "topology") (object (link_object (codes "bafytopology0"))) end)))

abbrev topology : Json
topology = object (
    field (codes "nodes")
      (object (field (codes "osc") (object (field (codes "type") (string (codes "sine")) end)) end))
      end)

abbrev lock : Json
lock = object (field (codes "sine") (object (link_object (codes "bafysine0"))) end)

abbrev sine : Json
sine =
    object (field (codes "ports") (object (field (codes "out") (string (codes "audio")) end)) end)

abbrev song : Environment
song = record {
  backing =
      (codes "bafygraph0", graph)
      ∷ (codes "bafytopology0", topology)
      ∷ (codes "bafylock0", lock)
      ∷ (codes "bafysine0", sine)
      ∷ [];
  hot = [];
  refs = (codes "song", codes "bafygraph0") ∷ [];
  subs = [];
  io_count = 0;
}

abbrev port_route : List (List ℕ)
port_route = codes "nodes" ∷ codes "osc" ∷ codes "out" ∷ []

abbrev song_port : Address
song_port = record { kind = refname; head = codes "song"; route = port_route }

abbrev song_resolution : Resolution
song_resolution = record {
  live = true;
  normalized = codes "bafygraph0/nodes/osc/out";
  value = string (codes "audio");
}

abbrev song_after : Environment
song_after = record song {
  hot =
      (codes "bafygraph0", tt)
      ∷ (codes "bafytopology0", tt)
      ∷ (codes "bafylock0", tt)
      ∷ (codes "bafysine0", tt)
      ∷ [];
  io_count = 4;
}

song_resolves : resolve song_port song ≡ (ok song_resolution, song_after)
unfolding resolve resolve_from descend enter enter_nodes enter_member enter_port follow fetch at
    link_cid subscript lookup assign print_address print_route escape
song_resolves = refl

-- The name is bound to something else, with a subscription on the way.
abbrev song_later : Environment
song_later =
    (move_ref (codes "song") (codes "bafyother0")
      (subscribe (codes "view") (codes "song:nodes") song_after)).1

song_Later : Later checksum song_after song_later
unfolding move_ref
song_Later =
    moved (codes "song") (codes "bafyother0") (subscribed (codes "view") (codes "song:nodes") now)

song_root : root_of song_port song ≡ ok (codes "bafygraph0", true)
unfolding lookup
song_root = refl

graph-LooksLikeCid : LooksLikeCid (codes "bafygraph0")
unfolding escape
graph-LooksLikeCid = (omega arith, refl)

resolve-again_example :
    (b : Address) × (parse_address song_resolution.normalized ≡ ok b)
    × (resolve b song_later ≡ (ok (record song_resolution { live = false }), song_later))
resolve-again_example =
    resolve-again checksum song_port song song_after song_later song_resolution
      (codes "bafygraph0", true) song_root
      ((omega arith, (omega arith, (omega arith, tt))), graph-LooksLikeCid) song_resolves song_Later

-- Two versions of a text that share a piece, which the second has at another place.
abbrev link_to : String → Json
link_to s = object (link_object (codes s))

abbrev first_version : Json
first_version =
    object (field (codes "pieces") (array (cons (link_to "bone") (cons (link_to "btwo") nil))) end)

abbrev second_version : Json
second_version =
    object (field (codes "pieces") (array (cons (link_to "blong") (cons (link_to "btwo") nil))) end)

abbrev texts : Environment
texts = record new_environment {
  backing =
      (codes "bone", string (codes "let "))
      ∷ (codes "btwo", string (codes "freq = 440"))
      ∷ (codes "blong", string (codes "set the "))
      ∷ [];
}

abbrev freq : Span
freq = record { piece_cid = codes "btwo"; start = 0; len = 4 }

abbrev texts_after : Environment
texts_after = record texts { hot = (codes "bone", tt) ∷ (codes "btwo", tt) ∷ []; io_count = 2 }

abbrev texts_last : Environment
texts_last = record texts_after {
  hot = (codes "bone", tt) ∷ (codes "btwo", tt) ∷ (codes "blong", tt) ∷ [];
  io_count = 3;
}

freq_taken : span_at first_version 4 4 texts ≡ (ok freq, texts_after)
unfolding span_at span_in fits walk walk_links at fetch lookup assign
freq_taken = refl

freq_located :
    span_text second_version freq texts_after
    ≡ (ok (record { text = codes "freq"; position = 8 }), texts_last)
unfolding span_text text_in substr walk walk_links at fetch lookup assign
freq_located = refl

span_text-span_at_example :
    (text_a text_b : List ℕ) × (walk joined first_version [] texts_after ≡ (ok text_a, texts_after))
    × (walk joined second_version [] texts_last ≡ (ok text_b, texts_last))
    × (codes "freq" ≡ take 4 (drop 4 text_a))
    × (codes "freq" ≡ take 4 (drop 8 text_b))
span_text-span_at_example =
    span_text-span_at first_version second_version 4 4 texts texts_after texts_after texts_last freq
      (record { text = codes "freq"; position = 8 }) (omega arith) freq_taken
      (Extends-refl texts_after) freq_located

span_text-ok_example :
    (l : Located) × (span_text first_version freq texts_after ≡ (ok l, texts_after))
span_text-ok_example =
    span_text-ok first_version 4 4 texts texts_after texts_after freq (omega arith) freq_taken
      (Extends-refl texts_after)

abbrev one_piece : Json
one_piece = object (field (codes "pieces") (array (cons (link_to "bone") nil)) end)

abbrev one_fetched : Environment
one_fetched = record texts { hot = (codes "bone", tt) ∷ []; io_count = 1 }

one_fetches : fetch (codes "bone") texts ≡ (ok (string (codes "let ")), one_fetched)
unfolding fetch lookup assign
one_fetches = refl

one_piece-at : at (codes "pieces") one_piece ≡ ok (array (cons (link_to "bone") nil))
unfolding at
one_piece-at = refl

bone-at : at slash (link_to "bone") ≡ ok (string (codes "bone"))
unfolding at
bone-at = refl

-- The position is the last of 64 bits.
abbrev wrapping : Span
wrapping = record { piece_cid = codes "bone"; start = 2 ^ 64 - 1; len = 2 }

span_text-wraps_example :
    (span_at one_piece (2 ^ 64 - 1) 2 texts ≡ (ok wrapping, one_fetched))
    × (span_text one_piece wrapping one_fetched ≡ (throws out_of_range, one_fetched))
span_text-wraps_example =
    span_text-wraps (2 ^ 64 - 1) 2 (codes "let ") (omega arith) (omega arith) (omega arith)
      (omega arith) one_piece (link_to "bone") (codes "bone") texts one_fetched one_piece-at bone-at
      one_fetches
