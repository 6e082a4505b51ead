-- ===== src/Formats/Address.antt =====
-- formats/address/address.cpp: the text spellings of an address. A std::string is its bytes.
pub mod Escape
pub mod RoundTrip
use sygaldreye.Common.{
  ℕ, zero, suc, ◌+◌, ◌-◌, ◌*◌, ◌%◌, List, [], ◌∷◌, ◌++◌, Option, none, some, Bool, true, false, not,
  ◌&&◌, ◌||◌, ltb, leb, ◌==◌, if◌then◌else◌, length, take, drop, get_or, bit_and, codes,
}
use sygaldreye.Common.Bits.{shr}
use sygaldreye.Common.Outcome.{Outcome, ok, throws, ◌>>=◌, truncated_escape, bad_hex}
use sygaldreye.Formats.Packing.{index_from}
use sygaldreye.Formats.Pins.{escape_set}

pub data FirstStep : Type 0 where
  refname cid peerkey : FirstStep

pub record Address : Type 0 where
  pub kind : FirstStep
  pub head : List ℕ
  pub route : List (List ℕ)

-- A piece of `split` begins with one more character.
abbrev pub push_first : ℕ → List (List ℕ) → List (List ℕ)
push_first c [] = (c ∷ []) ∷ []
push_first c (seg ∷ segs) = (c ∷ seg) ∷ segs

unfoldable pub split : ℕ → List ℕ → List (List ℕ)
split sep [] = [] ∷ []
split sep (c ∷ cs) = let rest = split sep cs in if c == sep then [] ∷ rest else push_first c rest

-- std::stoi(…, 16), taken to a char: white space, a sign, 0x, then digits up to the first other
-- character. It throws where there is no digit.
abbrev pub is_space : ℕ → Bool
is_space c = c == 32 || (leb 9 c && leb c 13)

abbrev pub hex_value : ℕ → Option ℕ
hex_value c =
    if leb b'0' c && leb c b'9'
    then some (c - b'0')
    else if leb b'a' c && leb c b'f'
    then some (c - b'a' + 10)
    else if leb b'A' c && leb c b'F'
    then some (c - b'A' + 10)
    else none

abbrev pub skip_space : List ℕ → List ℕ
skip_space [] = []
skip_space (c ∷ cs) = let rest = skip_space cs in if is_space c then rest else c ∷ cs

abbrev pub hex_digits_from : ℕ → List ℕ → ℕ
hex_digits_from n [] = n
hex_digits_from n (c ∷ cs) = elim (hex_value c) [
  | none ↦ n
  | some d ↦ hex_digits_from (n * 16 + d) cs
]

abbrev pub hex_number : List ℕ → Outcome ℕ
hex_number [] = throws bad_hex
hex_number (c ∷ cs) = elim (hex_value c) [
  | none ↦ throws bad_hex
  | some d ↦ ok (hex_digits_from d cs)
]

abbrev pub skip_prefix : List ℕ → List ℕ
skip_prefix (z ∷ x ∷ d ∷ cs) = elim (hex_value d) [
  | none ↦ z ∷ x ∷ d ∷ cs
  | some _ ↦ if z == b'0' && (x == b'x' || x == b'X') then d ∷ cs else z ∷ x ∷ d ∷ cs
]
skip_prefix cs = cs

abbrev pub signed_number : List ℕ → Outcome ℕ
signed_number [] = throws bad_hex
signed_number (c ∷ cs) =
    if c == b'-'
    then (do n ← hex_number (skip_prefix cs); ok ((256 - n % 256) % 256))
    else if c == b'+'
    then (do n ← hex_number (skip_prefix cs); ok (n % 256))
    else (do n ← hex_number (skip_prefix (c ∷ cs)); ok (n % 256))

unfoldable pub stoi_char : List ℕ → Outcome ℕ
stoi_char text = signed_number (skip_space text)

unfoldable pub unescape : List ℕ → Outcome (List ℕ)
unescape [] = ok []
unescape (c ∷ []) = if c == b'%' then throws truncated_escape else ok (c ∷ [])
unescape (c ∷ a ∷ []) =
    if c == b'%'
    then throws truncated_escape
    else if a == b'%'
    then throws truncated_escape
    else ok (c ∷ a ∷ [])
unescape (c ∷ a ∷ b ∷ cs) = elim (c == b'%') [
  | true ↦ do x ← stoi_char (a ∷ b ∷ []); rest ← unescape cs; ok (x ∷ rest)
  | false ↦ do rest ← unescape (a ∷ b ∷ cs); ok (c ∷ rest)
]

unfoldable pub steps_of : List (List ℕ) → Bool → Outcome (List (List ℕ))
steps_of [] drop_empty = ok []
steps_of (s ∷ segs) drop_empty =
    let rest = steps_of segs drop_empty in
    if not drop_empty || not (length s == 0)
    then (do x ← unescape s; xs ← rest; ok (x ∷ xs))
    else rest

abbrev pub hex_chars : List ℕ
hex_chars = codes "0123456789ABCDEF"

abbrev pub is_escaped : ℕ → Bool
is_escaped c = elim (index_from 0 escape_set c) [ none ↦ false | some _ ↦ true ]

unfoldable pub escape_char : ℕ → List ℕ
unfolding index_from
escape_char c =
    if is_escaped c
    then b'%' ∷ get_or hex_chars (bit_and (shr c 4) 0xf) 0 ∷ get_or hex_chars (bit_and c 0xf) 0 ∷ []
    else c ∷ []

unfoldable pub escape : List ℕ → List ℕ
unfolding escape_char
escape [] = []
escape (c ∷ cs) = escape_char c ++ escape cs

-- `route += (route.empty() ? "" : "/") + escape(s)`, for each step.
unfoldable pub print_route : List ℕ → List (List ℕ) → List ℕ
print_route route [] = route
print_route route (s ∷ steps) =
    print_route (route ++ (if length route == 0 then escape s else b'/' ∷ escape s)) steps

abbrev pub attach : ℕ → List ℕ → List ℕ
attach sep route = if length route == 0 then [] else sep ∷ route

abbrev pub print_first : FirstStep → List ℕ → List ℕ → List ℕ
print_first peerkey head route = b'#' ∷ (escape head ++ attach b'/' route)
print_first refname head route = escape head ++ attach b':' route
print_first cid head route = escape head ++ attach b'/' route

unfoldable pub print_address : Address → List ℕ
print_address a = print_first a.kind a.head (print_route [] a.route)

-- The head and the route of a split text; `split` has always a first piece.
unfoldable pub address_of : FirstStep → List (List ℕ) → Outcome Address
address_of kind [] = ok (record { kind = kind; head = []; route = [] })
address_of kind (head ∷ segs) = do
  h ← unescape head
  r ← steps_of segs true
  ok (record { kind = kind; head = h; route = r })

-- "head.size() > 8 && head[0] == 'b'"
unfoldable pub spelling : List (List ℕ) → FirstStep
spelling [] = refname
spelling (head ∷ segs) = if ltb 8 (length head) && get_or head 0 0 == b'b' then cid else refname

-- The lexical spelling of a refname: `colon` is the position of the first colon.
unfoldable pub parse_lexical : List ℕ → ℕ → Outcome Address
parse_lexical text colon =
    let route = drop (colon + 1) text in
    do
      h ← unescape (take colon text)
      r ← (if length route == 0 then ok [] else steps_of (split b'/' route) false)
      ok (record { kind = refname; head = h; route = r })

-- `text.substr(0, text.find('/'))`
unfoldable pub first_segment : List ℕ → List ℕ
first_segment text = elim (index_from 0 text b'/') [ none ↦ text | some i ↦ take i text ]

unfoldable pub parse_unmarked : List ℕ → Outcome Address
parse_unmarked text = elim (index_from 0 (first_segment text) b':') [
  | some colon ↦ parse_lexical text colon
  | none ↦ address_of (spelling (split b'/' text)) (split b'/' text)
]

unfoldable pub parse_address : List ℕ → Outcome Address
unfolding parse_unmarked parse_lexical first_segment spelling address_of
parse_address [] = parse_unmarked []
parse_address (c ∷ text) =
    if c == b'#' then address_of peerkey (split b'/' text) else parse_unmarked (c ∷ text)
