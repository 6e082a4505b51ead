-- ===== src/Mesh/Link.antt =====
-- mesh/link/link.cpp: framed messages on a socket, and the channel over them.
pub mod Written
pub mod Frames
pub mod Messages
mod Runs
use sygaldreye.Common.{
  ℕ, zero, suc, ◌+◌, ◌-◌, ◌%◌, ◌^◌, List, [], ◌∷◌, ◌++◌, Bool, true, false, Option, none, some, leb,
  length, take, drop, bit_or, if◌then◌else◌, ◌==◌,
}
use sygaldreye.Common.Bits.{shl, shr}
use sygaldreye.Common.Outcome.{Outcome, ok, throws, fault, ◌>>=◌, Run, run_then, send_failed}
use sygaldreye.Formats.Varint.{put_varint, get_varint}

-- A connected socket: the bytes that arrive, in the segments in which they do, how much each later
-- `::send` takes, and what was sent. An empty segment, or none, is the end or an error of the
-- connection, and so is a `::send` that takes nothing.
pub record Socket : Type 0 where
  pub incoming : List (List ℕ)
  pub accepts : List ℕ
  pub sent : List ℕ
  pub is_open : Bool

abbrev pub max_frame : ℕ
max_frame = 2 ^ 20

-- What a loop of `::read` or `::send` comes to, on the segments or the bytes.
abbrev pub behind : List ℕ → Option (List ℕ) × List (List ℕ) → Option (List ℕ) × List (List ℕ)
behind bytes (none, rest) = (none, rest)
behind bytes (some more, rest) = (some (bytes ++ more), rest)

-- `read_n`: a `::read` has a part of the first segment, of as many bytes as are wanted at most.
unfoldable pub read_n : ℕ → List (List ℕ) → Option (List ℕ) × List (List ℕ)
read_n zero segments = (some [], segments)
read_n (suc n) [] = (none, [])
read_n (suc n) ([] ∷ segments) = (none, segments)
read_n (suc n) ((b ∷ bytes) ∷ segments) = elim (leb (length bytes) n) [
  | true ↦ behind (b ∷ bytes) (read_n (n - length bytes) segments)
  | false ↦ (some (take (suc n) (b ∷ bytes)), drop (suc n) (b ∷ bytes) ∷ segments)
]

pub record Writing : Type 0 where
  pub done : Bool
  pub bytes_sent : List ℕ
  pub accepts_left : List ℕ

abbrev pub sent_before : List ℕ → Writing → Writing
sent_before bytes w = record w { bytes_sent = bytes ++ w.bytes_sent }

unfoldable pub write_n : List ℕ → List ℕ → Writing
write_n [] accepts = record { done = true; bytes_sent = []; accepts_left = accepts }
write_n (b ∷ bytes) [] = record { done = false; bytes_sent = []; accepts_left = [] }
write_n (b ∷ bytes) (zero ∷ accepts) = record {
  done = false;
  bytes_sent = [];
  accepts_left = accepts;
}
write_n (b ∷ bytes) (suc n ∷ accepts) =
    sent_before (take (suc n) (b ∷ bytes)) (write_n (drop (suc n) (b ∷ bytes)) accepts)

-- The four bytes of a length, highest first, and the number that they are read as.
unfoldable pub length_bytes : ℕ → List ℕ
length_bytes n = shr n 24 % 256 ∷ shr n 16 % 256 ∷ shr n 8 % 256 ∷ n % 256 ∷ []

unfoldable pub length_of : List ℕ → Option ℕ
length_of (a ∷ b ∷ c ∷ d ∷ []) =
    some (bit_or (bit_or (bit_or (shl 32 a 24) (shl 32 b 16)) (shl 32 c 8)) d)
length_of _ = none

abbrev pub body_of : Option ℕ → List (List ℕ) → Option (List ℕ) × List (List ℕ)
body_of none segments = (none, segments)
body_of (some n) segments =
    let body = read_n n segments in if leb n max_frame then body else (none, segments)

abbrev pub frame_of : Option (List ℕ) × List (List ℕ) → Option (List ℕ) × List (List ℕ)
frame_of (none, segments) = (none, segments)
frame_of (some bytes, segments) = body_of (length_of bytes) segments

abbrev pub arrived : Option (List ℕ) × List (List ℕ) → Socket → Option (List ℕ) × Socket
arrived (frame, segments) s = (frame, record s { incoming = segments })

unfoldable pub read_frame : Socket → Option (List ℕ) × Socket
unfolding read_n length_of
read_frame s = arrived (frame_of (read_n 4 s.incoming)) s

abbrev pub written_to : Socket → Writing → Socket
written_to s w = record s { accepts = w.accepts_left; sent = s.sent ++ w.bytes_sent }

abbrev pub then_body : List ℕ → Socket → Writing → Bool × Socket
then_body body s w =
    let rest = write_n body w.accepts_left in
    if w.done
    then (rest.done, written_to s (sent_before w.bytes_sent rest))
    else (false, written_to s w)

unfoldable pub write_frame : List ℕ → Socket → Bool × Socket
unfolding write_n length_bytes
write_frame body s = then_body body s (write_n (length_bytes (length body % 2 ^ 32)) s.accepts)

-- The hello record: two public keys of 32 bytes, and a signature of 64 over the second.
pub record Hello : Type 0 where
  pub id_pk : List ℕ
  pub kx_pk : List ℕ
  pub sig : List ℕ

unfoldable pub encode_hello : Hello → List ℕ
encode_hello h = h.id_pk ++ (h.kx_pk ++ h.sig)

unfoldable pub decode_hello : List ℕ → Option Hello
decode_hello b =
    if length b == 128
    then some (record { id_pk = take 32 b; kx_pk = take 32 (drop 32 b); sig = take 64 (drop 64 b) })
    else none

-- The calls of libsodium and of the identity of a peer, with the bits that they draw at random as an
-- argument. `Tx` and `Rx` are the states of a secretstream.
pub record Sodium (Tx Rx : Type 0) : Type 0 where
  pub header_bytes : ℕ
  pub init_push : ℕ → List ℕ → List ℕ × Tx
  pub init_pull : List ℕ → List ℕ → Option Rx
  pub push : Tx → List ℕ → List ℕ × Tx
  pub pull : Rx → List ℕ → Option (List ℕ) × Rx
  pub keypair : ℕ → List ℕ × List ℕ
  pub client_session_keys : List ℕ → List ℕ → List ℕ → Option (List ℕ × List ℕ)
  pub server_session_keys : List ℕ → List ℕ → List ℕ → Option (List ℕ × List ℕ)
  pub public_key : List ℕ
  pub sign : List ℕ → List ℕ
  pub verify : List ℕ → List ℕ → List ℕ → Bool
  pub peer_key_of : List ℕ → List ℕ

pub record Channel (Tx Rx : Type 0) : Type 0 where
  pub remote_pk : List ℕ
  pub tx : Tx
  pub rx : Rx
  pub socket : Socket

-- A step of a chain of calls that return false on failure, and the answer `some` of the others.
abbrev pub and_then :
    {A B : Type 0} → Option A × Socket → (A → Socket → Option B × Socket) → Option B × Socket
and_then (none, s) f = (none, s)
and_then (some a, s) f = f a s

abbrev pub asserted : {A : Type 0} → A → Bool × Socket → Option A × Socket
asserted a (true, s) = (some a, s)
asserted a (false, s) = (none, s)

module _ {Tx Rx : Type 0} (sodium : Sodium Tx Rx) where
  -- The two frames of an exchange, ours first for the initiator.
  unfoldable pub exchange : Bool → List ℕ → Socket → Option (List ℕ) × Socket
  unfolding write_frame read_frame
  exchange true ours s = and_then (asserted ours (write_frame ours s)) (λ u s. read_frame s)
  exchange false ours s = and_then (read_frame s) (λ theirs s. asserted theirs (write_frame ours s))

  abbrev pub with_rx : Tx → Option Rx → Socket → Option (Tx × Rx) × Socket
  with_rx tx none s = (none, s)
  with_rx tx (some rx) s = (some (tx, rx), s)

  abbrev pub pull_header : Tx → List ℕ → List ℕ → Socket → Option (Tx × Rx) × Socket
  pull_header tx rx_key their_hdr s =
      if length their_hdr == sodium.header_bytes
      then with_rx tx (sodium.init_pull their_hdr rx_key) s
      else (none, s)

  unfoldable pub setup_streams : ℕ → List ℕ → List ℕ → Bool → Socket → Option (Tx × Rx) × Socket
  unfolding exchange
  setup_streams random tx_key rx_key send_first s =
      let pushed = sodium.init_push random tx_key in
      and_then (exchange send_first pushed.0 s) (pull_header pushed.1 rx_key)

  abbrev pub session_keys : Bool → List ℕ × List ℕ → List ℕ → Option (List ℕ × List ℕ)
  session_keys true (pk, sk) theirs = sodium.client_session_keys pk sk theirs
  session_keys false (pk, sk) theirs = sodium.server_session_keys pk sk theirs

  -- In the initiator's order their hello is decoded behind the exchange, in the other before our frame.
  unfoldable pub exchange_hellos : Bool → List ℕ → Socket → Option Hello × Socket
  unfolding write_frame read_frame decode_hello
  exchange_hellos true ours s =
      and_then (asserted ours (write_frame ours s))
        (λ u s. and_then (read_frame s) (λ rb s. (decode_hello rb, s)))
  exchange_hellos false ours s =
      and_then (read_frame s)
        (λ rb s. and_then (decode_hello rb, s) (λ theirs s. asserted theirs (write_frame ours s)))

  abbrev pub as_channel : List ℕ → Tx × Rx → Socket → Option (Channel Tx Rx) × Socket
  as_channel id_pk streams s =
      (some (record { remote_pk = id_pk; tx = streams.0; rx = streams.1; socket = s }), s)

  abbrev pub open_channel :
      Bool → ℕ → List ℕ → List ℕ × List ℕ → Socket → Option (Channel Tx Rx) × Socket
  open_channel initiator stream_random id_pk keys s =
      and_then (setup_streams stream_random keys.1 keys.0 initiator s) (as_channel id_pk)

  -- What follows the exchange of the hellos.
  abbrev pub check_hello :
      (List ℕ → Bool)
      → Bool
      → List ℕ × List ℕ
      → ℕ
      → Hello
      → Socket
      → Option (Channel Tx Rx) × Socket
  check_hello admit initiator pair stream_random theirs s =
      if sodium.verify theirs.id_pk theirs.kx_pk theirs.sig
      then if admit (sodium.peer_key_of theirs.id_pk)
        then and_then (session_keys initiator pair theirs.kx_pk, s)
            (open_channel initiator stream_random theirs.id_pk)
        else (none, s)
      else (none, s)

  abbrev pub my_hello : List ℕ → Hello
  my_hello kx_pk = record { id_pk = sodium.public_key; kx_pk = kx_pk; sig = sodium.sign kx_pk }

  unfoldable pub handshake :
      (List ℕ → Bool) → Bool → ℕ → ℕ → Socket → Option (Channel Tx Rx) × Socket
  unfolding exchange_hellos encode_hello setup_streams
  handshake admit initiator key_random stream_random s =
      let pair = sodium.keypair key_random in
      and_then (exchange_hellos initiator (encode_hello (my_hello pair.0)) s)
        (check_hello admit initiator pair stream_random)

  abbrev pub or_closed : Option (Channel Tx Rx) × Socket → Option (Channel Tx Rx) × Socket
  or_closed (none, s) = (none, record s { is_open = false })
  or_closed (some channel, s) = (some channel, s)

  -- `accept` and `dial` on a socket that is connected: without a channel it is closed.
  unfoldable pub connected :
      (List ℕ → Bool) → Bool → ℕ → ℕ → Socket → Option (Channel Tx Rx) × Socket
  unfolding handshake
  connected admit initiator key_random stream_random s =
      or_closed (handshake admit initiator key_random stream_random s)

  abbrev pub sent_by : Channel Tx Rx → Tx → Bool × Socket → Run (Channel Tx Rx) (Unit {0})
  sent_by c tx (true, s) = (ok tt, record c { tx = tx; socket = s })
  sent_by c tx (false, s) = (throws send_failed, record c { tx = tx; socket = s })

  unfoldable pub send : ℕ → List ℕ → Channel Tx Rx → Run (Channel Tx Rx) (Unit {0})
  unfolding write_frame put_varint
  send kind body c =
      let cipher = sodium.push c.tx (put_varint kind ++ body) in
      sent_by c cipher.1 (write_frame cipher.0 c.socket)

  abbrev pub opened : Option (List ℕ) → Outcome (Option (ℕ × List ℕ))
  opened none = ok none
  opened (some plain) = get_varint plain 0 0

  abbrev pub received :
      Channel Tx Rx → Option (List ℕ) × Socket → Run (Channel Tx Rx) (Option (ℕ × List ℕ))
  received c (none, s) = (ok none, record c { socket = s })
  received c (some cipher, s) =
      let pulled = sodium.pull c.rx cipher in
      (opened pulled.0, record c { rx = pulled.1; socket = s })

  -- `none` is the answer false.
  unfoldable pub recv : Channel Tx Rx → Run (Channel Tx Rx) (Option (ℕ × List ℕ))
  unfolding read_frame get_varint
  recv c = received c (read_frame c.socket)
