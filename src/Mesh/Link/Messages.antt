-- ===== src/Mesh/Link/Messages.antt =====
-- Messages on a channel, and whom a handshake lets in.
use sygaldreye.Common.{
  ℕ, ◌%◌, ◌^◌, ◌≤◌, ◌<◌, ◌≡◌, refl, ap, sym, ◌∙◌, List, ◌++◌, Bool, true, false, Option, none, some,
  length, if◌then◌else◌, ◌==◌,
}
use mathlib.Core.List.{append_assoc}
use mathlib.Core.Path.{subst}
use sygaldreye.Common.Outcome.{ok}
use sygaldreye.Formats.Varint.{put_varint}
use sygaldreye.Formats.Varint.RoundTrip.{get_varint-put_varint}
use sygaldreye.Mesh.Link.{
  Socket, max_frame, length_bytes, write_frame, Sodium, Channel, and_then, exchange, with_rx,
  pull_header, as_channel, open_channel, check_hello, my_hello, exchange_hellos, encode_hello,
  setup_streams, session_keys, handshake, sent_by, send, received, recv, Hello, opened,
}
use sygaldreye.Mesh.Link.Frames.{join, IsArriving, read_frame-join, read_frame-oversize}
use sygaldreye.Mesh.Link.Written.{write_frame-sent, IsTaking, write_frame-done}

module _ {Tx Rx : Type 0} (sodium : Sodium Tx Rx) (Paired : Tx → Rx → Type 0) where
  -- What libsodium documents of a secretstream: a state that pulls opens what its peer pushes, in order.
  pub record IsStream : Type 0 where
    pub pull-push :
        (t : Tx) (r : Rx) (m : List ℕ)
        → Paired t r
        → (r' : Rx) × (sodium.pull r (sodium.push t m).0 ≡ (some m, r'))
          × Paired (sodium.push t m).1 r'

  -- The frame of a message.
  abbrev pub cipher_of : ℕ → List ℕ → Channel Tx Rx → List ℕ
  cipher_of kind body c = (sodium.push c.tx (put_varint kind ++ body)).0

  abbrev pub message_of : ℕ → List ℕ → Channel Tx Rx → List ℕ
  message_of kind body c =
      length_bytes (length (cipher_of kind body c) % 2 ^ 32) ++ cipher_of kind body c

  sent_by_inv :
      (c d : Channel Tx Rx) (tx : Tx) (w : Bool × Socket)
      → sent_by sodium c tx w ≡ (ok tt, d)
      → (w ≡ (true, w.1)) × (d ≡ record c { tx = tx; socket = w.1 })
  sent_by_inv c d tx (true, s) h = (refl, sym (ap (λ r. r.1) h))
  sent_by_inv c d tx (false, s) h = cc

  -- A message that `send` returned from is received: when what has arrived at a channel that is paired
  -- with the sender begins with the bytes that were sent.
  pub recv-send :
      (kind : ℕ) (body rest : List ℕ) (a a' b : Channel Tx Rx)
      → IsStream
      → Paired a.tx b.rx
      → kind < 2 ^ 64
      → length (cipher_of kind body a) ≤ max_frame
      → send sodium kind body a ≡ (ok tt, a')
      → IsArriving b.socket.incoming
      → join b.socket.incoming ≡ message_of kind body a ++ rest
      → (b' : Channel Tx Rx) × (a'.socket.sent ≡ a.socket.sent ++ message_of kind body a)
        × (recv sodium b ≡ (ok (some (kind, body)), b'))
        × Paired a'.tx b'.rx
        × (join b'.socket.incoming ≡ rest)
        × IsArriving b'.socket.incoming
  unfolding send recv
  recv-send kind body rest a a' b stream paired small bound sending arriving bytes =
      let cipher = sodium.push a.tx (put_varint kind ++ body) in
      let went = sent_by_inv a a' cipher.1 (write_frame cipher.0 a.socket) sending in
      let out = write_frame-sent cipher.0 a.socket (write_frame cipher.0 a.socket).1 went.0 in
      let came =
        read_frame-join cipher.0 rest b.socket bound arriving
          (bytes ∙ append_assoc (length_bytes (length cipher.0 % 2 ^ 32)) cipher.0 rest) in
      let pulled = stream.pull-push a.tx b.rx (put_varint kind ++ body) paired in
      (
        record b { rx = pulled.0; socket = record b.socket { incoming = came.0 } },
        ap (λ (c : Channel Tx Rx). c.socket.sent) went.1 ∙ out,
        ap (received sodium b) came.1
            ∙ ap
                (λ p. (
                  opened sodium p.0,
                  record b { rx = p.1; socket = record b.socket { incoming = came.0 } },
                ))
                pulled.1
            ∙ ap
                (λ o.
                  (o, record b { rx = pulled.0; socket = record b.socket { incoming = came.0 } }))
                (get_varint-put_varint kind body small),
        subst (λ (t : Tx). Paired t pulled.0) (sym (ap (λ (c : Channel Tx Rx). c.tx) went.1))
            pulled.2,
        came.2,
        came.3,
      )

  sent_by-done :
      (c : Channel Tx Rx) (tx : Tx) (w : Bool × Socket)
      → w.0 ≡ true
      → sent_by sodium c tx w ≡ (ok tt, record c { tx = tx; socket = w.1 })
  sent_by-done c tx (true, s) h = refl
  sent_by-done c tx (false, s) h = cc

  -- A message of more than `max_frame` bytes with the overhead of the cipher, and of fewer than 2^32,
  -- is sent: on a socket that takes a byte at least in each of as many calls of `::send` as the frame
  -- has bytes, `send` returns and has sent the frame. When that frame arrives next at a channel, in
  -- segments of any sizes, its `recv` answers it like the end of the connection.
  pub recv-oversize :
      (kind : ℕ) (body rest : List ℕ) (a b : Channel Tx Rx)
      → max_frame < length (cipher_of kind body a)
      → length (cipher_of kind body a) < 2 ^ 32
      → IsTaking a.socket.accepts
      → length (message_of kind body a) ≤ length a.socket.accepts
      → IsArriving b.socket.incoming
      → join b.socket.incoming ≡ message_of kind body a ++ rest
      → (a' : Channel Tx Rx) × (send sodium kind body a ≡ (ok tt, a'))
        × (a'.socket.sent ≡ a.socket.sent ++ message_of kind body a)
        × ((recv sodium b).0 ≡ ok none)
  unfolding send recv
  recv-oversize kind body rest a b over small taking enough arriving bytes =
      let cipher = sodium.push a.tx (put_varint kind ++ body) in
      let w = write_frame cipher.0 a.socket in
      let done = write_frame-done cipher.0 a.socket taking enough in
      let refused =
        read_frame-oversize cipher.0 rest b.socket over small arriving
          (bytes ∙ append_assoc (length_bytes (length cipher.0 % 2 ^ 32)) cipher.0 rest) in
      (
        record a { tx = cipher.1; socket = w.1 },
        sent_by-done a cipher.1 w done,
        write_frame-sent cipher.0 a.socket w.1 (ap (λ d. (d, w.1)) done),
        ap (λ r. (received sodium b r).0) refused.1,
      )

some_injective {ℓ} : {A : Type ℓ} {a b : A} → some a ≡ some b → a ≡ b
some_injective h = cc

-- A chain of calls that came to its end went through both of its parts.
and_then-some :
    {A B : Type 0} (r : Option A × Socket) (f : A → Socket → Option B × Socket) (b : B)
    (s' : Socket)
    → and_then r f ≡ (some b, s')
    → (a : A) × (s : Socket) × (r ≡ (some a, s)) × (f a s ≡ (some b, s'))
and_then-some (none, s) f b s' h = cc
and_then-some (some a, s) f b s' h = (a, s, refl, h)

guarded :
    {B : Type 0} (test : Bool) (r : Option B × Socket) (s s' : Socket) (b : B)
    → (if test then r else (none, s)) ≡ (some b, s')
    → (test ≡ true) × (r ≡ (some b, s'))
guarded true r s s' b h = (refl, h)
guarded false r s s' b h = cc

module _ {Tx Rx : Type 0} (sodium : Sodium Tx Rx) where
  -- Whom a channel is with: an identity that was let in, and that signed the key which the channel's
  -- session keys were made with.
  pub record IsAdmitted (admit : List ℕ → Bool) (initiator : Bool) (random : ℕ) (stream_random : ℕ)
      (c : Channel Tx Rx) : Type 0 where
    pub theirs : Hello
    pub identity : c.remote_pk ≡ theirs.id_pk
    pub admitted : admit (sodium.peer_key_of c.remote_pk) ≡ true
    pub signed : sodium.verify c.remote_pk theirs.kx_pk theirs.sig ≡ true
    pub keys : List ℕ × List ℕ
    pub exchanged : session_keys sodium initiator (sodium.keypair random) theirs.kx_pk ≡ some keys
    pub sends_under : c.tx ≡ (sodium.init_push stream_random keys.1).1
    pub their_header : List ℕ
    pub receives_under : sodium.init_pull their_header keys.0 ≡ some c.rx

  with_rx-some :
      (tx : Tx) (pulled : Option Rx) (s s' : Socket) (streams : Tx × Rx)
      → with_rx sodium tx pulled s ≡ (some streams, s')
      → (streams.0 ≡ tx) × (pulled ≡ some streams.1)
  with_rx-some tx none s s' streams h = cc
  with_rx-some tx (some rx) s s' streams h =
      let same : (tx, rx) ≡ streams = cc in (sym (ap (λ t. t.0) same), ap (λ t. some t.1) same)

  setup_streams-some :
      (random : ℕ) (tx_key rx_key : List ℕ) (first : Bool) (s s' : Socket) (streams : Tx × Rx)
      → setup_streams sodium random tx_key rx_key first s ≡ (some streams, s')
      → (streams.0 ≡ (sodium.init_push random tx_key).1)
        × ((header : List ℕ) × (sodium.init_pull header rx_key ≡ some streams.1))
  unfolding setup_streams
  setup_streams-some random tx_key rx_key first s s' streams h =
      let pushed = sodium.init_push random tx_key in
      let got =
        and_then-some (exchange sodium first pushed.0 s) (pull_header sodium pushed.1 rx_key)
          streams s' h in
      let sized =
        guarded (length got.0 == sodium.header_bytes)
          (with_rx sodium pushed.1 (sodium.init_pull got.0 rx_key) got.1) got.1 s' streams got.3 in
      let opening =
        with_rx-some pushed.1 (sodium.init_pull got.0 rx_key) got.1 s' streams sized.1 in
      (opening.0, (got.0, opening.1))

  -- A handshake that gives a channel let its peer in.
  pub handshake-IsAdmitted :
      (admit : List ℕ → Bool) (initiator : Bool) (random stream_random : ℕ) (s s' : Socket)
      (c : Channel Tx Rx)
      → handshake sodium admit initiator random stream_random s ≡ (some c, s')
      → IsAdmitted admit initiator random stream_random c
  unfolding handshake
  handshake-IsAdmitted admit initiator random stream_random s s' c h =
      let pair = sodium.keypair random in
      let hellos =
        and_then-some (exchange_hellos sodium initiator (encode_hello (my_hello sodium pair.0)) s)
          (check_hello sodium admit initiator pair stream_random) c s' h in
      let theirs = hellos.0 in
      let agreed = session_keys sodium initiator pair theirs.kx_pk in
      let opening = open_channel sodium initiator stream_random theirs.id_pk in
      let verified =
        guarded (sodium.verify theirs.id_pk theirs.kx_pk theirs.sig)
          (if admit (sodium.peer_key_of theirs.id_pk)
            then and_then (agreed, hellos.1) opening
            else (none, hellos.1))
          hellos.1 s' c hellos.3 in
      let let_in =
        guarded (admit (sodium.peer_key_of theirs.id_pk)) (and_then (agreed, hellos.1) opening)
          hellos.1 s' c verified.1 in
      let keyed = and_then-some (agreed, hellos.1) opening c s' let_in.1 in
      let keys = keyed.0 in
      let set_up =
        and_then-some (setup_streams sodium stream_random keys.1 keys.0 initiator keyed.1)
          (as_channel sodium theirs.id_pk) c s' keyed.3 in
      let made =
        setup_streams-some stream_random keys.1 keys.0 initiator keyed.1 set_up.1 set_up.0
          set_up.2 in
      let same : record {
        remote_pk = theirs.id_pk;
        tx = set_up.0.0;
        rx = set_up.0.1;
        socket = set_up.1;
      }
          ≡ c =
        some_injective (ap (λ r. r.0) set_up.3) in
      let identity = ap (λ (d : Channel Tx Rx). d.remote_pk) (sym same) in
      record {
        theirs = theirs;
        identity = identity;
        admitted = ap (λ pk. admit (sodium.peer_key_of pk)) identity ∙ let_in.0;
        signed = ap (λ pk. sodium.verify pk theirs.kx_pk theirs.sig) identity ∙ verified.0;
        keys = keys;
        exchanged = ap (λ r. r.0) keyed.2;
        sends_under = ap (λ (d : Channel Tx Rx). d.tx) (sym same) ∙ made.0;
        their_header = made.1.0;
        receives_under = made.1.1 ∙ ap (λ (d : Channel Tx Rx). some d.rx) same;
      }
