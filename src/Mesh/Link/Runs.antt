-- ===== src/Mesh/Link/Runs.antt =====
-- Channels at concrete inputs.
use sygaldreye.Common.{
  ℕ, zero, suc, ◌+◌, ◌%◌, ◌^◌, ◌≤◌, ◌≡◌, refl, ap, List, [], ◌∷◌, ◌++◌, true, false, Option, none,
  some, length, arith, if◌then◌else◌, ◌==◌, ==_refl, eq_bytes,
}
use sygaldreye.Common.Outcome.{ok}
use sygaldreye.Formats.Varint.{put_varint, put_varint_loop}
use sygaldreye.Mesh.Link.{
  Socket, max_frame, length_bytes, length_of, read_n, write_n, read_frame, write_frame, Sodium,
  Channel, exchange, exchange_hellos, encode_hello, decode_hello, setup_streams, handshake, send,
  recv, connected,
}
use sygaldreye.Mesh.Link.Frames.{join, IsArriving}
use sygaldreye.Mesh.Link.Written.{IsTaking}
use sygaldreye.Mesh.Link.Messages.{
  IsStream, cipher_of, message_of, recv-send, recv-oversize, IsAdmitted, handshake-IsAdmitted,
}

-- A stand-in for libsodium: a message has its number in front, keys are the identities' own.
abbrev unnumbered : ℕ → List ℕ → Option (List ℕ) × ℕ
unnumbered n [] = (none, n)
unnumbered n (x ∷ m) = if x == n % 256 then (some m, suc n) else (none, n)

abbrev header_length : ℕ
header_length = 2

abbrev numbered : Sodium ℕ ℕ
numbered = record {
  header_bytes = header_length;
  init_push = λ random key. (7 ∷ 7 ∷ [], 0);
  init_pull = λ header key. some 0;
  push = λ n m. (n % 256 ∷ m, suc n);
  pull = unnumbered;
  keypair = λ random. (random ∷ [], random ∷ []);
  client_session_keys = λ pk sk theirs. some (theirs, pk);
  server_session_keys = λ pk sk theirs. some (theirs, pk);
  public_key = 1 ∷ [];
  sign = λ m. m;
  verify = λ pk m sig. true;
  peer_key_of = λ pk. pk;
}

abbrev Same : ℕ → ℕ → Type 0
Same t r = t ≡ r

numbered-IsStream : IsStream numbered Same
numbered-IsStream = record { pull-push = λ t r m e. (suc r, rw (e, ==_refl (r % 256)), ap suc e) }

abbrev on_socket : List (List ℕ) → List ℕ → Channel ℕ ℕ
on_socket incoming accepts = record {
  remote_pk = 2 ∷ [];
  tx = 3;
  rx = 3;
  socket = record { incoming = incoming; accepts = accepts; sent = []; is_open = true };
}

abbrev ours : Channel ℕ ℕ
ours = on_socket [] (2 ∷ 9 ∷ 1 ∷ 9 ∷ [])

-- The frame 0 0 0 4 3 200 1 50 arrives in three pieces, with a byte of the next one.
abbrev theirs : Channel ℕ ℕ
theirs = on_socket ((0 ∷ []) ∷ (0 ∷ 0 ∷ 4 ∷ 3 ∷ []) ∷ (200 ∷ 1 ∷ 50 ∷ 0 ∷ []) ∷ []) []

ours_sent : (send numbered 200 (50 ∷ []) ours).1.socket.sent ≡ 0 ∷ 0 ∷ 0 ∷ 4 ∷ 3 ∷ 200 ∷ 1 ∷ 50 ∷ []
unfolding send put_varint put_varint_loop write_frame write_n length_bytes
ours_sent = refl

sending : send numbered 200 (50 ∷ []) ours ≡ (ok tt, (send numbered 200 (50 ∷ []) ours).1)
unfolding send put_varint put_varint_loop write_frame write_n length_bytes
sending = refl

short_cipher : length (cipher_of numbered Same 200 (50 ∷ []) ours) ≤ max_frame
unfolding put_varint put_varint_loop
short_cipher = omega arith

theirs_has : join theirs.socket.incoming ≡ message_of numbered Same 200 (50 ∷ []) ours ++ (0 ∷ [])
unfolding put_varint put_varint_loop length_bytes
theirs_has = refl

theirs-IsArriving : IsArriving theirs.socket.incoming
theirs-IsArriving = (omega arith, (omega arith, (omega arith, tt)))

abbrev ours_after : Channel ℕ ℕ
ours_after = (send numbered 200 (50 ∷ []) ours).1

recv-send_example :
    (b' : Channel ℕ ℕ) × (ours_after.socket.sent
      ≡ ours.socket.sent ++ message_of numbered Same 200 (50 ∷ []) ours)
    × (recv numbered theirs ≡ (ok (some (200, 50 ∷ [])), b'))
    × Same ours_after.tx b'.rx
    × (join b'.socket.incoming ≡ 0 ∷ [])
    × IsArriving b'.socket.incoming
recv-send_example =
    recv-send numbered Same 200 (50 ∷ []) (0 ∷ []) ours ours_after theirs numbered-IsStream refl
      (omega arith) short_cipher sending theirs-IsArriving theirs_has

-- A body of as many bytes as a frame can have at most.
zeros : ℕ → List ℕ
zeros zero = []
zeros (suc n) = 0 ∷ zeros n

length-zeros : (n : ℕ) → length (zeros n) ≡ n
unfolding zeros
length-zeros zero = refl
length-zeros (suc n) = ap suc (length-zeros n)

abbrev large : List ℕ
large = zeros max_frame

-- A byte in each call.
ones : ℕ → List ℕ
ones zero = []
ones (suc n) = 1 ∷ ones n

length-ones : (n : ℕ) → length (ones n) ≡ n
unfolding ones
length-ones zero = refl
length-ones (suc n) = ap suc (length-ones n)

ones-IsTaking : (n : ℕ) → IsTaking (ones n)
unfolding ones
ones-IsTaking zero = tt
ones-IsTaking (suc n) = (omega arith, ones-IsTaking n)

-- A socket that takes a byte at a time, of more than a frame.
abbrev patient : Channel ℕ ℕ
patient = on_socket [] (ones (2 ^ 21))

large_cipher : length (cipher_of numbered Same 1 large patient) ≡ max_frame + 2
unfolding put_varint put_varint_loop
large_cipher = ap (λ k. suc (suc k)) (length-zeros max_frame)

abbrev large_message : List ℕ
large_message = message_of numbered Same 1 large patient

abbrev one_segment : Channel ℕ ℕ
one_segment = on_socket (large_message ∷ []) []

one_segment-IsArriving : IsArriving one_segment.socket.incoming
unfolding length_bytes
one_segment-IsArriving = (omega arith, tt)

patient-enough : length large_message ≤ length patient.socket.accepts
unfolding length_bytes
patient-enough = omega (arith, large_cipher, length-ones (2 ^ 21))

recv-oversize_example :
    (a' : Channel ℕ ℕ) × (send numbered 1 large patient ≡ (ok tt, a'))
    × (a'.socket.sent ≡ [] ++ large_message)
    × ((recv numbered one_segment).0 ≡ ok none)
recv-oversize_example =
    recv-oversize numbered Same 1 large [] patient one_segment (omega (arith, large_cipher))
      (omega (arith, large_cipher)) (ones-IsTaking (2 ^ 21)) patient-enough one_segment-IsArriving
      refl

-- The initiator meets a peer whose hello and header come in two segments.
abbrev copies : ℕ → ℕ → List ℕ
copies zero b = []
copies (suc n) b = b ∷ copies n b

abbrev two : List ℕ
two = copies 32 2

abbrev meeting : Socket
meeting = record {
  incoming =
      (0 ∷ 0 ∷ 0 ∷ 128 ∷ two) ∷ (copies 32 5 ++ (copies 64 6 ++ (0 ∷ 0 ∷ 0 ∷ 2 ∷ 8 ∷ 9 ∷ []))) ∷ [];
  accepts = 4 ∷ 100 ∷ 4 ∷ 100 ∷ [];
  sent = [];
  is_open = true;
}

abbrev met : Channel ℕ ℕ
met = record {
  remote_pk = two;
  tx = 0;
  rx = 0;
  socket = record {
    incoming = [];
    accepts = [];
    sent = 0 ∷ 0 ∷ 0 ∷ 3 ∷ 1 ∷ 4 ∷ 4 ∷ 0 ∷ 0 ∷ 0 ∷ 2 ∷ 7 ∷ 7 ∷ [];
    is_open = true;
  };
}

meeting_opens : handshake numbered (λ pk. eq_bytes pk two) true 4 0 meeting ≡ (some met, met.socket)
unfolding handshake exchange_hellos exchange encode_hello decode_hello setup_streams write_frame
    read_frame read_n write_n length_bytes length_of
meeting_opens = refl

handshake-IsAdmitted_example : IsAdmitted numbered (λ pk. eq_bytes pk two) true 4 0 met
handshake-IsAdmitted_example =
    handshake-IsAdmitted numbered (λ pk. eq_bytes pk two) true 4 0 meeting met.socket met
      meeting_opens

-- A peer that is not let in: its socket is closed.
meeting_refused : (connected numbered (λ pk. eq_bytes pk []) true 4 0 meeting).1.is_open ≡ false
unfolding connected handshake exchange_hellos exchange encode_hello decode_hello setup_streams
    write_frame read_frame read_n write_n length_bytes length_of
meeting_refused = refl
