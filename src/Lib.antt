-- ===== src/Lib.antt =====
-- Sygaldreye: the greenfield implementation under probe/probe2.
--
-- The program is a peer of a live-coded music and image environment. Everything that a peer keeps is
-- a content-addressed object: `formats` gives each object its bytes and its address, `store` keeps
-- objects, derivations and names, `naming` finds them, and the crown, the executor and the mesh run
-- graphs of nodes and exchange objects with other peers. This library models the formats and the
-- store, which the other parts stand on, the names, the links between peers, the crown's plan, the
-- schedule of the executor, the queue between its threads, and the organs that read, expand, swap
-- and query graphs.
--
-- Paths are from the repository's root, below probe/probe2/src/:
--
--   Formats.Pins                formats/pins/pins.hpp: the frozen constants.
--   Formats.Packing             the loops that base32 and base64 share: bits gathered in a 32-bit word
--                               and taken in groups of 5 or 6.
--   Formats.Base32, Base64      `mb32_encode`, `mb32_decode`, `cid_to_text` and `cid_from_text` of
--                               formats/cid/cid.cpp; `base64_encode` and `base64_decode` of
--                               formats/dagcbor/dagcbor.cpp.
--   Formats.Varint, Cid         `put_varint`, `cid_of` and `cid_verify` of formats/cid/cid.cpp.
--   Formats.Address             formats/address/address.cpp: `print_address` and `parse_address`.
--   Formats.Cbor                formats/dagcbor/dagcbor.cpp: `encode` in Cbor.Encode, the reader and
--                               `decode_to_projection` in Cbor.Decode, and the values of
--                               nlohmann::json in Cbor.Json.
--   Formats.Chunk               formats/chunk/chunk.cpp: `chunk_put`, with its calls of `put`.
--   Store, Store.Fetch          store/store.cpp: the operations of `peer_store`, each a function from
--                               the store's fields to a result and the new fields, and `fetch`.
--   Store.History               the operations in any order, as a step relation.
--   Naming                      naming/environment/environment.cpp; Naming.Oracle, Resolver and Spans are
--                               naming/oracle/oracle.cpp, naming/resolver/resolver.cpp and
--                               naming/spans/spans.cpp.
--   Naming.Again                what may come after a resolution, as a step relation.
--   Mesh.Link                   mesh/link/link.cpp: frames, the handshake, and a channel's messages.
--   Crown                       crown/crown.hpp and crown/crown.cpp: `plan`, with `rewire` in Crown.Wiring,
--                               `apply` and `tick` in Crown.Edits, and the loop of
--                               escapement/escapement.hpp.
--   Crown.Tape                  crown/tape.cpp: `read_tape`.
--   Executor.Mpsc               executor/mpsc.hpp: `push` and `drain`, cut into steps at the exchanges
--                               of the head; Executor.Mpsc.Order has their interleavings.
--   Executor.Regions            executor/regions.cpp: `infer_regions`; Executor.Schedule: `scc_order`.
--   Organs.Parser               organs/parser/parser.cpp: graph documents.
--   Organs.Subgraph, Slot       organs/subgraph/subgraph.cpp and organs/slot/slot.cpp.
--   Organs.Query                organs/query/query.cpp, on the store.
--   Abi                         abi/phase.cpp: the phase of a thread, guards, and counters.
--   Common                      tests, lists, maps, bits, and the outcomes of a call: a value, a
--                               thrown error, undefined behaviour, or `stuck`, for a loop out of fuel.
--
-- A byte, a character and a word are natural numbers; shifts to the left and sums wrap at the
-- width of the C++ type. Strings are lists of bytes, a double is its 64 bits. A pointer into a
-- buffer is the address that is left after the bytes still to be read: `decode_to_projection`
-- takes the address of the buffer's end, so that the sum that the reader compares with it can
-- wrap. A std::map is a list of entries with one entry for a key, and an object's fields are in
-- the order of its std::map.
--
-- Fuel: the reader recurses on twice the length of its buffer and one more, for a call of `value`
-- and a round of a loop for each byte. The cutting of a blob into chunks has a round for each
-- byte. The inner loop of the packing has as many rounds as there are bits, `put_varint` as many
-- as the number. The loop of swaps that reverses what was drained has a round for each element.
-- The loops of `infer_regions` have one for each edge and one more; the search of `scc_order` has
-- a level for each node and one more. The expansion of templates and the search for a resource
-- holder take their depth as an argument. All other loops recurse on their lists.
--
-- Parameters: the linked natives; the loader of templates; BLAKE3, by its digest of 32 bytes
-- (Formats.Cid.Hash); libsodium (Mesh.Link.Sodium); the generated table of structured kinds
-- (Naming.Oracle); the addresses at which the buffers of stored objects end; `strtod`, with the
-- bits of the number that it reads (Crown.Edits). A fetch is between two stores. A native's
-- functions are not run: a plan keeps the calls of them.
--
-- Not modelled: `encode_count`, a counter for tests; the other organs and the rest of the
-- executor, `eval_query` with it; the sessions of the command line and the generator, which print;
-- the nodes and the render region, which drive devices.
pub mod Common
pub mod Formats
pub mod Store
pub mod Crown
pub mod Executor
pub mod Mesh
pub mod Naming
pub mod Organs
pub mod Abi
