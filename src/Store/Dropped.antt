-- ===== src/Store/Dropped.antt =====
-- What a fetch does with an error of a chunk.
use sygaldreye.Common.{ℕ, ◌≡◌, ◌≢◌, List, true, Option}
use sygaldreye.Common.Outcome.{Error, ok, throws, fault, stuck}
use sygaldreye.Formats.Cid.{Hash}
use sygaldreye.Store.{PeerStore, Run, get, is_present}
use sygaldreye.Store.Fetch.{Transfer, caught, move_one, fan_out, fetch}

module _ (blake3 : Hash) (end_of : List ℕ → ℕ) where
  caught-ne-throws :
      (r : Run Transfer (Unit {0})) (e : Error) → (caught blake3 end_of r).0 ≢ throws e
  caught-ne-throws (ok u, t) e = λ p. cc
  caught-ne-throws (throws e', t) e = λ p. cc
  caught-ne-throws (fault, t) e = λ p. cc
  caught-ne-throws (stuck, t) e = λ p. cc

  -- A fetch of an object that the destination has already never throws: when the source misses a
  -- chunk of it, or has other bytes for it, the error is dropped and the count so far returned.
  pub fetch-ne-throws :
      (src dst : PeerStore) (root_cid : List ℕ) (stop_after : Option ℕ) (e : Error)
      → is_present (get root_cid dst) ≡ true
      → (fetch blake3 end_of src root_cid stop_after dst).0 ≢ throws e
  unfolding fetch move_one
  fetch-ne-throws src dst root_cid stop_after e h =
      rw h (caught-ne-throws (fan_out blake3 end_of src stop_after root_cid (dst, 0)) e)
