-- ===== src/Cbor/Codec.antt =====
-- What the round trips rely on of `cbor2`: `loads` reads back what `dumps` wrote. A Python dict
-- remembers the order of insertion and `dumps(canonical=True)` writes the keys sorted, so the law is
-- stated of values whose maps have numbers for keys and list them in increasing order.
use decent_registry.Prelude.{◌≡◌, ℕ, Bool, true, false, ◌&&◌, some, ltb}
use decent_registry.Cbor.{
  Bytes, Library, Value, null, bool, int, bytes, text, array, dict, Items, nil, cons, Entries, end,
  entry,
}

abbrev above : ℕ → Entries → Bool
above n end = true
above n (entry (int k) v d) = ltb n k
above n (entry _ v d) = false

unfoldable mutual
  pub is_ordered : Value → Bool
  is_ordered null = true
  is_ordered (bool b) = true
  is_ordered (int n) = true
  is_ordered (Value.negative n) = true
  is_ordered (Value.float n b) = false
  is_ordered (bytes b) = true
  is_ordered (text s) = true
  is_ordered (array vs) = items_ordered vs
  is_ordered (dict d) = entries_ordered d
  is_ordered (Value.other n) = false

  pub items_ordered : Items → Bool
  items_ordered nil = true
  items_ordered (cons v vs) = is_ordered v && items_ordered vs

  pub entries_ordered : Entries → Bool
  entries_ordered end = true
  entries_ordered (entry (int k) v d) = above k d && is_ordered v && entries_ordered d
  entries_ordered (entry _ v d) = false

pub record IsCodec (lib : Library) : Type 0 where
  pub loads-dumps :
      (v : Value) (b : Bytes) → is_ordered v ≡ true → lib.dumps v ≡ some b → lib.loads b ≡ some v
