-- ===== src/Store/Reads.antt =====
-- src/decent_registry/durable_store.py: the reads of what `put_if_newer` encodes.
use decent_registry.Prelude.{
  ◌≡◌, refl, ℕ, true, Option, none, some, List, [], ◌∷◌, map, bytes_eq, ≟-same, ok, present, arith,
}
use decent_registry.Cbor.{Bytes, Library, bytes, of_list}
use decent_registry.Cbor.Codec.{IsCodec, is_ordered, items_ordered, entries_ordered}
use decent_registry.Store.{
  at, read_history, metadata_value, history_value, check_history, encode_history, byte_items,
  current_seq,
}

byte_items-bytes : (bs : List Bytes) → byte_items (of_list (map bytes bs)) ≡ some bs
byte_items-bytes [] = refl
byte_items-bytes (b ∷ bs) = rw (byte_items-bytes bs)

bytes-ordered : (bs : List Bytes) → items_ordered (of_list (map bytes bs)) ≡ true
unfolding items_ordered is_ordered
bytes-ordered [] = refl
bytes-ordered (b ∷ bs) = bytes-ordered bs

history_value-ordered : (bs : List Bytes) → is_ordered (history_value bs) ≡ true
unfolding is_ordered
history_value-ordered bs = bytes-ordered bs

module _ (lib : Library) where
  pub metadata_value-read :
      IsCodec lib
      → (value : Bytes) (seq : ℕ) (state_hash metadata : Bytes)
      → lib.dumps (metadata_value seq state_hash) ≡ some metadata
      → current_seq lib value (some metadata) ≡ at seq
  unfolding current_seq is_ordered entries_ordered
  metadata_value-read codec value seq state_hash metadata wrote =
      rw (codec.loads-dumps (metadata_value seq state_hash) metadata refl wrote)

  -- The history that was encoded is the one that is read.
  pub read_history-encode_history :
      IsCodec lib
      → (history : Option (List Bytes)) (encoded : Option Bytes) → check_history history ≡ ok tt
      → encode_history lib history ≡ ok encoded
      → read_history lib encoded ≡ history
  read_history-encode_history codec none encoded nonempty wrote = ground arith
  read_history-encode_history codec (some []) encoded nonempty wrote = absurd (ground arith)
  read_history-encode_history codec (some (b ∷ bs)) encoded nonempty wrote =
      present (lib.dumps (history_value (b ∷ bs))) (λ e. ground arith)
        λ c eq.
          let found : encoded ≡ some c = ground arith in
          rw (
            found,
            codec.loads-dumps (history_value (b ∷ bs)) c (history_value-ordered (b ∷ bs)) eq,
            eq,
            ≟-same c c refl,
            byte_items-bytes bs,
          )
