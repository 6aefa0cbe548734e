-- ===== src/Serving/Frames.antt =====
-- src/decent_registry/dht/serving_eligibility.py: the frames of a stream, a varint length and a
-- payload of that length.
pub mod Prefix
pub mod Canonical
use decent_registry.Prelude.{
  ℕ, zero, suc, ◌+◌, ◌*◌, ◌/◌, ◌%◌, ◌^◌, ◌<◌, ◌≤◌, not, Option, none, some, List, [], ◌∷◌, ◌≡◌, ltb,
  leb, ◌==◌, if◌then◌else◌, length, take, drop, Result, ok, raise, value_error, ◌>>=◌, ◌>>◌,
  raise_if, or_raise, ◌≟◌, bytes_eq,
}
use decent_registry.Cbor.{Bytes}

abbrev pub max_dht_message_size : ℕ
max_dht_message_size = 1024 * 1024

-- `byte & 0x7F` is a remainder, and `value` has no bit at `shift` or above, so that `|=` adds.
unfoldable pub varint_loop : Bytes → ℕ → ℕ → ℕ → Option (ℕ × ℕ)
varint_loop [] value shift index = none
varint_loop (byte ∷ rest) value shift index =
    let value' = value + byte % 128 * 2 ^ shift in
    let later = varint_loop rest value' (shift + 7) (index + 1) in
    if ltb byte 128 then some (value', index + 1) else later

-- What follows the loop, on what the loop has returned.
unfoldable pub after_loop : Bytes → Option (ℕ × ℕ) → Result (Option (ℕ × ℕ))
after_loop b (some found) = ok (some found)
after_loop b none =
    raise_if (leb 10 (length b)) (value_error "malformed DHT varint length") >> ok none

-- The length and the number of its bytes; `none` is an incomplete prefix.
unfoldable pub decode_varint_prefix : Bytes → Result (Option (ℕ × ℕ))
unfolding varint_loop after_loop
decode_varint_prefix b = after_loop b (varint_loop (take 10 b) 0 0 0)

-- What the package `varint` documents of `encode`: groups of seven bits, the lowest first, each
-- but the last with the bit 0x80.
pub record IsVarint (encode : ℕ → Bytes) : Type 0 where
  pub last_group : (n : ℕ) → n < 128 → encode n ≡ n ∷ []
  pub more_groups : (n : ℕ) → 128 ≤ n → encode n ≡ (n % 128 + 128) ∷ encode (n / 128)

module _ (encode : ℕ → Bytes) where
  unfoldable pub read_bounded_dht_frame : ℕ → Bytes → Result Bytes
  read_bounded_dht_frame max_bytes frame = do
    decoded ← decode_varint_prefix frame
    prefix ← or_raise decoded (value_error "truncated DHT frame length")
    raise_if (not (encode prefix.0 ≟ take prefix.1 frame))
        (value_error "non-canonical DHT frame length")
    raise_if (ltb max_bytes prefix.0) (value_error "oversize DHT frame")
    let payload = drop prefix.1 frame
    raise_if (ltb (length payload) prefix.0) (value_error "truncated DHT frame payload")
    raise_if (not (length payload == prefix.0)) (value_error "trailing bytes after DHT frame")
    ok payload
