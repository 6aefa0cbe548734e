-- ===== src/Serving/Messages.antt =====
-- src/decent_registry/dht/serving_eligibility.py: the messages in the frames. protobuf, multihash
-- and multiaddr are parameters.
pub mod Fields
use decent_registry.Prelude.{
  ℕ, zero, suc, ◌+◌, ◌/◌, ◌%◌, Bool, true, false, ◌&&◌, ◌||◌, not, Option, none, some, List, [],
  ◌∷◌, ltb, ◌==◌, if◌then◌else◌, length, drop, Result, Done, ok, raise, value_error, key_error,
  library_error, ◌>>=◌, ◌>>◌, raise_if, or_raise, ◌≟◌, bytes_eq,
}
use decent_registry.Cbor.{Bytes}
use decent_registry.Serving.Frames.{decode_varint_prefix}

-- `Message.Peer`, as far as the code reads it.
pub record PeerData : Type 0 where
  pub id : Bytes
  pub addrs : List Bytes

-- `Message` of kademlia_pb2, as far as the code reads it; `record` is its optional field, of which
-- the key is read.
pub record Message : Type 0 where
  pub byte_size : ℕ
  pub kind : ℕ
  pub key : Bytes
  pub record_key : Option Bytes
  pub closer_peers : List PeerData
  pub provider_peers : List PeerData

-- What the code calls of protobuf, multihash and multiaddr.
pub record MessageLibrary : Type 0 where
  -- `ParseFromString` into a new `Message`; `none` is `DecodeError`
  pub parse : Bytes → Option Message
  -- whether `multihash.decode` returns
  pub is_multihash : Bytes → Bool
  -- whether `Multiaddr` returns
  pub is_multiaddr : Bytes → Bool
  -- the enumeration `Message.MessageType`
  pub put_value : ℕ
  pub get_value : ℕ
  pub add_provider : ℕ
  pub get_providers : ℕ
  pub find_node : ℕ
  pub ping : ℕ

abbrev acknowledges : Message → Option Bytes → Bool
acknowledges response none = false
acknowledges response (some key) = response.key ≟ key

abbrev other_record : Option Bytes → Bytes → Bool
other_record none key = false
other_record (some k) key = not (k ≟ key)

-- What one round of the loop finds at the offset: an answer, or a field that it skips with the
-- offset behind it.
pub data Field : Type 0 where
  answer : Bool → Field
  skip : ℕ → Field

after_varint : Option (ℕ × ℕ) → ℕ → Field
after_varint none offset = answer false
after_varint (some v) offset = skip (offset + v.1)

after_delimited : Option (ℕ × ℕ) → ℕ → Field
after_delimited none offset = answer false
after_delimited (some v) offset = skip (offset + (v.1 + v.0))

-- A field that is not the type, from the offset behind its key.
skip_field : Bytes → ℕ → ℕ → Result Field
unfolding after_varint after_delimited
skip_field payload wire_type offset =
    if wire_type == 0
    then (do v ← decode_varint_prefix (drop offset payload); ok (after_varint v offset))
    else if wire_type == 1
    then ok (skip (offset + 8))
    else if wire_type == 2
    then (do v ← decode_varint_prefix (drop offset payload); ok (after_delimited v offset))
    else if wire_type == 5
    then ok (skip (offset + 4))
    else ok (answer false)

-- How the loop goes on after a round; `again` is the loop from an offset.
after_field : (ℕ → Option (Result Bool)) → Bytes → Result Field → Option (Result Bool)
after_field again payload (raise e) = some (raise e)
after_field again payload (ok (answer found)) = some (ok found)
after_field again payload (ok (skip offset)) =
    let rest = again offset in if ltb (length payload) offset then some (ok false) else rest

-- The result of the loop, whose fuel never runs out.
abbrev scanned : Option (Result Bool) → Result Bool
scanned none = raise key_error
scanned (some result) = result

module _ (lib : MessageLibrary) where
  open lib use {
    is_multihash, is_multiaddr, put_value, get_value, add_provider, get_providers, find_node, ping,
  }

  check_addrs : List Bytes → Result Done
  check_addrs [] = ok tt
  check_addrs (a ∷ as') = raise_if (not (is_multiaddr a)) library_error >> check_addrs as'

  check_peers : List PeerData → Result Done
  check_peers [] = ok tt
  check_peers (p ∷ ps) = do
    raise_if (not (is_multihash p.id)) library_error
    check_addrs p.addrs
    check_peers ps

  unfoldable pub validate_dht_response : Message → Message → Result Done
  unfolding check_peers check_addrs
  validate_dht_response request response = do
    raise_if (response.byte_size == 0) (value_error "DHT response type is missing")
    raise_if (not (request.kind == response.kind))
        (value_error "DHT response type does not match request type")
    raise_if (request.kind == ping)
        (value_error "DHT PING is not serving proof for this implementation")
    if request.kind == put_value
        then raise_if (not (acknowledges response request.record_key))
            (value_error "DHT PUT_VALUE response did not acknowledge the record key")
        else raise_if
            ((request.kind == get_value
                || request.kind == add_provider
                || request.kind == get_providers)
              && not (response.key ≟ request.key))
            (value_error "DHT response key does not match request key")
    raise_if (request.kind == get_value && other_record response.record_key request.key)
        (value_error "DHT value record key does not match request key")
    check_peers response.closer_peers
    check_peers response.provider_peers

  is_valid_type : ℕ → Bool
  is_valid_type n =
      n == put_value
      || n == get_value
      || n == add_provider
      || n == get_providers
      || n == find_node
      || n == ping

  type_value : Option (ℕ × ℕ) → Bool
  type_value none = false
  type_value (some v) = is_valid_type v.0

  -- The field of the key; `key >> 3` is a quotient and `key & 7` a remainder.
  keyed_field : Bytes → ℕ → Option (ℕ × ℕ) → Result Field
  unfolding type_value is_valid_type
  keyed_field payload offset none = ok (answer false)
  keyed_field payload offset (some tag) =
      let behind = offset + tag.1 in
      if tag.0 / 8 == 1 && tag.0 % 8 == 0
      then (do v ← decode_varint_prefix (drop behind payload); ok (answer (type_value v)))
      else skip_field payload (tag.0 % 8) behind

  read_field : Bytes → ℕ → Result Field
  unfolding keyed_field skip_field
  read_field payload offset = do
    tag ← decode_varint_prefix (drop offset payload)
    keyed_field payload offset tag

  -- The loop, with fuel; `none` means that the fuel ran out.
  unfoldable pub scan_fields : ℕ → Bytes → ℕ → Option (Result Bool)
  unfolding after_field read_field
  scan_fields zero payload offset = none
  scan_fields (suc fuel) payload offset =
      let round = after_field (scan_fields fuel payload) payload (read_field payload offset) in
      if ltb offset (length payload) then round else some (ok false)

  -- Each round moves the offset, so that the payload's length and one is enough fuel.
  unfoldable pub contains_type_field : Bytes → Result Bool
  unfolding scan_fields
  contains_type_field payload = scanned (scan_fields (suc (length payload)) payload 0)
