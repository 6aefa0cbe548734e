-- ===== src/Encoding/Update.antt =====
-- src/decent_registry/encoding.py: SignedUpdates, legacy and multisignature.
pub mod Roundtrip
pub mod Legacy
use decent_registry.Prelude.{
  ℕ, String, Bool, true, false, ◌&&◌, ◌||◌, not, Option, none, some, [], ◌∷◌, ◌==◌, if◌then◌else◌,
  length, Result, Done, ok, raise, value_error, type_error, library_error, ◌>>=◌, ◌>>◌, raise_if,
  or_raise, rethrow, ◌≟◌, bytes_eq,
}
use decent_registry.Cbor.{
  Bytes, Library, Value, int, bytes, dict, Entries, entry, end, get, has_keys, is_empty,
}
use decent_registry.Provider.Payload.{decode_provider_payload_dict}
use decent_registry.Encoding.Authorization.{
  Authorization, require_uint, validate_authorization_map, authorization_value,
  record_kind_identity, record_kind_provider,
}

-- What the decoders return: keys 1, 2 and 3, and key 4 of a multisignature update.
pub record SignedUpdate : Type 0 where
  pub record_fields : Entries
  pub payload : Entries
  pub seq : ℕ
  pub authorization : Option Authorization

-- `set(signed_update) == {1, 2, 3}`, of a decoded update.
abbrev pub is_legacy : Option Authorization → Bool
is_legacy none = true
is_legacy (some a) = false

-- `_validate_uint_keys`; the dict that it returns has the same entries.
unfoldable pub validate_uint_keys : Entries → Result Entries
validate_uint_keys end = ok end
validate_uint_keys (entry (int k) v d) = do rest ← validate_uint_keys d; ok (entry (int k) v rest)
validate_uint_keys (entry _ v d) = raise (type_error "keys must be non-negative ints")

unfoldable pub is_bytes : Option Value → Bool
is_bytes (some (bytes b)) = true
is_bytes _ = false

-- `isinstance(v, bytes) and len(v) == 32`, the two tests with their messages.
unfoldable pub check_32_bytes : Option Value → String → String → Result Done
check_32_bytes (some (bytes b)) not_bytes wrong_length =
    raise_if (not (length b == 32)) (value_error wrong_length)
check_32_bytes _ not_bytes wrong_length = raise (value_error not_bytes)

abbrev pub with_authorization : Option Authorization → Entries
with_authorization none = end
with_authorization (some a) = entry (int 4) (authorization_value a) end

-- The dict that is encoded.
abbrev pub update_entries : SignedUpdate → Entries
update_entries u = entry (int 1) (dict u.record_fields) (
    entry (int 2) (dict u.payload) (entry (int 3) (int u.seq) (with_authorization u.authorization)))

abbrev pub update_value : SignedUpdate → Value
update_value u = dict (update_entries u)

module _ (lib : Library) where
  unfoldable pub validate_record_kind_binding : Entries → Entries → ℕ → Result Done
  unfolding is_bytes check_32_bytes
  validate_record_kind_binding record_fields payload record_kind =
      if record_kind == record_kind_identity
      then (do
        raise_if (not (has_keys record_fields (1 ∷ 2 ∷ [])) || not (is_empty payload))
            (value_error "record_kind identity does not match SignedUpdate")
        raise_if (not (is_bytes (get record_fields 1)))
            (value_error "identity owner_name must be bytes")
        check_32_bytes (get record_fields 2) "identity owner public key must be bytes"
            "identity owner public key must be exactly 32 bytes")
      else if record_kind == record_kind_provider
      then (do
        raise_if (not (has_keys record_fields (1 ∷ [])))
            (value_error "record_kind provider does not match SignedUpdate")
        check_32_bytes (get record_fields 1) "provider owner public key must be bytes"
            "provider owner public key must be exactly 32 bytes"
        rethrow (decode_provider_payload_dict lib payload)
            (value_error "record_kind provider does not match SignedUpdate")
        ok tt)
      else raise (value_error "unsupported record_kind")

  -- `canonical_cbor`
  unfoldable pub canonical_cbor : Value → Result Bytes
  canonical_cbor v = or_raise (lib.dumps v) library_error

  unfoldable pub is_canonical_cbor : Bytes → Bool
  is_canonical_cbor b = elim (lib.loads b) [
    | none ↦ false
    | some v ↦ elim (lib.dumps v) [ none ↦ false | some canonical ↦ canonical ≟ b ]
  ]

  normalize_authorization : Entries → Entries → Option Value → Result (Option Authorization)
  normalize_authorization rf pl none = ok none
  normalize_authorization rf pl (some v) = do
    a ← validate_authorization_map v true
    validate_record_kind_binding rf pl a.record_kind
    ok (some a)

  -- `seq` is a natural number.
  unfoldable pub encode_signed_update : Entries → Entries → ℕ → Option Value → Result Bytes
  unfolding normalize_authorization canonical_cbor
  encode_signed_update record_fields payload seq authorization = do
    rf ← validate_uint_keys record_fields
    pl ← validate_uint_keys payload
    auth ← normalize_authorization rf pl authorization
    canonical_cbor (
        update_value (record { record_fields = rf; payload = pl; seq = seq; authorization = auth }))

  abbrev as_map : Option Value → String → Result Entries
  as_map (some (dict d)) m = ok d
  as_map _ m = raise (value_error m)

  decode_authorization : Entries → Entries → Option Value → Result (Option Authorization)
  decode_authorization rf pl none = ok none
  decode_authorization rf pl (some v) = do
    a ← validate_authorization_map v false
    validate_record_kind_binding rf pl a.record_kind
    ok (some a)

  unfoldable pub validate_decoded_signed_update : Entries → Result SignedUpdate
  unfolding decode_authorization
  validate_decoded_signed_update d = do
    raise_if (not (has_keys d (1 ∷ 2 ∷ 3 ∷ [])) && not (has_keys d (1 ∷ 2 ∷ 3 ∷ 4 ∷ [])))
        (value_error "SignedUpdate must have keys {1,2,3} or {1,2,3,4}")
    rf ← as_map (get d 1) "SignedUpdate record_fields and payload must be CBOR maps"
    pl ← as_map (get d 2) "SignedUpdate record_fields and payload must be CBOR maps"
    validate_uint_keys rf
    validate_uint_keys pl
    seq ← require_uint (get d 3)
    auth ← decode_authorization rf pl (get d 4)
    ok (record { record_fields = rf; payload = pl; seq = seq; authorization = auth })

  abbrev pub decode_map : Option Value → Result Entries
  decode_map (some (dict d)) = ok d
  decode_map _ = raise (value_error "SignedUpdate must be a CBOR map")

  unfoldable pub decode_canonical_signed_update : Bytes → Result SignedUpdate
  decode_canonical_signed_update b = do
    raise_if (not (is_canonical_cbor b)) (value_error "non-canonical or invalid CBOR")
    d ← decode_map (lib.loads b)
    validate_decoded_signed_update d

  -- The update with its authorization, which is present.
  unfoldable pub decode_multisignature_signed_update : Bytes → Result (SignedUpdate × Authorization)
  decode_multisignature_signed_update b = do
    u ← decode_canonical_signed_update b
    a ←
        or_raise u.authorization
          (value_error "multisignature SignedUpdate requires authorization key 4")
    ok (u, a)
