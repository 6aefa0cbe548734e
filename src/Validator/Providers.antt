-- ===== src/Validator/Providers.antt =====
-- src/decent_registry/record_validator.py: the validators of Provider Records.
pub mod Replaced
pub mod Withdrawals
use decent_registry.Prelude.{
  ℕ, Bool, true, false, not, Option, none, some, List, [], leb, if◌then◌else◌, String, Result, Done,
  ok, raise, value_error, already_withdrawn, ◌>>=◌, ◌>>◌, raise_if, or_raise, ◌≟◌, ◌||◌, bytes_eq,
}
use decent_registry.Cbor.{Bytes, Text, Library, get}
use decent_registry.Provider.Chars.{from_hex}
use decent_registry.Provider.Payload.{
  ProviderPayload, active, withdrawn, ProviderPayloadV3, ProviderWithdrawnPayloadV2,
  decode_provider_payload_dict,
}
use decent_registry.Encoding.Authorization.{Authorization}
use decent_registry.Encoding.Update.{
  SignedUpdate, decode_canonical_signed_update, decode_multisignature_signed_update,
}
use decent_registry.Envelope.{decode_multisignature_envelope, decode_signed_envelope}
use decent_registry.Verification.Candidate.{
  MultisignatureState, bytes_field, is_withdrawn, object_hash_of, verify_ed25519_signature,
}
use decent_registry.Verification.Legacy.{validate_signed_update_overwrite}
use decent_registry.Verification.Replay.{validate_multisignature_envelope}
use decent_registry.Validator.Common.{
  AuthorizationMetadata, ProviderWithdrawnResult, ProviderRecordResult, ProviderOverwriteResult,
  ProviderOverwrite, written, tombstone, ProviderGet, legacy_payload, gone, found,
  is_multisignature_envelope, metadata_from_state, field_bytes, checked_bytes, prev_entry,
  seq_state_of,
}
use decent_registry.Validator.Transition.{is_missing, validate_multisignature_transition}

abbrev pub tombstone_of :
    ProviderWithdrawnPayloadV2
    → ℕ
    → Option AuthorizationMetadata
    → Option Bytes
    → ProviderWithdrawnResult
tombstone_of p seq authorization predecessor = record {
  object_hash = p.object_hash;
  seq = seq;
  replacement_object_hash = p.replacement_object_hash;
  authorization = authorization;
  predecessor_envelope_cbor = predecessor;
}

abbrev pub as_withdrawn : ProviderPayload → Result ProviderWithdrawnPayloadV2
as_withdrawn (active p) = raise (value_error "expected a Provider v2 tombstone")
as_withdrawn (withdrawn p) = ok p

-- `bytes.fromhex(object_hash) != record_key`
abbrev pub check_lookup_key : Text → Bytes → Result Done
check_lookup_key object_hash record_key = do
  key ← or_raise (from_hex object_hash) (value_error "non-hexadecimal number found")
  raise_if (not (key ≟ record_key)) (value_error "lookup-key mismatch")

module _ (lib : Library) where
  -- The withdrawal of a multisignature record that a transition has accepted.
  unfoldable pub withdraw_multisignature :
      SignedUpdate
      → ProviderWithdrawnPayloadV2
      → MultisignatureState
      → Option Bytes
      → Result ProviderOverwrite
  withdraw_multisignature u p s none =
      raise (value_error "a Provider withdrawal requires an active predecessor state")
  withdraw_multisignature u p s (some existing) = do
    envelope ← decode_multisignature_envelope lib existing
    current ← decode_multisignature_signed_update lib envelope.signed_update_bytes
    payload ← decode_provider_payload_dict lib current.0.payload
    raise_if (is_withdrawn payload) already_withdrawn
    current_owner ← field_bytes current.0.record_fields 1
    proposed_owner ← field_bytes u.record_fields 1
    raise_if (not (current_owner ≟ proposed_owner)) (value_error "owner binding mismatch")
    raise_if (leb u.seq current.0.seq) (value_error "seq must be strictly increasing")
    m ← metadata_from_state lib s
    ok (tombstone (tombstone_of p u.seq (some m) (some existing)))

  unfoldable pub multisignature_overwrite :
      Bytes
      → SignedUpdate
      → ProviderPayload
      → MultisignatureState
      → Option Bytes
      → Result ProviderOverwrite
  unfolding withdraw_multisignature
  multisignature_overwrite record_key u (withdrawn p) s existing =
      withdraw_multisignature u p s existing
  multisignature_overwrite record_key u (active p) s existing = do
    owner ← field_bytes u.record_fields 1
    m ← metadata_from_state lib s
    ok (
        written (record {
          record_key = record_key;
          object_hash_hex = p.object_hash;
          owner_public_key = owner;
          seq = u.seq;
          authorization = some m;
          state = some s;
        }))

  -- The withdrawal of a legacy record; a multisignature one has been refused before.
  unfoldable pub withdraw_legacy :
      Bytes
      → SignedUpdate
      → Bytes
      → ProviderWithdrawnPayloadV2
      → Option Bytes
      → Result ProviderOverwrite
  withdraw_legacy record_key u owner p none =
      raise (value_error "a Provider withdrawal requires an active predecessor state")
  withdraw_legacy record_key u owner p (some existing) = do
    envelope ← decode_signed_envelope lib existing
    current ← decode_canonical_signed_update lib envelope.0
    current_owner ← field_bytes current.record_fields 1
    valid ← verify_ed25519_signature lib current_owner envelope.0 envelope.1
    raise_if (not valid || not (current_owner ≟ owner))
        (value_error "invalid or mismatched active predecessor owner")
    payload ← decode_provider_payload_dict lib current.payload
    raise_if (is_withdrawn payload) already_withdrawn
    raise_if (not (object_hash_of payload ≟ p.object_hash))
        (value_error "active predecessor Object Hash does not match")
    raise_if (leb u.seq current.seq) (value_error "seq must be strictly increasing")
    check_lookup_key p.object_hash record_key
    ok (tombstone (tombstone_of p u.seq none (some existing)))

  unfoldable pub legacy_overwrite :
      Bytes → SignedUpdate → Bytes → ProviderPayload → Option Bytes → Result ProviderOverwrite
  unfolding withdraw_legacy
  legacy_overwrite record_key u owner (withdrawn p) existing =
      withdraw_legacy record_key u owner p existing
  legacy_overwrite record_key u owner (active p) existing = ok (
      written (record {
        record_key = record_key;
        object_hash_hex = p.object_hash;
        owner_public_key = owner;
        seq = u.seq;
        authorization = none;
        state = none;
      }))

  -- Whether there is an existing record with multisignature.
  abbrev pub is_upgraded : Option Bytes → Bool
  is_upgraded none = false
  is_upgraded (some existing) = is_multisignature_envelope lib existing

  unfoldable pub validate_provider_overwrite :
      Bytes → Bytes → Option Bytes → Result ProviderOverwrite
  unfolding multisignature_overwrite legacy_overwrite
  validate_provider_overwrite record_key envelope_cbor existing =
      if is_multisignature_envelope lib envelope_cbor
      then (do
        s ← validate_multisignature_transition lib record_key envelope_cbor existing none
        decoded ← decode_multisignature_signed_update lib s.signed_update_bytes
        payload ← decode_provider_payload_dict lib decoded.0.payload
        multisignature_overwrite record_key decoded.0 payload s existing)
      else (do
        raise_if (is_upgraded existing)
            (value_error "legacy writes are rejected after multisignature upgrade")
        envelope ← decode_signed_envelope lib envelope_cbor
        validate_signed_update_overwrite lib record_key envelope.0 envelope.1
            (seq_state_of record_key (prev_entry lib 1 existing)) false
        u ← decode_canonical_signed_update lib envelope.0
        owner ← checked_bytes (get u.record_fields 1) "provider owner_public_key must be bytes"
        payload ← decode_provider_payload_dict lib u.payload
        legacy_overwrite record_key u owner payload existing)

  -- `_validate_legacy_provider_withdrawal`
  unfoldable pub validate_legacy_provider_withdrawal :
      Bytes → Bytes → Bytes → Result ProviderWithdrawnResult
  validate_legacy_provider_withdrawal record_key envelope_cbor existing = do
    envelope ← decode_signed_envelope lib envelope_cbor
    validate_signed_update_overwrite lib record_key envelope.0 envelope.1 [] false
    u ← decode_canonical_signed_update lib envelope.0
    decoded ← decode_provider_payload_dict lib u.payload
    p ← as_withdrawn decoded
    previous ← decode_signed_envelope lib existing
    current ← decode_canonical_signed_update lib previous.0
    raise_if (is_missing (get current.record_fields 1))
        (value_error "invalid active Provider predecessor")
    current_owner ← field_bytes current.record_fields 1
    owner ← field_bytes u.record_fields 1
    payload ← decode_provider_payload_dict lib current.payload
    raise_if (is_withdrawn payload) already_withdrawn
    raise_if (not (current_owner ≟ owner))
        (value_error "withdrawal owner does not match active predecessor")
    valid ← verify_ed25519_signature lib current_owner previous.0 previous.1
    raise_if (not valid) (value_error "invalid active predecessor signature")
    raise_if (not (object_hash_of payload ≟ p.object_hash))
        (value_error "active predecessor Object Hash does not match")
    check_lookup_key p.object_hash record_key
    raise_if (leb u.seq current.seq) (value_error "seq must be strictly increasing")
    ok (tombstone_of p u.seq none (some existing))

  unfoldable pub get_multisignature :
      Bytes → Bytes → SignedUpdate → ProviderPayload → Option Bytes → Result ProviderGet
  get_multisignature record_key envelope_cbor u (active p) existing = do
    s ← validate_multisignature_envelope lib record_key envelope_cbor
    m ← metadata_from_state lib s
    ok (found (record { payload = p; seq = u.seq; authorization = m }))
  get_multisignature record_key envelope_cbor u (withdrawn p) none =
      raise (value_error "withdrawn Provider result requires a verified predecessor")
  get_multisignature record_key envelope_cbor u (withdrawn p) (some existing) = do
    s ← validate_multisignature_transition lib record_key envelope_cbor (some existing) none
    m ← metadata_from_state lib s
    ok (gone (tombstone_of p u.seq (some m) (some existing)))

  unfoldable pub get_legacy :
      Bytes → Bytes → Bytes × Bytes → ProviderPayload → Option Bytes → Result ProviderGet
  unfolding validate_legacy_provider_withdrawal
  get_legacy record_key envelope_cbor envelope (active p) existing = do
    validate_signed_update_overwrite lib record_key envelope.0 envelope.1 [] false
    ok (legacy_payload p)
  get_legacy record_key envelope_cbor envelope (withdrawn p) none =
      raise (value_error "withdrawn Provider result requires a verified predecessor")
  get_legacy record_key envelope_cbor envelope (withdrawn p) (some existing) = do
    r ← validate_legacy_provider_withdrawal record_key envelope_cbor existing
    ok (gone r)

  unfoldable pub validate_provider_get : Bytes → Bytes → Option Bytes → Result ProviderGet
  unfolding get_multisignature get_legacy
  validate_provider_get record_key envelope_cbor existing =
      if is_multisignature_envelope lib envelope_cbor
      then (do
        envelope ← decode_multisignature_envelope lib envelope_cbor
        decoded ← decode_multisignature_signed_update lib envelope.signed_update_bytes
        payload ← decode_provider_payload_dict lib decoded.0.payload
        get_multisignature record_key envelope_cbor decoded.0 payload existing)
      else (do
        envelope ← decode_signed_envelope lib envelope_cbor
        u ← decode_canonical_signed_update lib envelope.0
        payload ← decode_provider_payload_dict lib u.payload
        get_legacy record_key envelope_cbor envelope payload existing)
