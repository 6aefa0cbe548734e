-- ===== src/Validator/Identities.antt =====
-- src/decent_registry/record_validator.py: the validators of Identity Records.
pub mod Gets
use decent_registry.Prelude.{
  ℕ, Bool, true, false, not, Option, none, some, List, [], ◌==◌, if◌then◌else◌, Result, ok, raise,
  value_error, ◌>>=◌, ◌>>◌, raise_if,
}
use decent_registry.Cbor.{Bytes, Library, get}
use decent_registry.Encoding.Authorization.{record_kind_identity}
use decent_registry.Encoding.Update.{
  SignedUpdate, decode_canonical_signed_update, decode_multisignature_signed_update,
}
use decent_registry.Envelope.{decode_signed_envelope}
use decent_registry.Verification.Candidate.{MultisignatureState}
use decent_registry.Verification.Legacy.{validate_signed_update_overwrite}
use decent_registry.Verification.Replay.{
  validate_multisignature_history, validate_multisignature_envelope,
}
use decent_registry.Validator.Common.{
  IdentityOverwriteResult, IdentityRecordResult, IdentityGet, legacy_identity, identity_found,
  to_hex, field_bytes, checked_bytes, require_history_ending_at, prev_entry, seq_state_of,
  is_multisignature_envelope, metadata_from_state,
}
use decent_registry.Validator.Transition.{is_missing, validate_multisignature_transition}
use decent_registry.Validator.Providers.{is_upgraded}

-- The result of a legacy update that has been accepted.
unfoldable pub legacy_result : Bytes → SignedUpdate → Result IdentityOverwriteResult
legacy_result record_key u = do
  name ← checked_bytes (get u.record_fields 1) "identity owner_name must be bytes"
  owner ← checked_bytes (get u.record_fields 2) "identity owner_public_key must be bytes"
  ok (record {
    record_key = record_key;
    object_key_hex = to_hex record_key;
    owner_public_key = owner;
    owner_name_hex = to_hex name;
    seq = u.seq;
    authorization = none;
    state = none;
  })

module _ (lib : Library) where
  unfoldable pub validate_identity_overwrite :
      Bytes → Bytes → Option Bytes → Option (List Bytes) → Result IdentityOverwriteResult
  unfolding legacy_result
  validate_identity_overwrite record_key envelope_cbor existing chain =
      if is_multisignature_envelope lib envelope_cbor
      then (do
        s ← validate_multisignature_transition lib record_key envelope_cbor existing chain
        decoded ← decode_multisignature_signed_update lib s.signed_update_bytes
        name ← field_bytes decoded.0.record_fields 1
        owner ← field_bytes decoded.0.record_fields 2
        m ← metadata_from_state lib s
        ok (record {
          record_key = record_key;
          object_key_hex = to_hex record_key;
          owner_public_key = owner;
          owner_name_hex = to_hex name;
          seq = decoded.0.seq;
          authorization = some m;
          state = some s;
        }))
      else (do
        raise_if (is_upgraded lib existing)
            (value_error "legacy writes are rejected after multisignature upgrade")
        envelope ← decode_signed_envelope lib envelope_cbor
        validate_signed_update_overwrite lib record_key envelope.0 envelope.1
            (seq_state_of record_key (prev_entry lib 2 existing)) false
        u ← decode_canonical_signed_update lib envelope.0
        legacy_result record_key u)

  -- The state that a multisignature identity is read with.
  unfoldable pub identity_state : Bytes → Bytes → Option (List Bytes) → Result MultisignatureState
  identity_state record_key envelope_cbor (some chain) = do
    require_history_ending_at chain envelope_cbor
    validate_multisignature_history lib record_key chain
  identity_state record_key envelope_cbor none =
      validate_multisignature_envelope lib record_key envelope_cbor

  unfoldable pub get_multisignature_identity :
      Bytes → MultisignatureState → Result IdentityRecordResult
  get_multisignature_identity record_key s = do
    raise_if (not (s.record_kind == record_kind_identity))
        (value_error "expected an Identity Record")
    raise_if (is_missing s.history)
        (value_error "complete predecessor history is required for Identity state")
    decoded ← decode_multisignature_signed_update lib s.signed_update_bytes
    owner ← field_bytes decoded.0.record_fields 2
    name ← field_bytes decoded.0.record_fields 1
    m ← metadata_from_state lib s
    ok (record {
      record_key = record_key;
      object_key_hex = to_hex record_key;
      owner_public_key = owner;
      owner_name_hex = to_hex name;
      seq = decoded.0.seq;
      authorization = m;
    })

  unfoldable pub validate_identity_get : Bytes → Bytes → Option (List Bytes) → Result IdentityGet
  unfolding identity_state get_multisignature_identity legacy_result
  validate_identity_get record_key envelope_cbor chain =
      if is_multisignature_envelope lib envelope_cbor
      then (do
        s ← identity_state record_key envelope_cbor chain
        r ← get_multisignature_identity record_key s
        ok (identity_found r))
      else (do
        envelope ← decode_signed_envelope lib envelope_cbor
        validate_signed_update_overwrite lib record_key envelope.0 envelope.1 [] false
        u ← decode_canonical_signed_update lib envelope.0
        r ← legacy_result record_key u
        ok (legacy_identity r))
