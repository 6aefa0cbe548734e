-- ===== src/Validator/Transition.antt =====
-- src/decent_registry/record_validator.py: `_validate_multisignature_transition`.
use decent_registry.Prelude.{
  Bool, true, false, ◌&&◌, not, Option, none, some, List, ◌==◌, if◌then◌else◌, Result, Done, ok,
  raise, value_error, already_withdrawn, ◌>>=◌, ◌>>◌, raise_if, ◌≟◌, bytes_eq,
}
use decent_registry.Cbor.{Bytes, Library}
use decent_registry.Provider.Payload.{ProviderPayload, decode_provider_payload_dict}
use decent_registry.Encoding.Authorization.{
  Authorization, record_kind_identity, record_kind_provider, operation_owner_key_rotation,
}
use decent_registry.Encoding.Update.{
  SignedUpdate, decode_canonical_signed_update, decode_multisignature_signed_update,
}
use decent_registry.Envelope.{decode_multisignature_envelope, decode_signed_envelope}
use decent_registry.Verification.Candidate.{
  MultisignatureState, is_withdrawn, verify_ed25519_signature,
}
use decent_registry.Verification.Replay.{
  validate_multisignature_history, validate_multisignature_update, validate_multisignature_envelope,
}
use decent_registry.Validator.Common.{
  is_multisignature_envelope, require_history_ending_at, field_bytes,
}

-- Whether the candidate is a Provider withdrawal; `none` is a candidate of another kind.
abbrev pub withdraws : Option ProviderPayload → Bool
withdraws none = false
withdraws (some p) = is_withdrawn p

abbrev pub is_missing {ℓ} : {A : Type ℓ} → Option A → Bool
is_missing none = true
is_missing (some a) = false

module _ (lib : Library) where
  unfoldable pub candidate_payload : SignedUpdate × Authorization → Result (Option ProviderPayload)
  candidate_payload (u, a) =
      if a.record_kind == record_kind_provider
      then (do p ← decode_provider_payload_dict lib u.payload; ok (some p))
      else ok none

  -- The state of an existing multisignature record.
  unfoldable pub existing_state :
      Bytes → Authorization → Bytes → Option (List Bytes) → Result MultisignatureState
  existing_state record_key a existing (some chain) = do
    require_history_ending_at chain existing
    validate_multisignature_history lib record_key chain
  existing_state record_key a existing none =
      if a.operation == operation_owner_key_rotation
      then raise (value_error "complete predecessor history is required for owner rotation")
      else (do
        s ← validate_multisignature_envelope lib record_key existing
        raise_if (a.record_kind == record_kind_identity && is_missing s.history)
            (value_error "complete predecessor history is required for Identity state")
        ok s)

  -- What is checked of an existing legacy record that the candidate withdraws.
  unfoldable pub check_legacy_predecessor : SignedUpdate → Bytes → Result Done
  check_legacy_predecessor candidate existing = do
    envelope ← decode_signed_envelope lib existing
    u ← decode_canonical_signed_update lib envelope.0
    payload ← decode_provider_payload_dict lib u.payload
    existing_owner ← field_bytes u.record_fields 1
    candidate_owner ← field_bytes candidate.record_fields 1
    valid ← verify_ed25519_signature lib existing_owner envelope.0 envelope.1
    raise_if (not valid) (value_error "invalid active predecessor signature")
    raise_if (not (existing_owner ≟ candidate_owner)) (value_error "owner collision")
    raise_if (is_withdrawn payload) already_withdrawn

  -- `current_state` and `legacy_envelope_cbor`.
  unfoldable pub predecessor_of :
      Bytes
      → SignedUpdate × Authorization
      → Option ProviderPayload
      → Option Bytes
      → Option (List Bytes)
      → Result (Option MultisignatureState × Option Bytes)
  unfolding existing_state check_legacy_predecessor
  predecessor_of record_key candidate payload none chain = ok (none, none)
  predecessor_of record_key candidate payload (some existing) chain =
      if is_multisignature_envelope lib existing
      then (do s ← existing_state record_key candidate.1 existing chain; ok (some s, none))
      else (do
        if withdraws payload then check_legacy_predecessor candidate.0 existing else ok tt
        ok (none, some existing))

  -- The checks of a withdrawal, on the state that the record had.
  unfoldable pub check_active_predecessor : Option MultisignatureState → Result Done
  check_active_predecessor none =
      raise (value_error "a Provider withdrawal requires a valid active predecessor")
  check_active_predecessor (some current) = do
    raise_if (not (current.record_kind == record_kind_provider))
        (value_error "a Provider withdrawal requires a valid active predecessor")
    decoded ← decode_multisignature_signed_update lib current.signed_update_bytes
    payload ← decode_provider_payload_dict lib decoded.0.payload
    raise_if (is_withdrawn payload) already_withdrawn

  unfoldable pub check_withdrawal :
      Option ProviderPayload → Option MultisignatureState → Result Done
  unfolding check_active_predecessor
  check_withdrawal payload current =
      if withdraws payload then check_active_predecessor current else ok tt

  unfoldable pub validate_multisignature_transition :
      Bytes → Bytes → Option Bytes → Option (List Bytes) → Result MultisignatureState
  unfolding candidate_payload predecessor_of check_withdrawal
  validate_multisignature_transition record_key envelope_cbor existing chain = do
    candidate ← decode_multisignature_envelope lib envelope_cbor
    decoded ← decode_multisignature_signed_update lib candidate.signed_update_bytes
    payload ← candidate_payload decoded
    raise_if (withdraws payload && is_missing existing)
        (value_error "a Provider withdrawal requires an active predecessor state")
    base ← predecessor_of record_key decoded payload existing chain
    s ← validate_multisignature_update lib record_key envelope_cbor base.0 base.1
    check_withdrawal payload base.0
    ok s
