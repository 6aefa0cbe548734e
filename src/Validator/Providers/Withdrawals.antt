-- ===== src/Validator/Providers/Withdrawals.antt =====
-- src/decent_registry/record_validator.py: what a Provider withdrawal that is accepted replaces.
use decent_registry.Prelude.{
  true, false, Option, none, some, ◌≡◌, refl, arith, ok, succeeded, Bool-cases, inl, inr, bytes_eq,
}
use decent_registry.Cbor.{Bytes, Library, Value, get, bytes}
use decent_registry.Provider.Payload.{
  ProviderPayload, active, withdrawn, decode_provider_payload_dict,
}
use decent_registry.Encoding.Update.{
  SignedUpdate, decode_canonical_signed_update, decode_multisignature_signed_update,
}
use decent_registry.Envelope.{decode_signed_envelope}
use decent_registry.Verification.Candidate.{MultisignatureState}
use decent_registry.Verification.Legacy.{validate_signed_update_overwrite}
use decent_registry.Verification.Replay.Candidates.{Holds, IsStateIn-Holds}
use decent_registry.Validator.Accepted.{validate_multisignature_transition-IsStateIn}
use decent_registry.Validator.Common.{
  ProviderWithdrawnResult, tombstone, is_multisignature_envelope, metadata_from_state, python_bytes,
  field_bytes, checked_bytes, prev_entry, seq_state_of,
}
use decent_registry.Validator.Transition.{validate_multisignature_transition}
use decent_registry.Validator.Providers.{
  multisignature_overwrite, legacy_overwrite, validate_provider_overwrite,
}
use decent_registry.Validator.Providers.Replaced.{
  IsWithdrawal, withdraw_multisignature-IsWithdrawal, withdraw_legacy-IsWithdrawal,
}

module _ (lib : Library) where
  field_bytes-checked :
      (v : Option Value) (owner : Bytes)
      → checked_bytes v "provider owner_public_key must be bytes" ≡ ok owner
      → v ≡ some (bytes owner)
  field_bytes-checked none owner h = cc
  field_bytes-checked (some (bytes b)) owner h = ground arith
  field_bytes-checked (some v) owner h = absurd (ground arith)

  module _ (key envelope : Bytes) where
    multisignature_overwrite-IsWithdrawal :
        is_multisignature_envelope lib envelope ≡ true
        → (u : SignedUpdate) (p : ProviderPayload) (s : MultisignatureState)
          (existing : Option Bytes) (r : ProviderWithdrawnResult)
        → Holds lib envelope u
        → decode_provider_payload_dict lib u.payload ≡ ok p
        → multisignature_overwrite lib key u p s existing ≡ ok (tombstone r)
        → IsWithdrawal lib key envelope existing r
    unfolding multisignature_overwrite
    multisignature_overwrite-IsWithdrawal multi u (withdrawn p) s existing r proposed known h =
        withdraw_multisignature-IsWithdrawal lib key envelope multi u p s existing r proposed known
          h
    multisignature_overwrite-IsWithdrawal multi u (active p) s existing r proposed known h =
        succeeded (field_bytes u.record_fields 1) (λ x y. ground arith)
          λ owner has.
            succeeded (metadata_from_state lib s) (λ x y. ground arith)
              λ m described. absurd (ground arith)

    legacy_overwrite-IsWithdrawal :
        (u : SignedUpdate) (owner : Bytes) (p : ProviderPayload) (existing : Option Bytes)
        (r : ProviderWithdrawnResult)
        → Holds lib envelope u
        → decode_provider_payload_dict lib u.payload ≡ ok p
        → field_bytes u.record_fields 1 ≡ ok owner
        → legacy_overwrite lib key u owner p existing ≡ ok (tombstone r)
        → IsWithdrawal lib key envelope existing r
    unfolding legacy_overwrite
    legacy_overwrite-IsWithdrawal u owner (withdrawn p) existing r proposed known has h =
        withdraw_legacy-IsWithdrawal lib key envelope u owner p existing r proposed known has h
    legacy_overwrite-IsWithdrawal u owner (active p) existing r proposed known has h =
        absurd (ground arith)

  field_bytes-present :
      (u : SignedUpdate) (owner : Bytes)
      → checked_bytes (get u.record_fields 1) "provider owner_public_key must be bytes" ≡ ok owner
      → field_bytes u.record_fields 1 ≡ ok owner
  unfolding field_bytes python_bytes
  field_bytes-present u owner h = rw (field_bytes-checked (get u.record_fields 1) owner h) refl

  -- A withdrawal that an overwrite accepts, multisignature or legacy, is the one that the envelope
  -- decodes to: its object hash, its replacement and its sequence number are those that are
  -- returned. It replaces an existing record, which is returned as its predecessor and decodes to an
  -- update with an active payload, the same owner's key in its field and a smaller sequence number.
  -- For a legacy withdrawal that record is signed by this owner and of the same object hash, whose
  -- bytes are the looked-up key.
  pub validate_provider_overwrite-IsWithdrawal :
      (key envelope_cbor : Bytes) (existing : Option Bytes) (r : ProviderWithdrawnResult)
      → validate_provider_overwrite lib key envelope_cbor existing ≡ ok (tombstone r)
      → IsWithdrawal lib key envelope_cbor existing r
  unfolding validate_provider_overwrite
  validate_provider_overwrite-IsWithdrawal key e existing r h =
      elim (Bool-cases (is_multisignature_envelope lib e)) [
        | inl multi ↦
            succeeded (validate_multisignature_transition lib key e existing none)
              (λ x y. ground arith)
              λ s accepted.
                succeeded (decode_multisignature_signed_update lib s.signed_update_bytes)
                  (λ x y. ground arith)
                  λ decoded read.
                    succeeded (decode_provider_payload_dict lib decoded.0.payload)
                      (λ x y. ground arith)
                      λ p known.
                        multisignature_overwrite-IsWithdrawal key e multi decoded.0 p s existing r
                          (IsStateIn-Holds lib e s decoded
                            (validate_multisignature_transition-IsStateIn lib key e existing none s
                              accepted)
                            read)
                          known (ground arith)
        | inr legacy ↦
            succeeded (decode_signed_envelope lib e) (λ x y. ground arith)
              λ envelope opened.
                succeeded
                  (validate_signed_update_overwrite lib key envelope.0 envelope.1
                    (seq_state_of key (prev_entry lib 1 existing)) false)
                  (λ x y. ground arith)
                  λ v valid.
                    succeeded (decode_canonical_signed_update lib envelope.0) (λ x y. ground arith)
                      λ u read.
                        succeeded
                          (checked_bytes (get u.record_fields 1)
                            "provider owner_public_key must be bytes")
                          (λ x y. ground arith)
                          λ owner has.
                            succeeded (decode_provider_payload_dict lib u.payload)
                              (λ x y. ground arith)
                              λ p known.
                                legacy_overwrite-IsWithdrawal key e u owner p existing r
                                  (Holds.legacy envelope opened read) known
                                  (field_bytes-present u owner has) (ground arith)
      ]
