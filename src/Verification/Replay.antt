-- ===== src/Verification/Replay.antt =====
-- src/decent_registry/verification.py: the dispatch on the operation, and the replay of a history.
pub mod Candidates
pub mod Lineage
pub mod Invariants
pub mod Incremental
use decent_registry.Prelude.{
  ℕ, Bool, true, false, ◌&&◌, ◌||◌, not, Option, none, some, List, [], ◌∷◌, ◌==◌, if◌then◌else◌,
  Result, ok, raise, value_error, ◌>>=◌, ◌>>◌, raise_if, or_raise, ◌≟◌, bytes_eq, optional_eq,
  history_eq,
}
use decent_registry.Cbor.{Bytes, Library}
use decent_registry.Encoding.Authorization.{
  record_kind_identity, operation_genesis, operation_ordinary_update, operation_replace_signers,
  operation_upgrade, operation_owner_key_rotation,
}
use decent_registry.Encoding.Update.{decode_multisignature_signed_update}
use decent_registry.Envelope.{decode_multisignature_envelope}
use decent_registry.Verification.Candidate.{
  MultisignatureState, Candidate, bytes_field, owner_field, signer_id_for_public_key,
  require_complete_2_of_3, decode_multisignature_candidate, candidate_state,
  validate_threshold_proofs,
}
use decent_registry.Verification.Transitions.{
  is_single_proof, is_identity_shape, require_single_proof, decode_legacy_state,
  validate_multisignature_genesis, validate_multisignature_ordinary_update,
  validate_multisignature_signer_replacement, validate_multisignature_upgrade,
  validate_owner_rotation_from_legacy, validate_owner_rotation_from_state,
}

abbrev is_absent {ℓ} : {A : Type ℓ} → Option A → Bool
is_absent none = true
is_absent (some _) = false

module _ (lib : Library) where
  -- The branches that extend an accepted state; the other arguments have been looked at.
  abbrev extend_state : Bytes → Bytes → ℕ → MultisignatureState → Result MultisignatureState
  extend_state record_key envelope_cbor operation s =
      if operation == operation_ordinary_update
      then validate_multisignature_ordinary_update lib record_key envelope_cbor s
      else if operation == operation_replace_signers
      then validate_multisignature_signer_replacement lib record_key envelope_cbor s
      else raise (value_error "unsupported multisignature operation")

  -- `validate_multisignature_update` on every operation but the rotation of the owner's key.
  unfoldable pub dispatch_other :
      Bytes → Bytes → ℕ → Option MultisignatureState → Option Bytes → Result MultisignatureState
  dispatch_other record_key envelope_cbor operation current legacy =
      if operation == operation_genesis
      then (do
        raise_if (not (is_absent current) || not (is_absent legacy))
            (value_error "genesis cannot extend an existing state")
        validate_multisignature_genesis lib record_key envelope_cbor)
      else if operation == operation_upgrade
      then (do
        legacy_envelope ←
            or_raise legacy
              (value_error "current multisignature state or legacy owner state is required")
        raise_if (not (is_absent current))
            (value_error "current multisignature state or legacy owner state is required")
        validate_multisignature_upgrade lib record_key envelope_cbor legacy_envelope)
      else (do
        s ← or_raise current (value_error "current multisignature state is required")
        raise_if (not (is_absent legacy))
            (value_error "legacy state is only valid for an upgrade or owner rotation")
        extend_state record_key envelope_cbor operation s)

  -- One round of the loop of `validate_multisignature_history`. Before the first state stands the
  -- legacy anchor. In the loop `validate_multisignature_update` meets no rotation, so what it
  -- calls there is `dispatch_other`.
  unfoldable pub replay_step :
      Bytes → Option Bytes → Option MultisignatureState → Bytes → Result MultisignatureState
  replay_step record_key anchor none envelope_cbor = do
    c ← decode_multisignature_candidate lib envelope_cbor
    legacy ← or_raise anchor (value_error "complete predecessor history is required")
    let operation = c.authorization.operation
    if operation == operation_upgrade
        then validate_multisignature_upgrade lib record_key envelope_cbor legacy
        else if operation == operation_owner_key_rotation
        then validate_owner_rotation_from_legacy lib record_key envelope_cbor legacy
        else raise (value_error "legacy anchor must be followed by upgrade or rotation")
  replay_step record_key anchor (some s) envelope_cbor = do
    c ← decode_multisignature_candidate lib envelope_cbor
    let operation = c.authorization.operation
    if operation == operation_owner_key_rotation
        then validate_owner_rotation_from_state lib record_key envelope_cbor s none
        else dispatch_other record_key envelope_cbor operation (some s) none

  unfoldable pub replay_all :
      Bytes
      → Option Bytes
      → Option MultisignatureState
      → List Bytes
      → Result (Option MultisignatureState)
  replay_all record_key anchor current [] = ok current
  replay_all record_key anchor current (e ∷ es) = do
    next ← replay_step record_key anchor current e
    replay_all record_key anchor (some next) es

  -- The first entry: a legacy identity, or a genesis.
  unfoldable pub replay_anchor : Bytes → Bytes → Result (Option Bytes × Option MultisignatureState)
  replay_anchor record_key first = elim (decode_multisignature_envelope lib first) [
    | raise _ ↦ (do
      legacy ← decode_legacy_state lib record_key first
      raise_if (not (legacy.record_kind == record_kind_identity) || not (is_identity_shape legacy))
          (value_error "history anchor is not a valid legacy Identity Record")
      ok (some first, none))
    | ok envelope ↦ (do
      decoded ← decode_multisignature_signed_update lib envelope.signed_update_bytes
      raise_if (not (decoded.1.record_kind == record_kind_identity))
          (value_error "predecessor history is not an Identity Record")
      raise_if (not (decoded.1.operation == operation_genesis))
          (value_error "predecessor history must begin at a signed anchor")
      s ← validate_multisignature_genesis lib record_key first
      ok (none, some s))
  ]

  unfoldable pub validate_multisignature_history : Bytes → List Bytes → Result MultisignatureState
  validate_multisignature_history record_key [] =
      raise (value_error "complete predecessor history is required")
  validate_multisignature_history record_key (first ∷ rest) = do
    start ← replay_anchor record_key first
    end ← replay_all record_key start.0 start.1 rest
    s ← or_raise end (value_error "predecessor history must include a multisignature state")
    raise_if (not (s.history ≟ some (first ∷ rest)))
        (value_error "predecessor history is incomplete or inconsistent")
    ok s

  -- The rotation branch of `validate_multisignature_update`.
  unfoldable pub dispatch_rotation :
      Bytes → Bytes → Option MultisignatureState → Option Bytes → Result MultisignatureState
  dispatch_rotation record_key envelope_cbor none legacy = do
    legacy_envelope ←
        or_raise legacy
          (value_error "verified predecessor state is required for owner-key rotation")
    validate_owner_rotation_from_legacy lib record_key envelope_cbor legacy_envelope
  dispatch_rotation record_key envelope_cbor (some s) legacy = do
    raise_if (not (is_absent legacy))
        (value_error "legacy state cannot accompany a multisignature predecessor")
    validate_owner_rotation_from_state lib record_key envelope_cbor s
        (some (validate_multisignature_history record_key))

  unfoldable pub validate_multisignature_update :
      Bytes → Bytes → Option MultisignatureState → Option Bytes → Result MultisignatureState
  validate_multisignature_update record_key envelope_cbor current legacy = do
    c ← decode_multisignature_candidate lib envelope_cbor
    let operation = c.authorization.operation
    if operation == operation_owner_key_rotation
        then dispatch_rotation record_key envelope_cbor current legacy
        else dispatch_other record_key envelope_cbor operation current legacy

  -- `validate_multisignature_envelope` after the genesis branch.
  unfoldable pub self_contained : Bytes → Candidate → Result MultisignatureState
  self_contained record_key c = do
    let a = c.authorization
    raise_if
        (a.record_kind == record_kind_identity
          && (a.operation == operation_ordinary_update
              || a.operation == operation_replace_signers
              || a.operation == operation_upgrade))
        (value_error "complete predecessor history is required for Identity state")
    if a.operation == operation_upgrade
        then (do
          raise_if (not (a.epoch == 1)) (value_error "upgrade epoch must be 1")
          require_complete_2_of_3 a
          raise_if (not (is_single_proof c.envelope.proofs))
              (value_error "upgrade requires one legacy owner proof")
          owner ← bytes_field c.record_fields (owner_field a.record_kind)
          signer_id ← signer_id_for_public_key a owner
          require_single_proof lib c.signed_update_bytes c.envelope.proofs (some signer_id) owner
              "upgrade requires one legacy owner proof" "legacy owner proof signer_id mismatch"
              "invalid legacy owner proof"
          candidate_state lib record_key c none)
        else (do
          raise_if (a.operation == operation_owner_key_rotation)
              (value_error "complete predecessor history is required for owner rotation")
          raise_if
              (not (
                a.operation == operation_ordinary_update
                || a.operation == operation_replace_signers))
              (value_error "unsupported multisignature operation")
          validate_threshold_proofs lib c.signed_update_bytes c.envelope a.signer_set a.threshold
          candidate_state lib record_key c none)

  unfoldable pub validate_multisignature_envelope : Bytes → Bytes → Result MultisignatureState
  validate_multisignature_envelope record_key envelope_cbor = do
    c ← decode_multisignature_candidate lib envelope_cbor
    raise_if (not (c.record_key ≟ record_key)) (value_error "lookup-key mismatch")
    if c.authorization.operation == operation_genesis
        then validate_multisignature_genesis lib record_key envelope_cbor
        else self_contained record_key c
