-- ===== src/Tests/Lineages.antt =====
-- verification.py on small data.
use decent_registry.Prelude.{
  List, [], ◌∷◌, none, some, ◌≡◌, refl, Result, ok, raise, value_error, ◌↔◌, ◌⊎◌, bytes_eq,
  optional_eq, pairs_eq, proofs_eq, history_eq,
}
use decent_registry.Prelude.Sorting.{bytes_le, sort}
use decent_registry.Cbor.{Bytes}
use decent_registry.Encoding.Authorization.{
  require_uint, validate_signer_entries, validate_authorization_map,
}
use decent_registry.Encoding.Update.{
  validate_uint_keys, validate_record_kind_binding, is_canonical_cbor,
  validate_decoded_signed_update, decode_canonical_signed_update,
  decode_multisignature_signed_update,
}
use decent_registry.Envelope.{
  MultisignatureEnvelope, validate_proofs, decode_signed_envelope, decode_multisignature_envelope,
}
use decent_registry.Verification.Candidate.{
  MultisignatureState, bytes_field, public_key_of, ids_of, signer_id_for_public_key,
  require_complete_2_of_3, append_history, require_signature, extract_identity_and_keys,
  decode_multisignature_candidate, candidate_state, validate_threshold_proofs,
}
use decent_registry.Verification.Transitions.{
  same_bytes, is_single_proof, require_single_proof, check_replayed, validate_common_transition,
  validate_multisignature_genesis, validate_multisignature_ordinary_update,
  validate_multisignature_signer_replacement, legacy_keys, decode_legacy_state,
  validate_multisignature_upgrade, validate_owner_rotation_invariants,
  validate_owner_rotation_from_legacy, validate_owner_rotation_from_state,
}
use decent_registry.Verification.Replay.{
  dispatch_other, replay_step, replay_all, replay_anchor, dispatch_rotation,
  validate_multisignature_history, validate_multisignature_update,
}
use decent_registry.Verification.Candidate.Quorum.{Quorum, validate_threshold_proofs-Quorum}
use decent_registry.Verification.Transitions.Extensions.{
  Ordinary, Replacement, Rotation, validate_multisignature_ordinary_update-Ordinary,
  validate_multisignature_signer_replacement-Replacement,
  validate_owner_rotation_from_state-Rotation,
}
use decent_registry.Verification.Transitions.Anchors.{
  Genesis, Upgrade, LegacyRotation, validate_multisignature_genesis-Genesis,
  validate_multisignature_upgrade-Upgrade, validate_owner_rotation_from_legacy-LegacyRotation,
}
use decent_registry.Verification.Replay.Lineage.{Lineage, validate_multisignature_history-Lineage}
use decent_registry.Verification.Replay.Invariants.{
  IsSuccessor, IsTwoOfThree, validate_multisignature_update-IsSuccessor,
  validate_multisignature_history-IsTwoOfThree,
}
use decent_registry.Verification.Replay.Incremental.{validate_multisignature_history-append}
use decent_registry.Tests.Toy.{
  toy, two_proofs, key, key_a, key_b, signers, new_signers, envelope, state,
}

unfoldable pub decode : Bytes → Result MultisignatureState
unfolding bytes_eq optional_eq pairs_eq proofs_eq bytes_le sort require_uint validate_signer_entries
    validate_authorization_map validate_uint_keys validate_record_kind_binding is_canonical_cbor
    validate_decoded_signed_update decode_canonical_signed_update
    decode_multisignature_signed_update validate_proofs decode_signed_envelope
    decode_multisignature_envelope extract_identity_and_keys decode_multisignature_candidate
    bytes_field candidate_state public_key_of validate_threshold_proofs require_signature
    require_complete_2_of_3 validate_multisignature_genesis
decode e = validate_multisignature_genesis toy key e

unfoldable pub extend : Bytes → MultisignatureState → Result MultisignatureState
unfolding decode validate_common_transition append_history validate_multisignature_ordinary_update
    validate_multisignature_signer_replacement ids_of signer_id_for_public_key same_bytes
    is_single_proof require_single_proof legacy_keys decode_legacy_state
    validate_multisignature_upgrade validate_owner_rotation_invariants
    validate_owner_rotation_from_legacy validate_owner_rotation_from_state dispatch_other
    dispatch_rotation check_replayed validate_multisignature_update
extend e s = validate_multisignature_update toy key e (some s) none

unfoldable pub replay : List Bytes → Result MultisignatureState
unfolding extend history_eq replay_step replay_all replay_anchor validate_multisignature_history
replay = validate_multisignature_history toy key

abbrev genesis_envelope : MultisignatureEnvelope
genesis_envelope = record { version = 1; signed_update_bytes = 1 ∷ []; proofs = two_proofs }

abbrev pub genesis : MultisignatureState
genesis = state key_a 1 1 signers (envelope 1 ∷ [])

abbrev pub updated : MultisignatureState
updated = state key_a 2 1 signers (envelope 1 ∷ envelope 2 ∷ [])

abbrev upgraded : MultisignatureState
upgraded = state key_a 8 1 signers (envelope 4 ∷ envelope 8 ∷ [])

history-genesis : validate_multisignature_history toy key (envelope 1 ∷ []) ≡ ok genesis
unfolding replay
history-genesis = refl

history-two : validate_multisignature_history toy key (envelope 1 ∷ envelope 2 ∷ []) ≡ ok updated
unfolding replay
history-two = refl

history-three :
    validate_multisignature_history toy key (envelope 1 ∷ envelope 2 ∷ envelope 3 ∷ [])
    ≡ ok (state key_a 3 2 new_signers (envelope 1 ∷ envelope 2 ∷ envelope 3 ∷ []))
unfolding replay
history-three = refl

history-rotated :
    validate_multisignature_history toy key (envelope 4 ∷ envelope 8 ∷ envelope 9 ∷ [])
    ≡ ok (state key_b 9 1 signers (envelope 4 ∷ envelope 8 ∷ envelope 9 ∷ []))
unfolding replay
history-rotated = refl

history-legacy_rotation :
    validate_multisignature_history toy key (envelope 4 ∷ envelope 5 ∷ [])
    ≡ ok (state key_b 5 1 signers (envelope 4 ∷ envelope 5 ∷ []))
unfolding replay
history-legacy_rotation = refl

-- The third update is refused as the second.
replay_out_of_order :
    validate_multisignature_history toy key (envelope 1 ∷ envelope 3 ∷ [])
    ≡ raise (value_error "predecessor state mismatch")
unfolding replay
replay_out_of_order = refl

accept-ordinary : validate_multisignature_ordinary_update toy key (envelope 2) genesis ≡ ok updated
unfolding replay
accept-ordinary = refl

accept-update : validate_multisignature_update toy key (envelope 2) (some genesis) none ≡ ok updated
unfolding replay
accept-update = refl

accept-replacement :
    validate_multisignature_signer_replacement toy key (envelope 3) updated
    ≡ ok (state key_a 3 2 new_signers (envelope 1 ∷ envelope 2 ∷ envelope 3 ∷ []))
unfolding replay
accept-replacement = refl

accept-rotation :
    validate_owner_rotation_from_state toy key
      (envelope 9)
      upgraded
      (some (validate_multisignature_history toy key))
    ≡ ok (state key_b 9 1 signers (envelope 4 ∷ envelope 8 ∷ envelope 9 ∷ []))
unfolding replay
accept-rotation = refl

accept-genesis : validate_multisignature_genesis toy key (envelope 1) ≡ ok genesis
unfolding replay
accept-genesis = refl

accept-upgrade : validate_multisignature_upgrade toy key (envelope 8) (envelope 4) ≡ ok upgraded
unfolding replay
accept-upgrade = refl

accept-legacy_rotation :
    validate_owner_rotation_from_legacy toy key (envelope 5) (envelope 4)
    ≡ ok (state key_b 5 1 signers (envelope 4 ∷ envelope 5 ∷ []))
unfolding replay
accept-legacy_rotation = refl

validate_multisignature_history-append_example :
    validate_multisignature_history toy key (envelope 1 ∷ envelope 2 ∷ [])
    ≡ validate_multisignature_update toy key (envelope 2) (some genesis) none
validate_multisignature_history-append_example =
    validate_multisignature_history-append toy key (envelope 1 ∷ []) genesis (envelope 2)
      history-genesis

validate_multisignature_history-Lineage_example :
    Lineage toy key (envelope 1 ∷ envelope 2 ∷ []) updated
    × (updated.history ≡ some (envelope 1 ∷ envelope 2 ∷ []))
validate_multisignature_history-Lineage_example =
    validate_multisignature_history-Lineage toy key (envelope 1 ∷ envelope 2 ∷ []) updated
      history-two

validate_threshold_proofs-Quorum_example :
    (validate_threshold_proofs toy (1 ∷ []) genesis_envelope signers 2 ≡ ok tt)
    ↔ Quorum toy (1 ∷ []) signers 2 two_proofs
validate_threshold_proofs-Quorum_example =
    validate_threshold_proofs-Quorum toy (1 ∷ []) signers genesis_envelope 2

validate_multisignature_update-IsSuccessor_example :
    IsSuccessor toy key (envelope 2) genesis updated
    × ((updated.owner_public_key ≡ genesis.owner_public_key)
        ⊎ Rotation toy key (envelope 2) genesis updated)
validate_multisignature_update-IsSuccessor_example =
    validate_multisignature_update-IsSuccessor toy key (envelope 2) genesis updated none
      accept-update

validate_multisignature_history-IsTwoOfThree_example : IsTwoOfThree toy key updated
validate_multisignature_history-IsTwoOfThree_example =
    validate_multisignature_history-IsTwoOfThree toy key (envelope 1 ∷ envelope 2 ∷ []) updated
      history-two

validate_multisignature_ordinary_update-Ordinary_example :
    Ordinary toy key (envelope 2) genesis updated
validate_multisignature_ordinary_update-Ordinary_example =
    validate_multisignature_ordinary_update-Ordinary toy key (envelope 2) genesis updated
      accept-ordinary

validate_multisignature_signer_replacement-Replacement_example :
    Replacement toy key
      (envelope 3)
      updated
      (state key_a 3 2 new_signers (envelope 1 ∷ envelope 2 ∷ envelope 3 ∷ []))
validate_multisignature_signer_replacement-Replacement_example =
    validate_multisignature_signer_replacement-Replacement toy key (envelope 3) updated
      (state key_a 3 2 new_signers (envelope 1 ∷ envelope 2 ∷ envelope 3 ∷ [])) accept-replacement

validate_owner_rotation_from_state-Rotation_example :
    Rotation toy key
      (envelope 9)
      upgraded
      (state key_b 9 1 signers (envelope 4 ∷ envelope 8 ∷ envelope 9 ∷ []))
validate_owner_rotation_from_state-Rotation_example =
    validate_owner_rotation_from_state-Rotation toy key (envelope 9) upgraded
      (state key_b 9 1 signers (envelope 4 ∷ envelope 8 ∷ envelope 9 ∷ []))
      (some (validate_multisignature_history toy key)) accept-rotation

validate_multisignature_genesis-Genesis_example : Genesis toy key (envelope 1) genesis
validate_multisignature_genesis-Genesis_example =
    validate_multisignature_genesis-Genesis toy key (envelope 1) genesis accept-genesis

validate_multisignature_upgrade-Upgrade_example : Upgrade toy key (envelope 8) upgraded (envelope 4)
validate_multisignature_upgrade-Upgrade_example =
    validate_multisignature_upgrade-Upgrade toy key (envelope 8) upgraded (envelope 4)
      accept-upgrade

validate_owner_rotation_from_legacy-LegacyRotation_example :
    LegacyRotation toy key
      (envelope 5)
      (state key_b 5 1 signers (envelope 4 ∷ envelope 5 ∷ []))
      (envelope 4)
validate_owner_rotation_from_legacy-LegacyRotation_example =
    validate_owner_rotation_from_legacy-LegacyRotation toy key (envelope 5)
      (state key_b 5 1 signers (envelope 4 ∷ envelope 5 ∷ [])) (envelope 4) accept-legacy_rotation
