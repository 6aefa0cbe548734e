-- ===== src/Verification/Transitions.antt =====
-- src/decent_registry/verification.py: the checks of each operation against its predecessor state.
pub mod Common
pub mod Anchors
pub mod Extensions
use decent_registry.Prelude.{
  ℕ, String, Bool, true, false, ◌&&◌, ◌||◌, not, Option, none, some, List, [], ◌∷◌, ◌++◌, ◌+◌, leb,
  ◌==◌, if◌then◌else◌, Result, Done, ok, raise, value_error, already_withdrawn, ◌>>=◌, ◌>>◌,
  raise_if, or_raise, ◌≟◌, bytes_eq, optional_eq, pairs_eq,
}
use decent_registry.Cbor.{Text, Bytes, Library, Value, bytes, Entries, get, has_keys, is_empty}
use decent_registry.Provider.Payload.{decode_provider_payload_dict}
use decent_registry.Encoding.Authorization.{
  Signer, record_kind_identity, record_kind_provider, operation_genesis, operation_ordinary_update,
  operation_replace_signers, operation_upgrade, operation_owner_key_rotation,
}
use decent_registry.Encoding.Update.{
  is_legacy, decode_canonical_signed_update, decode_multisignature_signed_update,
}
use decent_registry.Envelope.{Proof, decode_multisignature_envelope, decode_signed_envelope}
use decent_registry.Verification.Candidate.{
  MultisignatureState, Candidate, bytes_field, is_withdrawn, signer_id_for_public_key,
  require_complete_2_of_3, zero_hash, append_history, require_signature, extract_identity_and_keys,
  extract_provider_and_keys, decode_multisignature_candidate, owner_field, candidate_state,
  validate_threshold_proofs,
}

-- The tuple that `_decode_legacy_state` returns.
pub record LegacyState : Type 0 where
  pub signed_update_bytes : Bytes
  pub record_fields : Entries
  pub payload : Entries
  pub seq : ℕ
  pub record_kind : ℕ
  pub owner_public_key : Bytes

-- The record kind with the record key and the owner's public key.
abbrev LegacyKeys : Type 0
LegacyKeys = ℕ × List ℕ × List ℕ

-- `a.get(n) == b.get(n)`, of fields that are bytes.
unfoldable pub same_bytes : Option Value → Option Value → Bool
same_bytes (some (bytes a)) (some (bytes b)) = a ≟ b
same_bytes _ _ = false

unfoldable pub is_single_proof : List Proof → Bool
is_single_proof (p ∷ []) = true
is_single_proof _ = false

abbrev has_signer : List Signer → Bytes → Bool
has_signer [] key = false
has_signer ((i, k) ∷ s) key = k ≟ key || has_signer s key

-- An identity with exactly its two fields and no payload.
abbrev pub is_identity_shape : LegacyState → Bool
is_identity_shape legacy = has_keys legacy.record_fields (1 ∷ 2 ∷ []) && is_empty legacy.payload

-- With `verify_history`, the history is replayed and must lead to the current state.
unfoldable pub check_replayed :
    (List Bytes → Result MultisignatureState) → List Bytes → MultisignatureState → Result Done
check_replayed replay history s = do
  verified ← replay history
  raise_if
      (not (verified.state_hash ≟ s.state_hash)
        || not (verified.signed_update_bytes ≟ s.signed_update_bytes))
      (value_error "predecessor history does not match current state")

-- `verify` is the replay of a history, if `verify_history` is set.
abbrev check_history :
    Option (List Bytes → Result MultisignatureState)
    → List Bytes
    → MultisignatureState
    → Result Done
check_history none history s = ok tt
check_history (some replay) history s = check_replayed replay history s

module _ (lib : Library) where
  -- The proof of an update that one key signs: exactly one, under the given identifier.
  unfoldable pub require_single_proof :
      Bytes → List Proof → Option Text → Bytes → String → String → String → Result Done
  require_single_proof update (p ∷ []) signer_id key wrong_count wrong_id invalid = do
    raise_if (not (p.0 ≟ signer_id)) (value_error wrong_id)
    require_signature lib key update p.1 invalid
  require_single_proof update _ signer_id key wrong_count wrong_id invalid =
      raise (value_error wrong_count)

  -- The payload of the current update, and whether it withdraws the record.
  unfoldable pub current_withdrawn : MultisignatureState → Result Bool
  current_withdrawn s = do
    current ← decode_multisignature_signed_update lib s.signed_update_bytes
    p ← decode_provider_payload_dict lib current.0.payload
    ok (is_withdrawn p)

  unfoldable pub check_not_withdrawn_twice : Candidate → MultisignatureState → Result Done
  unfolding current_withdrawn
  check_not_withdrawn_twice c s = do
    before ← current_withdrawn s
    p ← decode_provider_payload_dict lib c.payload
    raise_if (before && is_withdrawn p) already_withdrawn

  unfoldable pub validate_common_transition : Bytes → Candidate → MultisignatureState → Result Done
  validate_common_transition record_key c s = do
    raise_if (not (c.record_key ≟ record_key) || not (s.record_key ≟ record_key))
        (value_error "lookup-key mismatch")
    raise_if (not (c.authorization.record_kind == s.record_kind)) (value_error "wrong record kind")
    owner ← bytes_field c.record_fields (owner_field s.record_kind)
    raise_if (not (owner ≟ s.owner_public_key)) (value_error "owner binding mismatch")
    raise_if (leb c.seq s.seq) (value_error "seq must be strictly increasing")
    raise_if (not (c.authorization.predecessor ≟ s.state_hash))
        (value_error "predecessor state mismatch")
    if s.record_kind == record_kind_provider then check_not_withdrawn_twice c s else ok tt

  unfoldable pub validate_multisignature_genesis : Bytes → Bytes → Result MultisignatureState
  validate_multisignature_genesis record_key envelope_cbor = do
    c ← decode_multisignature_candidate lib envelope_cbor
    let a = c.authorization
    raise_if (not (a.operation == operation_genesis)) (value_error "expected genesis operation")
    raise_if (not (a.epoch == 1)) (value_error "genesis epoch must be 1")
    raise_if (not (a.predecessor ≟ zero_hash)) (value_error "genesis predecessor must be zero")
    raise_if (not (c.record_key ≟ record_key)) (value_error "lookup-key mismatch")
    require_complete_2_of_3 a
    validate_threshold_proofs lib c.signed_update_bytes c.envelope a.signer_set a.threshold
    candidate_state lib record_key c (some (envelope_cbor ∷ []))

  -- What an ordinary update of a Provider Record checks besides.
  unfoldable pub check_provider_update : Candidate → MultisignatureState → Result Done
  unfolding current_withdrawn
  check_provider_update c s = do
    current ← decode_multisignature_signed_update lib s.signed_update_bytes
    candidate_payload ← decode_provider_payload_dict lib c.payload
    current_payload ← decode_provider_payload_dict lib current.0.payload
    raise_if (is_withdrawn current_payload) already_withdrawn
    if is_withdrawn candidate_payload
        then validate_threshold_proofs lib c.signed_update_bytes c.envelope s.signer_set s.threshold
        else ok tt

  unfoldable pub validate_multisignature_ordinary_update :
      Bytes → Bytes → MultisignatureState → Result MultisignatureState
  validate_multisignature_ordinary_update record_key envelope_cbor s = do
    c ← decode_multisignature_candidate lib envelope_cbor
    let a = c.authorization
    raise_if (not (a.operation == operation_ordinary_update))
        (value_error "expected ordinary update operation")
    validate_common_transition record_key c s
    if s.record_kind == record_kind_provider then check_provider_update c s else ok tt
    raise_if (not (a.epoch == s.epoch)) (value_error "epoch does not match current state")
    raise_if (not (a.threshold == s.threshold))
        (value_error "signer set threshold changed during ordinary update")
    raise_if (not (a.signer_set ≟ s.signer_set)) (value_error "signer set must remain unchanged")
    validate_threshold_proofs lib c.signed_update_bytes c.envelope s.signer_set s.threshold
    candidate_state lib record_key c (append_history s envelope_cbor)

  unfoldable pub validate_multisignature_signer_replacement :
      Bytes → Bytes → MultisignatureState → Result MultisignatureState
  validate_multisignature_signer_replacement record_key envelope_cbor s = do
    c ← decode_multisignature_candidate lib envelope_cbor
    let a = c.authorization
    raise_if (not (a.operation == operation_replace_signers))
        (value_error "expected signer replacement operation")
    validate_common_transition record_key c s
    raise_if (leb a.epoch s.epoch) (value_error "replacement epoch must increase")
    require_complete_2_of_3 a
    raise_if (a.signer_set ≟ s.signer_set)
        (value_error "signer replacement must install a new signer set")
    validate_threshold_proofs lib c.signed_update_bytes c.envelope s.signer_set s.threshold
    candidate_state lib record_key c (append_history s envelope_cbor)

  -- `except ValueError`: the identity extraction raises nothing else.
  unfoldable pub legacy_keys : Entries → Entries → Result LegacyKeys
  legacy_keys record_fields payload = elim (extract_identity_and_keys lib record_fields) [
    | ok (key, owner) ↦ ok (record_kind_identity, key, owner)
    | raise _ ↦ (do
      keys ← extract_provider_and_keys lib record_fields payload
      ok (record_kind_provider, keys.0, keys.1))
  ]

  unfoldable pub decode_legacy_state : Bytes → Bytes → Result LegacyState
  decode_legacy_state record_key envelope_cbor = do
    parts ← decode_signed_envelope lib envelope_cbor
    u ← decode_canonical_signed_update lib parts.0
    raise_if (not (is_legacy u.authorization))
        (value_error "legacy owner state must use the legacy SignedUpdate shape")
    keys ← legacy_keys u.record_fields u.payload
    raise_if (not (keys.1 ≟ record_key)) (value_error "legacy lookup-key mismatch")
    require_signature lib keys.2 parts.0 parts.1 "invalid legacy owner signature"
    ok (record {
      signed_update_bytes = parts.0;
      record_fields = u.record_fields;
      payload = u.payload;
      seq = u.seq;
      record_kind = keys.0;
      owner_public_key = keys.2;
    })

  unfoldable pub validate_multisignature_upgrade :
      Bytes → Bytes → Bytes → Result MultisignatureState
  validate_multisignature_upgrade record_key envelope_cbor legacy_envelope_cbor = do
    c ← decode_multisignature_candidate lib envelope_cbor
    let a = c.authorization
    raise_if (not (a.operation == operation_upgrade)) (value_error "expected upgrade operation")
    legacy ← decode_legacy_state record_key legacy_envelope_cbor
    raise_if (not (c.record_key ≟ record_key)) (value_error "lookup-key mismatch")
    raise_if (not (a.record_kind == legacy.record_kind)) (value_error "wrong record kind")
    raise_if (leb c.seq legacy.seq) (value_error "seq must be strictly increasing")
    raise_if (not (a.epoch == 1)) (value_error "upgrade epoch must be 1")
    raise_if (not (a.predecessor ≟ lib.sha256 legacy.signed_update_bytes))
        (value_error "predecessor state mismatch")
    require_complete_2_of_3 a
    let n = owner_field legacy.record_kind
    raise_if (not (same_bytes (get c.record_fields n) (get legacy.record_fields n)))
        (value_error "legacy owner binding changed during upgrade")
    raise_if (not (is_single_proof c.envelope.proofs))
        (value_error "upgrade requires one legacy owner proof")
    signer_id ← signer_id_for_public_key a legacy.owner_public_key
    require_single_proof c.signed_update_bytes c.envelope.proofs (some signer_id)
        legacy.owner_public_key "upgrade requires one legacy owner proof"
        "legacy owner proof signer_id mismatch" "invalid legacy owner proof"
    candidate_state lib record_key c (some (legacy_envelope_cbor ∷ envelope_cbor ∷ []))

  -- The predecessor of a rotation: its fields, record key, seq and state hash.
  unfoldable pub validate_owner_rotation_invariants :
      Bytes → Candidate → Entries → Bytes → ℕ → Bytes → Result Done
  validate_owner_rotation_invariants record_key c fields predecessor_key predecessor_seq
        predecessor_hash =
      do
        let a = c.authorization
        raise_if (not (a.operation == operation_owner_key_rotation))
            (value_error "expected owner-key-rotation operation")
        raise_if (not (a.record_kind == record_kind_identity))
            (value_error "owner-key rotation requires an Identity Record")
        name ← bytes_field c.record_fields 1
        predecessor_name ← bytes_field fields 1
        raise_if (not (name ≟ predecessor_name)) (value_error "owner_name bytes mismatch")
        owner ← bytes_field c.record_fields 2
        predecessor_owner ← bytes_field fields 2
        raise_if (owner ≟ predecessor_owner)
            (value_error "Owner Public Key must change during rotation")
        raise_if (not (c.record_key ≟ record_key) || not (predecessor_key ≟ record_key))
            (value_error "lookup-key mismatch")
        raise_if (not (c.seq == predecessor_seq + 1))
            (value_error "rotation seq must be exactly predecessor seq plus one")
        raise_if (not (a.predecessor ≟ predecessor_hash)) (value_error "predecessor state mismatch")

  unfoldable pub validate_owner_rotation_from_legacy :
      Bytes → Bytes → Bytes → Result MultisignatureState
  validate_owner_rotation_from_legacy record_key envelope_cbor legacy_envelope_cbor = do
    c ← decode_multisignature_candidate lib envelope_cbor
    let a = c.authorization
    legacy ← decode_legacy_state record_key legacy_envelope_cbor
    raise_if (not (legacy.record_kind == record_kind_identity))
        (value_error "owner-key rotation requires a legacy Identity predecessor")
    raise_if (not (is_identity_shape legacy))
        (value_error "legacy predecessor is not an Identity Record")
    validate_owner_rotation_invariants record_key c legacy.record_fields record_key legacy.seq
        (lib.sha256 legacy.signed_update_bytes)
    raise_if (not (a.epoch == 1)) (value_error "legacy owner rotation epoch must be 1")
    require_complete_2_of_3 a
    owner ← bytes_field c.record_fields 2
    raise_if (not (has_signer a.signer_set owner))
        (value_error "successor Owner Public Key must be in successor Signer Set")
    require_single_proof c.signed_update_bytes c.envelope.proofs none legacy.owner_public_key
        "legacy owner rotation requires exactly one proof"
        "legacy owner rotation proof signer_id must be null" "invalid legacy owner rotation proof"
    candidate_state lib record_key c (some (legacy_envelope_cbor ∷ envelope_cbor ∷ []))

  -- Whether the first entry decodes as a multisignature envelope. Of an empty history the source
  -- reads no first entry, and catches that exception too.
  abbrev pub begins_multisignature : List Bytes → Bool
  begins_multisignature [] = false
  begins_multisignature (e ∷ es) = elim (decode_multisignature_envelope lib e) [
    | ok _ ↦ true
    | raise _ ↦ false
  ]

  unfoldable pub validate_owner_rotation_from_state :
      Bytes
      → Bytes
      → MultisignatureState
      → Option (List Bytes → Result MultisignatureState)
      → Result MultisignatureState
  validate_owner_rotation_from_state record_key envelope_cbor s verify = do
    raise_if (not (s.record_kind == record_kind_identity))
        (value_error "owner-key rotation requires an Identity Record predecessor")
    history ←
        or_raise s.history
          (value_error "complete predecessor history is required for owner rotation")
    raise_if (begins_multisignature history)
        (value_error "predecessor history must include a signed legacy anchor")
    check_history verify history s
    c ← decode_multisignature_candidate lib envelope_cbor
    let a = c.authorization
    predecessor ← decode_multisignature_signed_update lib s.signed_update_bytes
    validate_owner_rotation_invariants record_key c predecessor.0.record_fields s.record_key s.seq
        s.state_hash
    raise_if (not (a.epoch == s.epoch))
        (value_error "rotation epoch must preserve the predecessor epoch")
    raise_if (not (a.threshold == s.threshold))
        (value_error "rotation threshold must preserve the predecessor threshold")
    raise_if (not (a.signer_set ≟ s.signer_set))
        (value_error "rotation must preserve the predecessor Signer Set")
    validate_threshold_proofs lib c.signed_update_bytes c.envelope s.signer_set s.threshold
    candidate_state lib record_key c (some (history ++ envelope_cbor ∷ []))
