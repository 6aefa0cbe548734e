-- ===== src/Verification/Transitions/Anchors.antt =====
-- src/decent_registry/verification.py: the operations that begin a lineage, each with a record of
-- what it checks.
use decent_registry.Prelude.{
  String, succeeded, refl, ≟-true, bytes_eq, ◌+◌, ◌<◌, true, Option, none, some, List, [], ◌∷◌, ◌≡◌,
  ◌≢◌, arith, ok, length,
}
use decent_registry.Cbor.{Bytes, Text, Library, Value, bytes, get, has_keys, is_empty}
use decent_registry.Encoding.Authorization.{
  Authorization, record_kind_identity, operation_genesis, operation_upgrade,
  operation_owner_key_rotation,
}
use decent_registry.Envelope.{Proof}
use decent_registry.Verification.Candidate.{
  MultisignatureState, Candidate, bytes_field, owner_field, zero_hash, ids_of,
  signer_id_for_public_key, require_complete_2_of_3, require_signature, verify_ed25519_signature,
  decode_multisignature_candidate,
}
use decent_registry.Verification.Candidate.Quorum.{Quorum, validate_threshold_proofs-Quorum}
use decent_registry.Verification.Transitions.{
  same_bytes, LegacyState, decode_legacy_state, has_signer, require_single_proof,
  validate_multisignature_genesis, validate_multisignature_upgrade,
  validate_owner_rotation_from_legacy, validate_owner_rotation_invariants,
}
use decent_registry.Verification.Transitions.Common.{IsStateOf, candidate_state-IsStateOf}

require_single_proof_sound :
    (lib : Library) (update : Bytes) (ps : List Proof) (signer_id : Option Text) (key : Bytes)
    (m n o : String)
    → require_single_proof lib update ps signer_id key m n o ≡ ok tt
    → (signature : Bytes) × (ps ≡ (signer_id, signature) ∷ [])
      × (lib.verify key (lib.sha256 update) signature ≡ some true)
unfolding require_single_proof require_signature verify_ed25519_signature
require_single_proof_sound lib update ((i, signature) ∷ []) signer_id key m n o h =
    (signature, ground arith, ground arith)
require_single_proof_sound lib update [] signer_id key m n o h = absurd (ground arith)
require_single_proof_sound lib update (_ ∷ _ ∷ _) signer_id key m n o h = absurd (ground arith)

same_bytes_sound :
    (v w : Option Value)
    → same_bytes v w ≡ true
    → (b : Bytes) × (v ≡ some (bytes b)) × (w ≡ some (bytes b))
unfolding same_bytes
same_bytes_sound (some (bytes a)) (some (bytes b)) h =
    let same : a ≡ b = ≟-true a b h in (b, rw same refl, refl)
same_bytes_sound v w h = absurd (ground arith)

signer_id_single :
    (a : Authorization) (key : Bytes) (i : Text)
    → signer_id_for_public_key a key ≡ ok i
    → ids_of a.signer_set key ≡ i ∷ []
unfolding signer_id_for_public_key
signer_id_single a key i h = ground arith

module _ (lib : Library) (key envelope : Bytes) (s' : MultisignatureState) where
  -- Two of the three new members signed.
  pub record Genesis : Type 0 where
    pub c : Candidate
    pub decoded : decode_multisignature_candidate lib envelope ≡ ok c
    pub operation : c.authorization.operation ≡ operation_genesis
    pub epoch : c.authorization.epoch ≡ 1
    pub linked : c.authorization.predecessor ≡ zero_hash
    pub record_key : c.record_key ≡ key
    pub threshold : c.authorization.threshold ≡ 2
    pub members : length c.authorization.signer_set ≡ 3
    pub authorized : Quorum lib c.signed_update_bytes c.authorization.signer_set 2 c.envelope.proofs
    pub state : IsStateOf lib key c (some (envelope ∷ [])) s'

  -- A genesis that is accepted decodes to a candidate of the looked-up key with that operation,
  -- epoch 1, the zero hash as its predecessor, and a Signer Set of three members with threshold
  -- two, of which its proofs are a quorum. The result is the candidate's state, its history the
  -- envelope alone.
  pub validate_multisignature_genesis-Genesis :
      validate_multisignature_genesis lib key envelope ≡ ok s' → Genesis
  unfolding validate_multisignature_genesis require_complete_2_of_3
  validate_multisignature_genesis-Genesis h =
      succeeded (decode_multisignature_candidate lib envelope) (λ e x. ground arith)
        λ c decoded.
          let two : c.authorization.threshold ≡ 2 = ground arith in
          record {
            c = c;
            decoded = decoded;
            operation = ground arith;
            epoch = ground arith;
            linked = ground arith;
            record_key = ground arith;
            threshold = two;
            members = ground arith;
            authorized =
                (validate_threshold_proofs-Quorum lib c.signed_update_bytes
                    c.authorization.signer_set c.envelope 2).0
                  (ground arith);
            state = candidate_state-IsStateOf lib key c (some (envelope ∷ [])) s' (ground arith);
          }

  module _ (legacy_envelope : Bytes) where
    -- The owner of the legacy record signs alone, under an identifier of the new Signer Set.
    pub record Upgrade : Type 0 where
      pub c : Candidate
      pub decoded : decode_multisignature_candidate lib envelope ≡ ok c
      pub legacy : LegacyState
      pub before : decode_legacy_state lib key legacy_envelope ≡ ok legacy
      pub operation : c.authorization.operation ≡ operation_upgrade
      pub record_key : c.record_key ≡ key
      pub record_kind : c.authorization.record_kind ≡ legacy.record_kind
      pub newer : legacy.seq < c.seq
      pub owner : Bytes
      pub kept_owner : get c.record_fields (owner_field legacy.record_kind) ≡ some (bytes owner)
      pub legacy_owner :
          get legacy.record_fields (owner_field legacy.record_kind) ≡ some (bytes owner)
      pub epoch : c.authorization.epoch ≡ 1
      pub linked : c.authorization.predecessor ≡ lib.sha256 legacy.signed_update_bytes
      pub threshold : c.authorization.threshold ≡ 2
      pub members : length c.authorization.signer_set ≡ 3
      pub signer_id : Text
      pub member : ids_of c.authorization.signer_set legacy.owner_public_key ≡ signer_id ∷ []
      pub signature : Bytes
      pub proofs : c.envelope.proofs ≡ (some signer_id, signature) ∷ []
      pub verified :
          lib.verify legacy.owner_public_key (lib.sha256 c.signed_update_bytes) signature
          ≡ some true
      pub state : IsStateOf lib key c (some (legacy_envelope ∷ envelope ∷ [])) s'

    -- An upgrade that is accepted on a legacy envelope, which decodes, decodes to a candidate with
    -- that operation, of the looked-up key and the kind of the legacy record, with a larger
    -- sequence number, epoch 1, the hash of the legacy update as its predecessor, the same bytes in
    -- the field of the owner as the legacy record, and three members with threshold two. It has one proof, which the legacy owner signed under the one identifier
    -- that the new set gives to the owner's key. The result is the candidate's state, its history
    -- the two envelopes.
    pub validate_multisignature_upgrade-Upgrade :
        validate_multisignature_upgrade lib key envelope legacy_envelope ≡ ok s' → Upgrade
    unfolding validate_multisignature_upgrade require_complete_2_of_3
    validate_multisignature_upgrade-Upgrade h =
        succeeded (decode_multisignature_candidate lib envelope) (λ e x. ground arith)
          λ c decoded.
            succeeded (decode_legacy_state lib key legacy_envelope) (λ e x. ground arith)
              λ legacy before.
                let n = owner_field legacy.record_kind in
                let (owner, kept, had) =
                  same_bytes_sound (get c.record_fields n) (get legacy.record_fields n)
                    (ground arith) in
                succeeded (signer_id_for_public_key c.authorization legacy.owner_public_key)
                  (λ e x. ground arith)
                  λ signer_id member.
                    let (signature, proofs, verified) =
                      require_single_proof_sound lib c.signed_update_bytes c.envelope.proofs
                        (some signer_id) legacy.owner_public_key
                        "upgrade requires one legacy owner proof"
                        "legacy owner proof signer_id mismatch" "invalid legacy owner proof"
                        (ground arith) in
                    record {
                      c = c;
                      decoded = decoded;
                      legacy = legacy;
                      before = before;
                      operation = ground arith;
                      record_key = ground arith;
                      record_kind = ground arith;
                      newer = ground arith;
                      owner = owner;
                      kept_owner = kept;
                      legacy_owner = had;
                      epoch = ground arith;
                      linked = ground arith;
                      threshold = ground arith;
                      members = ground arith;
                      signer_id = signer_id;
                      member =
                          signer_id_single c.authorization legacy.owner_public_key signer_id member;
                      signature = signature;
                      proofs = proofs;
                      verified = verified;
                      state =
                          candidate_state-IsStateOf lib key c
                            (some (legacy_envelope ∷ envelope ∷ [])) s' (ground arith);
                    }

    -- The owner of the legacy identity signs, without an identifier, for a new key of the new set.
    pub record LegacyRotation : Type 0 where
      pub c : Candidate
      pub decoded : decode_multisignature_candidate lib envelope ≡ ok c
      pub legacy : LegacyState
      pub before : decode_legacy_state lib key legacy_envelope ≡ ok legacy
      pub legacy_kind : legacy.record_kind ≡ record_kind_identity
      pub legacy_fields : has_keys legacy.record_fields (1 ∷ 2 ∷ []) ≡ true
      pub legacy_payload : is_empty legacy.payload ≡ true
      pub operation : c.authorization.operation ≡ operation_owner_key_rotation
      pub record_kind : c.authorization.record_kind ≡ record_kind_identity
      pub record_key : c.record_key ≡ key
      pub name : bytes_field c.record_fields 1 ≡ bytes_field legacy.record_fields 1
      pub changed : bytes_field c.record_fields 2 ≢ bytes_field legacy.record_fields 2
      pub next : c.seq ≡ legacy.seq + 1
      pub epoch : c.authorization.epoch ≡ 1
      pub linked : c.authorization.predecessor ≡ lib.sha256 legacy.signed_update_bytes
      pub threshold : c.authorization.threshold ≡ 2
      pub members : length c.authorization.signer_set ≡ 3
      pub owner : Bytes
      pub field : bytes_field c.record_fields 2 ≡ ok owner
      pub member : has_signer c.authorization.signer_set owner ≡ true
      pub signature : Bytes
      pub proofs : c.envelope.proofs ≡ (none, signature) ∷ []
      pub verified :
          lib.verify legacy.owner_public_key (lib.sha256 c.signed_update_bytes) signature
          ≡ some true
      pub state : IsStateOf lib key c (some (legacy_envelope ∷ envelope ∷ [])) s'

    -- A rotation of the owner's key that is accepted on a legacy envelope, which decodes to an
    -- identity with the fields of the name and the key alone and no payload, decodes to a candidate with that operation, an identity of the looked-up key with the same name and
    -- another owner's key, the next sequence number, epoch 1, the hash of the legacy update as its
    -- predecessor, and three members with threshold two, the new owner's key among them. It has one
    -- proof, without an identifier, which the legacy owner signed. The result is the candidate's
    -- state, its history the two envelopes.
    pub validate_owner_rotation_from_legacy-LegacyRotation :
        validate_owner_rotation_from_legacy lib key envelope legacy_envelope ≡ ok s'
        → LegacyRotation
    unfolding validate_owner_rotation_from_legacy validate_owner_rotation_invariants
        require_complete_2_of_3
    validate_owner_rotation_from_legacy-LegacyRotation h =
        succeeded (decode_multisignature_candidate lib envelope) (λ e x. ground arith)
          λ c decoded.
            succeeded (decode_legacy_state lib key legacy_envelope) (λ e x. ground arith)
              λ legacy before.
                succeeded (bytes_field c.record_fields 2) (λ e x. ground arith)
                  λ owner field.
                    let (signature, proofs, verified) =
                      require_single_proof_sound lib c.signed_update_bytes c.envelope.proofs none
                        legacy.owner_public_key "legacy owner rotation requires exactly one proof"
                        "legacy owner rotation proof signer_id must be null"
                        "invalid legacy owner rotation proof" (ground arith) in
                    record {
                      c = c;
                      decoded = decoded;
                      legacy = legacy;
                      before = before;
                      legacy_kind = ground arith;
                      legacy_fields = ground arith;
                      legacy_payload = ground arith;
                      operation = ground arith;
                      record_kind = ground arith;
                      record_key = ground arith;
                      name = ground arith;
                      changed = ground arith;
                      next = ground arith;
                      epoch = ground arith;
                      linked = ground arith;
                      threshold = ground arith;
                      members = ground arith;
                      owner = owner;
                      field = field;
                      member = ground arith;
                      signature = signature;
                      proofs = proofs;
                      verified = verified;
                      state =
                          candidate_state-IsStateOf lib key c
                            (some (legacy_envelope ∷ envelope ∷ [])) s' (ground arith);
                    }
