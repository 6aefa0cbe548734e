-- ===== src/Validator/Providers/Replaced.antt =====
-- src/decent_registry/record_validator.py: what the two functions of a Provider withdrawal
-- check of the record that it replaces.
use decent_registry.Prelude.{
  ℕ, ◌<◌, ap, sym, ◌∙◌, true, false, present, Done, Option, none, some, leb, ◌≡◌, refl, arith, ok,
  succeeded, ≟-true, bytes_eq,
}
use decent_registry.Cbor.{Bytes, Text, Library}
use decent_registry.Provider.Chars.{from_hex}
use decent_registry.Provider.Payload.{
  ProviderPayload, active, withdrawn, ProviderPayloadV3, ProviderWithdrawnPayloadV2,
  decode_provider_payload_dict,
}
use decent_registry.Encoding.Update.{
  SignedUpdate, decode_canonical_signed_update, decode_multisignature_signed_update,
}
use decent_registry.Envelope.{decode_multisignature_envelope, decode_signed_envelope}
use decent_registry.Verification.Candidate.{
  MultisignatureState, is_withdrawn, object_hash_of, verify_ed25519_signature,
}
use decent_registry.Verification.Replay.Candidates.{Holds, multisignature}
use decent_registry.Validator.Common.{
  ProviderWithdrawnResult, tombstone, is_multisignature_envelope, metadata_from_state, field_bytes,
}
use decent_registry.Validator.Providers.{
  tombstone_of, check_lookup_key, withdraw_multisignature, withdraw_legacy,
}

module _ (lib : Library) where
  -- What is checked of a legacy record that a legacy withdrawal replaces: its owner signed it, and it
  -- is of the same object, under the looked-up key.
  pub record IsSigned (key previous owner : Bytes) (payload : ProviderPayloadV3)
      (withdrawal : ProviderWithdrawnPayloadV2) : Type 0 where
    pub parts : Bytes × Bytes
    pub opened : decode_signed_envelope lib previous ≡ ok parts
    pub verified : verify_ed25519_signature lib owner parts.0 parts.1 ≡ ok true
    pub same_object : payload.object_hash ≡ withdrawal.object_hash
    pub looked_up : from_hex withdrawal.object_hash ≡ some key

  -- The envelope holds the withdrawal that is returned, and the existing record holds an update that
  -- was active, older and of the same owner.
  pub record IsWithdrawal (key envelope : Bytes) (existing : Option Bytes)
      (r : ProviderWithdrawnResult) : Type 0 where
    pub previous : Bytes
    pub update : SignedUpdate
    pub current : SignedUpdate
    pub proposed : Holds lib envelope update
    pub holds : Holds lib previous current
    pub withdrawal : ProviderWithdrawnPayloadV2
    pub withdraws : decode_provider_payload_dict lib update.payload ≡ ok (withdrawn withdrawal)
    pub object_hash : r.object_hash ≡ withdrawal.object_hash
    pub replacement : r.replacement_object_hash ≡ withdrawal.replacement_object_hash
    pub payload : ProviderPayloadV3
    pub owner : Bytes
    pub replaced : existing ≡ some previous
    pub predecessor : r.predecessor_envelope_cbor ≡ some previous
    pub was_active : decode_provider_payload_dict lib current.payload ≡ ok (active payload)
    pub older : current.seq < r.seq
    pub seq : r.seq ≡ update.seq
    pub current_owner : field_bytes current.record_fields 1 ≡ ok owner
    pub same_owner : field_bytes update.record_fields 1 ≡ ok owner
    pub legacy :
        is_multisignature_envelope lib envelope ≡ false
        → IsSigned key previous owner payload withdrawal

  is_active :
      (p : ProviderPayload) → is_withdrawn p ≡ false → (q : ProviderPayloadV3) × (p ≡ active q)
  is_active (active q) h = (q, refl)
  is_active (withdrawn q) h = cc

  leb-false-lt : (a b : ℕ) → leb a b ≡ false → b < a
  leb-false-lt a b h = ground arith

  module _ (key envelope : Bytes) (multi : is_multisignature_envelope lib envelope ≡ true) where
    pub withdraw_multisignature-IsWithdrawal :
        (u : SignedUpdate) (p : ProviderWithdrawnPayloadV2) (s : MultisignatureState)
        (existing : Option Bytes) (r : ProviderWithdrawnResult)
        → Holds lib envelope u
        → decode_provider_payload_dict lib u.payload ≡ ok (withdrawn p)
        → withdraw_multisignature lib u p s existing ≡ ok (tombstone r)
        → IsWithdrawal key envelope existing r
    unfolding withdraw_multisignature
    withdraw_multisignature-IsWithdrawal u p s none r proposed withdraws h = cc
    withdraw_multisignature-IsWithdrawal u p s (some e) r proposed withdraws h =
        succeeded (decode_multisignature_envelope lib e) (λ x y. ground arith)
          λ opened is_opened.
            succeeded (decode_multisignature_signed_update lib opened.signed_update_bytes)
              (λ x y. ground arith)
              λ current read.
                succeeded (decode_provider_payload_dict lib current.0.payload) (λ x y. ground arith)
                  λ payload known.
                    succeeded (field_bytes current.0.record_fields 1) (λ x y. ground arith)
                      λ owner had.
                        succeeded (field_bytes u.record_fields 1) (λ x y. ground arith)
                          λ owner' has.
                            succeeded (metadata_from_state lib s) (λ x y. ground arith)
                              λ m described.
                                let (q, was) = is_active payload (ground arith) in
                                let same : owner ≡ owner' = ≟-true owner owner' (ground arith) in
                                let newer : leb u.seq current.0.seq ≡ false = ground arith in
                                let result : tombstone_of p u.seq (some m) (some e) ≡ r =
                                  ground arith in
                                record {
                                  previous = e;
                                  update = u;
                                  current = current.0;
                                  proposed = proposed;
                                  holds = multisignature opened current.1 is_opened read;
                                  withdrawal = p;
                                  withdraws = withdraws;
                                  object_hash = rw (← result) refl;
                                  replacement = rw (← result) refl;
                                  payload = q;
                                  owner = owner;
                                  replaced = refl;
                                  predecessor = rw (← result) refl;
                                  was_active = rw (← was) known;
                                  older = rw (← result) (leb-false-lt u.seq current.0.seq newer);
                                  seq = rw (← result) refl;
                                  current_owner = had;
                                  same_owner = rw same has;
                                  legacy = λ single. absurd (ground arith);
                                }

  check_lookup_key-eq :
      (h : Text) (key : Bytes) (d : Done) → check_lookup_key h key ≡ ok d → from_hex h ≡ some key
  check_lookup_key-eq h key d e =
      present (from_hex h) (λ x. ground arith)
        λ k read. let same : k ≡ key = ≟-true k key (ground arith) in rw (← same) read

  module _ (key envelope : Bytes) where
    pub withdraw_legacy-IsWithdrawal :
        (u : SignedUpdate) (owner : Bytes) (p : ProviderWithdrawnPayloadV2)
        (existing : Option Bytes) (r : ProviderWithdrawnResult)
        → Holds lib envelope u
        → decode_provider_payload_dict lib u.payload ≡ ok (withdrawn p)
        → field_bytes u.record_fields 1 ≡ ok owner
        → withdraw_legacy lib key u owner p existing ≡ ok (tombstone r)
        → IsWithdrawal key envelope existing r
    unfolding withdraw_legacy
    withdraw_legacy-IsWithdrawal u owner p none r proposed withdraws has h = cc
    withdraw_legacy-IsWithdrawal u owner p (some e) r proposed withdraws has h =
        succeeded (decode_signed_envelope lib e) (λ x y. ground arith)
          λ parts opened.
            succeeded (decode_canonical_signed_update lib parts.0) (λ x y. ground arith)
              λ current read.
                succeeded (field_bytes current.record_fields 1) (λ x y. ground arith)
                  λ owner' had.
                    succeeded (verify_ed25519_signature lib owner' parts.0 parts.1)
                      (λ x y. ground arith)
                      λ valid signed.
                        succeeded (decode_provider_payload_dict lib current.payload)
                          (λ x y. ground arith)
                          λ payload known.
                            succeeded (check_lookup_key p.object_hash key) (λ x y. ground arith)
                              λ d looked.
                                let (q, was) = is_active payload (ground arith) in
                                let same : owner' ≡ owner = ≟-true owner' owner (ground arith) in
                                let equal : object_hash_of payload ≡ p.object_hash =
                                  ≟-true (object_hash_of payload) p.object_hash (ground arith) in
                                let newer : leb u.seq current.seq ≡ false = ground arith in
                                let result : tombstone_of p u.seq none (some e) ≡ r =
                                  ground arith in
                                record {
                                  previous = e;
                                  update = u;
                                  current = current;
                                  proposed = proposed;
                                  holds = Holds.legacy parts opened read;
                                  withdrawal = p;
                                  withdraws = withdraws;
                                  object_hash = rw (← result) refl;
                                  replacement = rw (← result) refl;
                                  payload = q;
                                  owner = owner;
                                  replaced = refl;
                                  predecessor = rw (← result) refl;
                                  was_active = rw (← was) known;
                                  older = rw (← result) (leb-false-lt u.seq current.seq newer);
                                  seq = rw (← result) refl;
                                  current_owner = rw (← same) had;
                                  same_owner = has;
                                  legacy = λ single. record {
                                    parts = parts;
                                    opened = opened;
                                    verified = ground arith;
                                    same_object = ap object_hash_of (sym was) ∙ equal;
                                    looked_up = check_lookup_key-eq p.object_hash key d looked;
                                  };
                                }
