-- ===== src/Validator/Accepted.antt =====
-- src/decent_registry/record_validator.py: what `_validate_multisignature_transition` accepts.
use decent_registry.Prelude.{
  true, false, ◌&&◌, Option, none, some, List, ◌≡◌, ◌≢◌, subst, arith, ok, succeeded, ≟-true,
  bytes_eq, optional_eq,
}
use decent_registry.Cbor.{Bytes, Library}
use decent_registry.Provider.Payload.{ProviderPayload, withdrawn, ProviderWithdrawnPayloadV2}
use decent_registry.Encoding.Authorization.{Authorization}
use decent_registry.Encoding.Update.{SignedUpdate, decode_multisignature_signed_update}
use decent_registry.Envelope.{MultisignatureEnvelope, decode_multisignature_envelope}
use decent_registry.Verification.Candidate.{MultisignatureState}
use decent_registry.Verification.Replay.{validate_multisignature_update}
use decent_registry.Verification.Replay.Lineage.{Lineage, validate_multisignature_history-Lineage}
use decent_registry.Verification.Replay.Invariants.{
  IsSuccessor, validate_multisignature_update-IsSuccessor,
}
use decent_registry.Verification.Replay.Candidates.{
  IsStateIn, validate_multisignature_update-IsStateIn,
}
use decent_registry.Validator.Common.{
  is_multisignature_envelope, require_history_ending_at, last_of,
}
use decent_registry.Validator.Transition.{
  withdraws, is_missing, candidate_payload, existing_state, predecessor_of,
  check_active_predecessor, check_withdrawal, validate_multisignature_transition,
}

module _ (lib : Library) (key : Bytes) where
  -- What a successful transition has gone through.
  record Passed (envelope : Bytes) (existing : Option Bytes) (chain : Option (List Bytes))
      (s' : MultisignatureState) : Type 0 where
    candidate : MultisignatureEnvelope
    decoded : SignedUpdate × Authorization
    payload : Option ProviderPayload
    base : Option MultisignatureState × Option Bytes
    opened : decode_multisignature_envelope lib envelope ≡ ok candidate
    read : decode_multisignature_signed_update lib candidate.signed_update_bytes ≡ ok decoded
    known : candidate_payload lib decoded ≡ ok payload
    present : (withdraws payload && is_missing existing) ≡ false
    begun : predecessor_of lib key decoded payload existing chain ≡ ok base
    updated : validate_multisignature_update lib key envelope base.0 base.1 ≡ ok s'
    checked : check_withdrawal lib payload base.0 ≡ ok tt

  passed :
      (envelope : Bytes) (existing : Option Bytes) (chain : Option (List Bytes))
      (s' : MultisignatureState)
      → validate_multisignature_transition lib key envelope existing chain ≡ ok s'
      → Passed envelope existing chain s'
  unfolding validate_multisignature_transition
  passed envelope existing chain s' h =
      succeeded (decode_multisignature_envelope lib envelope) (λ e x. ground arith)
        λ c opened.
          succeeded (decode_multisignature_signed_update lib c.signed_update_bytes)
            (λ e x. ground arith)
            λ decoded read.
              succeeded (candidate_payload lib decoded) (λ e x. ground arith)
                λ payload known.
                  succeeded (predecessor_of lib key decoded payload existing chain)
                    (λ e x. ground arith)
                    λ base begun. record {
                      candidate = c;
                      opened = opened;
                      read = read;
                      known = known;
                      decoded = decoded;
                      payload = payload;
                      base = base;
                      present = ground arith;
                      begun = begun;
                      updated =
                          succeeded (validate_multisignature_update lib key envelope base.0 base.1)
                            (λ e x. ground arith) λ s updated. ground arith;
                      checked =
                          succeeded (validate_multisignature_update lib key envelope base.0 base.1)
                            (λ e x. ground arith) λ s updated. ground arith;
                    }

  pub validate_multisignature_transition-IsStateIn :
      (envelope : Bytes) (existing : Option Bytes) (chain : Option (List Bytes))
      (s' : MultisignatureState)
      → validate_multisignature_transition lib key envelope existing chain ≡ ok s'
      → IsStateIn lib envelope s'
  validate_multisignature_transition-IsStateIn envelope existing chain s' h =
      let p = passed envelope existing chain s' h in
      validate_multisignature_update-IsStateIn lib key envelope p.base.0 p.base.1 s' p.updated

  base_of_existing :
      (decoded : SignedUpdate × Authorization) (payload : Option ProviderPayload) (existing : Bytes)
      (chain : Option (List Bytes)) (base : Option MultisignatureState × Option Bytes)
      → is_multisignature_envelope lib existing ≡ true
      → predecessor_of lib key decoded payload (some existing) chain ≡ ok base
      → (s : MultisignatureState) × (existing_state lib key decoded.1 existing chain ≡ ok s)
        × (base ≡ (some s, none))
  unfolding predecessor_of
  base_of_existing decoded payload existing chain base upgraded h =
      succeeded (existing_state lib key decoded.1 existing chain) (λ e x. ground arith)
        λ s is_state. (s, is_state, ground arith)

  chain-Lineage :
      (a : Authorization) (existing : Bytes) (chain : List Bytes) (s : MultisignatureState)
      → existing_state lib key a existing (some chain) ≡ ok s
      → Lineage lib key chain s × (last_of chain ≡ some existing)
  unfolding existing_state require_history_ending_at
  chain-Lineage a existing chain s h =
      let (lineage, _) = validate_multisignature_history-Lineage lib key chain s (ground arith) in
      (lineage, ≟-true (last_of chain) (some existing) (ground arith))

  -- A transition that is accepted on an existing multisignature record with its chain leads to a successor of the
  -- record's state: the envelope decodes to a candidate that is newer, has the state's hash as its
  -- predecessor and is signed by a quorum of its Signer Set. The existing state is the one of the
  -- given predecessor chain, which is a lineage and ends at the existing record.
  pub validate_multisignature_transition-IsSuccessor :
      (envelope existing : Bytes) (chain : List Bytes) (s' : MultisignatureState)
      → is_multisignature_envelope lib existing ≡ true
      → validate_multisignature_transition lib key envelope (some existing) (some chain) ≡ ok s'
      → (s : MultisignatureState) × Lineage lib key chain s
        × (last_of chain ≡ some existing)
        × IsSuccessor lib key envelope s s'
  validate_multisignature_transition-IsSuccessor envelope existing chain s' upgraded h =
      let p = passed envelope (some existing) (some chain) s' h in
      let (s, is_state, based) =
        base_of_existing p.decoded p.payload existing (some chain) p.base upgraded p.begun in
      let (lineage, ends) = chain-Lineage p.decoded.1 existing chain s is_state in
      let (successor, _) = validate_multisignature_update-IsSuccessor lib key envelope s s' none (
        subst
          (λ (b : Option MultisignatureState × Option Bytes).
            validate_multisignature_update lib key envelope b.0 b.1 ≡ ok s')
          based p.updated) in
      (s, lineage, ends, successor)

  base_of_other :
      (decoded : SignedUpdate × Authorization) (payload : Option ProviderPayload) (existing : Bytes)
      (chain : Option (List Bytes)) (base : Option MultisignatureState × Option Bytes)
      → is_multisignature_envelope lib existing ≡ false
      → predecessor_of lib key decoded payload (some existing) chain ≡ ok base
      → base.0 ≡ none
  unfolding predecessor_of
  base_of_other decoded payload existing chain base legacy h = ground arith

  check_withdrawal-none :
      (payload : Option ProviderPayload) (current : Option MultisignatureState)
      → current ≡ none
      → check_withdrawal lib payload current ≡ ok tt
      → withdraws payload ≡ false
  unfolding check_withdrawal check_active_predecessor
  check_withdrawal-none payload none absent h = ground arith
  check_withdrawal-none payload (some s) absent h = cc

  -- A multisignature withdrawal is never accepted over a legacy record, whatever the record holds
  -- and whatever the withdrawal is signed by.
  pub validate_multisignature_transition-legacy :
      (envelope existing : Bytes) (chain : Option (List Bytes)) (c : MultisignatureEnvelope)
      (r : SignedUpdate × Authorization) (w : ProviderWithdrawnPayloadV2) (s' : MultisignatureState)
      → decode_multisignature_envelope lib envelope ≡ ok c
      → decode_multisignature_signed_update lib c.signed_update_bytes ≡ ok r
      → candidate_payload lib r ≡ ok (some (withdrawn w))
      → is_multisignature_envelope lib existing ≡ false
      → validate_multisignature_transition lib key envelope (some existing) chain ≢ ok s'
  validate_multisignature_transition-legacy envelope existing chain c r w s' opened read known
        legacy =
      λ h.
        let p = passed envelope (some existing) chain s' h in
        let none_current = base_of_other p.decoded p.payload existing chain p.base legacy p.begun in
        let kept = check_withdrawal-none p.payload p.base.0 none_current p.checked in
        let same_candidate : p.candidate ≡ c = cc (p.opened, opened) in
        let same_update : p.decoded ≡ r = ground (arith, p.read, read) in
        let same_payload : p.payload ≡ some (withdrawn w) = ground (arith, p.known, known) in
        ground arith
