-- ===== src/Verification/Replay/Candidates.antt =====
-- src/decent_registry/verification.py: the candidate whose state `validate_multisignature_update`
-- returns.
use decent_registry.Prelude.{
  ℕ, Option, none, some, ◌≡◌, arith, ok, ◌==◌, succeeded, present, Bool-cases, inl, inr,
}
use decent_registry.Cbor.{Bytes, Library}
use decent_registry.Encoding.Authorization.{
  Authorization, operation_genesis, operation_owner_key_rotation,
}
use decent_registry.Encoding.Update.{
  SignedUpdate, decode_canonical_signed_update, decode_multisignature_signed_update,
}
use decent_registry.Envelope.{
  MultisignatureEnvelope, decode_multisignature_envelope, decode_signed_envelope,
}
use decent_registry.Verification.Candidate.{
  MultisignatureState, Candidate, extract_keys, decode_multisignature_candidate,
}
use decent_registry.Verification.Transitions.Anchors.{
  validate_multisignature_genesis-Genesis, validate_multisignature_upgrade-Upgrade,
  validate_owner_rotation_from_legacy-LegacyRotation,
}
use decent_registry.Verification.Replay.{
  dispatch_other, dispatch_rotation, validate_multisignature_update,
}
use decent_registry.Verification.Replay.Invariants.{validate_multisignature_update-IsSuccessor}

module _ (lib : Library) where
  -- The state holds the update of the envelope.
  pub record IsStateIn (e : Bytes) (s : MultisignatureState) : Type 0 where
    pub c : Candidate
    pub decoded : decode_multisignature_candidate lib e ≡ ok c
    pub signed_update_bytes : s.signed_update_bytes ≡ c.signed_update_bytes

  dispatch_other-IsStateIn :
      (key e : Bytes) (operation : ℕ) (legacy : Option Bytes) (s : MultisignatureState)
      → dispatch_other lib key e operation none legacy ≡ ok s
      → IsStateIn e s
  unfolding dispatch_other
  dispatch_other-IsStateIn key e operation legacy s h =
      elim (Bool-cases (operation == operation_genesis)) [
        | inl begins ↦
            let g = validate_multisignature_genesis-Genesis lib key e s (ground arith) in
            record {
              c = g.c;
              decoded = g.decoded;
              signed_update_bytes = g.state.signed_update_bytes;
            }
        | inr other ↦
            present legacy (λ x. ground arith)
              λ l given.
                let g = validate_multisignature_upgrade-Upgrade lib key e s l (ground arith) in
                record {
                  c = g.c;
                  decoded = g.decoded;
                  signed_update_bytes = g.state.signed_update_bytes;
                }
      ]

  dispatch_rotation-IsStateIn :
      (key e : Bytes) (legacy : Option Bytes) (s : MultisignatureState)
      → dispatch_rotation lib key e none legacy ≡ ok s
      → IsStateIn e s
  unfolding dispatch_rotation
  dispatch_rotation-IsStateIn key e none s h = cc
  dispatch_rotation-IsStateIn key e (some l) s h =
      let g = validate_owner_rotation_from_legacy-LegacyRotation lib key e s l h in
      record { c = g.c; decoded = g.decoded; signed_update_bytes = g.state.signed_update_bytes }

  pub validate_multisignature_update-IsStateIn :
      (key e : Bytes) (current : Option MultisignatureState) (legacy : Option Bytes)
      (s : MultisignatureState)
      → validate_multisignature_update lib key e current legacy ≡ ok s
      → IsStateIn e s
  unfolding validate_multisignature_update
  validate_multisignature_update-IsStateIn key e (some t) legacy s h =
      let (g, _) = validate_multisignature_update-IsSuccessor lib key e t s legacy h in
      record { c = g.c; decoded = g.decoded; signed_update_bytes = g.signed_update_bytes }
  validate_multisignature_update-IsStateIn key e none legacy s h =
      succeeded (decode_multisignature_candidate lib e) (λ x y. ground arith)
        λ c decoded. elim (Bool-cases (c.authorization.operation == operation_owner_key_rotation)) [
          | inl turn ↦ dispatch_rotation-IsStateIn key e legacy s (ground arith)
          | inr other ↦
              dispatch_other-IsStateIn key e c.authorization.operation legacy s (ground arith)
        ]

  -- An envelope, of one key or with multisignature, holds the update.
  pub data Holds (e : Bytes) (u : SignedUpdate) : Type 0 where
    multisignature :
        (envelope : MultisignatureEnvelope) (a : Authorization)
        → decode_multisignature_envelope lib e ≡ ok envelope
        → decode_multisignature_signed_update lib envelope.signed_update_bytes ≡ ok (u, a)
        → Holds e u
    legacy :
        (parts : Bytes × Bytes)
        → decode_signed_envelope lib e ≡ ok parts
        → decode_canonical_signed_update lib parts.0 ≡ ok u
        → Holds e u

  -- The update that is read from the state is the one of the envelope.
  pub IsStateIn-Holds :
      (e : Bytes) (s : MultisignatureState) (d : SignedUpdate × Authorization)
      → IsStateIn e s
      → decode_multisignature_signed_update lib s.signed_update_bytes ≡ ok d
      → Holds e d.0
  unfolding decode_multisignature_candidate
  IsStateIn-Holds e s d i read =
      succeeded (decode_multisignature_envelope lib e) (λ x y. let bad = i.decoded in ground arith)
        λ envelope opened.
          succeeded (decode_multisignature_signed_update lib envelope.signed_update_bytes)
            (λ x y. let bad = i.decoded in ground arith)
            λ d' read'.
              succeeded (extract_keys lib d'.0.record_fields d'.0.payload d'.1.record_kind)
                (λ x y. let bad = i.decoded in ground arith)
                λ keys known.
                  let decoded = i.decoded in
                  let kept : i.c.signed_update_bytes ≡ envelope.signed_update_bytes =
                    ground arith in
                  multisignature envelope d.1 opened (rw (← kept, ← i.signed_update_bytes) read)
