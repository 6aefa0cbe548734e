-- ===== src/Verification/Transitions/Extensions.antt =====
-- src/decent_registry/verification.py: the operations on an accepted state, each with a record of
-- what it checks.
use decent_registry.Prelude.{
  >>=-eq-ok, succeeded, present, ◌+◌, ◌<◌, false, Option, some, List, [], ◌∷◌, ◌++◌, ◌≡◌, ◌≢◌,
  arith, Result, ok, if◌then◌else◌, ◌==◌, length,
}
use decent_registry.Cbor.{Bytes, Library}
use decent_registry.Encoding.Update.{SignedUpdate, decode_multisignature_signed_update}
use decent_registry.Encoding.Authorization.{
  Authorization, record_kind_identity, record_kind_provider, operation_ordinary_update,
  operation_replace_signers, operation_owner_key_rotation,
}
use decent_registry.Verification.Candidate.{
  MultisignatureState, Candidate, bytes_field, append_history, require_complete_2_of_3,
  decode_multisignature_candidate,
}
use decent_registry.Verification.Candidate.Quorum.{Quorum, validate_threshold_proofs-Quorum}
use decent_registry.Verification.Transitions.{
  current_withdrawn, check_provider_update, validate_multisignature_ordinary_update,
  validate_multisignature_signer_replacement, begins_multisignature,
  validate_owner_rotation_from_state, validate_owner_rotation_invariants,
}
use decent_registry.Verification.Transitions.Common.{
  IsStateOf, candidate_state-IsStateOf, Follows, validate_common_transition-Follows,
}

module _ (lib : Library) (key envelope : Bytes) (s s' : MultisignatureState) where
  -- The proofs of the candidate are a quorum of the Signer Set of the predecessor.
  abbrev pub Authorized : Candidate → Type 0
  Authorized c = Quorum lib c.signed_update_bytes s.signer_set s.threshold c.envelope.proofs

  pub record Ordinary : Type 0 where
    pub c : Candidate
    pub decoded : decode_multisignature_candidate lib envelope ≡ ok c
    pub operation : c.authorization.operation ≡ operation_ordinary_update
    pub follows : Follows key c s
    pub epoch : c.authorization.epoch ≡ s.epoch
    pub threshold : c.authorization.threshold ≡ s.threshold
    pub signer_set : c.authorization.signer_set ≡ s.signer_set
    pub authorized : Authorized c
    pub active : s.record_kind ≡ record_kind_provider → current_withdrawn lib s ≡ ok false
    pub state : IsStateOf lib key c (append_history s envelope) s'

  provider_active :
      (c : Candidate)
      → (if s.record_kind == record_kind_provider then check_provider_update lib c s else ok tt)
        ≡ ok tt
      → s.record_kind ≡ record_kind_provider
      → current_withdrawn lib s ≡ ok false
  unfolding check_provider_update current_withdrawn
  provider_active c h k = ground arith

  -- An ordinary update that is accepted on the state `s` decodes to a candidate with that operation
  -- which follows `s`: the looked-up key and the kind and owner of `s`, a larger sequence number,
  -- and the hash of `s` as its predecessor. Epoch, threshold and Signer Set are those of `s`, and
  -- the proofs are a quorum of that set. A provider record is not withdrawn before. The result is
  -- the candidate's state, its history extended by the envelope.
  pub validate_multisignature_ordinary_update-Ordinary :
      validate_multisignature_ordinary_update lib key envelope s ≡ ok s' → Ordinary
  unfolding validate_multisignature_ordinary_update
  validate_multisignature_ordinary_update-Ordinary h =
      let (c, decoded, checks) = >>=-eq-ok (decode_multisignature_candidate lib envelope) _ h in
      record {
        c = c;
        decoded = decoded;
        operation = ground arith;
        follows = validate_common_transition-Follows lib key c s (ground arith);
        epoch = ground arith;
        threshold = ground arith;
        signer_set = ground arith;
        authorized =
            (validate_threshold_proofs-Quorum lib c.signed_update_bytes s.signer_set c.envelope
                s.threshold).0
              (ground arith);
        active = provider_active c (ground arith);
        state = candidate_state-IsStateOf lib key c (append_history s envelope) s' (ground arith);
      }

  -- The new set has three members of which two must sign.
  pub record Replacement : Type 0 where
    pub c : Candidate
    pub decoded : decode_multisignature_candidate lib envelope ≡ ok c
    pub operation : c.authorization.operation ≡ operation_replace_signers
    pub follows : Follows key c s
    pub epoch : s.epoch < c.authorization.epoch
    pub threshold : c.authorization.threshold ≡ 2
    pub members : length c.authorization.signer_set ≡ 3
    pub signer_set : c.authorization.signer_set ≢ s.signer_set
    pub authorized : Authorized c
    pub state : IsStateOf lib key c (append_history s envelope) s'

  -- A replacement of the signers that is accepted on the state `s` decodes to a candidate with that
  -- operation which follows `s`, with a larger epoch and a different Signer Set of three members
  -- with threshold two. The proofs are a quorum of the old set. The result is the candidate's
  -- state, its history extended by the envelope.
  pub validate_multisignature_signer_replacement-Replacement :
      validate_multisignature_signer_replacement lib key envelope s ≡ ok s' → Replacement
  unfolding validate_multisignature_signer_replacement require_complete_2_of_3
  validate_multisignature_signer_replacement-Replacement h =
      let (c, decoded, checks) = >>=-eq-ok (decode_multisignature_candidate lib envelope) _ h in
      record {
        c = c;
        decoded = decoded;
        operation = ground arith;
        follows = validate_common_transition-Follows lib key c s (ground arith);
        epoch = ground arith;
        threshold = ground arith;
        members = ground arith;
        signer_set = ground arith;
        authorized =
            (validate_threshold_proofs-Quorum lib c.signed_update_bytes s.signer_set c.envelope
                s.threshold).0
              (ground arith);
        state = candidate_state-IsStateOf lib key c (append_history s envelope) s' (ground arith);
      }

  -- The owner's key changes, and all else of the authorization is kept. The predecessor's update
  -- is the one that its state records.
  pub record Rotation : Type 0 where
    pub c : Candidate
    pub decoded : decode_multisignature_candidate lib envelope ≡ ok c
    pub operation : c.authorization.operation ≡ operation_owner_key_rotation
    pub record_kind : c.authorization.record_kind ≡ record_kind_identity
    pub predecessor_kind : s.record_kind ≡ record_kind_identity
    pub candidate_key : c.record_key ≡ key
    pub record_key : s.record_key ≡ key
    pub before : SignedUpdate × Authorization
    pub recorded : decode_multisignature_signed_update lib s.signed_update_bytes ≡ ok before
    pub name : bytes_field c.record_fields 1 ≡ bytes_field before.0.record_fields 1
    pub owner : bytes_field c.record_fields 2 ≢ bytes_field before.0.record_fields 2
    pub next : c.seq ≡ s.seq + 1
    pub linked : c.authorization.predecessor ≡ s.state_hash
    pub epoch : c.authorization.epoch ≡ s.epoch
    pub threshold : c.authorization.threshold ≡ s.threshold
    pub signer_set : c.authorization.signer_set ≡ s.signer_set
    pub authorized : Authorized c
    pub history : List Bytes
    pub complete : s.history ≡ some history
    pub anchored : begins_multisignature lib history ≡ false
    pub state : IsStateOf lib key c (some (history ++ envelope ∷ [])) s'

  -- A rotation of the owner's key that is accepted on the state `s` of an identity, with its
  -- history verified or not, decodes to a candidate with that operation: of the same name and
  -- another owner's key than the update that `s` records, with the next sequence number, the hash
  -- of `s` as its predecessor, and the epoch, threshold and Signer Set of `s`, of which its proofs
  -- are a quorum. The history of `s` is present and begins with no multisignature envelope; the
  -- result is the candidate's state with that history and the envelope.
  pub validate_owner_rotation_from_state-Rotation :
      (verify : Option (List Bytes → Result MultisignatureState))
      → validate_owner_rotation_from_state lib key envelope s verify ≡ ok s'
      → Rotation
  unfolding validate_owner_rotation_from_state validate_owner_rotation_invariants
  validate_owner_rotation_from_state-Rotation verify h =
      present s.history (λ e. ground arith)
        λ history complete.
          succeeded (decode_multisignature_candidate lib envelope) (λ e x. ground arith)
            λ c decoded.
              succeeded (decode_multisignature_signed_update lib s.signed_update_bytes)
                (λ e x. ground arith)
                λ before recorded. record {
                  c = c;
                  decoded = decoded;
                  operation = ground arith;
                  record_kind = ground arith;
                  predecessor_kind = ground arith;
                  candidate_key = ground arith;
                  record_key = ground arith;
                  before = before;
                  recorded = recorded;
                  name = ground arith;
                  owner = ground arith;
                  next = ground arith;
                  linked = ground arith;
                  epoch = ground arith;
                  threshold = ground arith;
                  signer_set = ground arith;
                  authorized =
                      (validate_threshold_proofs-Quorum lib c.signed_update_bytes s.signer_set
                          c.envelope s.threshold).0
                        (ground arith);
                  history = history;
                  complete = complete;
                  anchored = ground arith;
                  state =
                      candidate_state-IsStateOf lib key c (some (history ++ envelope ∷ [])) s'
                        (ground arith);
                }
