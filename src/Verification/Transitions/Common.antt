-- ===== src/Verification/Transitions/Common.antt =====
-- src/decent_registry/verification.py: the checks that transitions share, and the state of a
-- candidate.
use decent_registry.Prelude.{◌<◌, Option, none, List, ◌≡◌, arith, ok, if◌then◌else◌, ◌==◌}
use decent_registry.Cbor.{Bytes, Library}
use decent_registry.Encoding.Authorization.{record_kind_identity}
use decent_registry.Verification.Candidate.{
  MultisignatureState, Candidate, bytes_field, owner_field, candidate_state,
}
use decent_registry.Verification.Transitions.{validate_common_transition}

-- The candidate follows the state.
pub record Follows (key : Bytes) (c : Candidate) (s : MultisignatureState) : Type 0 where
  pub candidate_key : c.record_key ≡ key
  pub record_key : s.record_key ≡ key
  pub record_kind : c.authorization.record_kind ≡ s.record_kind
  pub owner : bytes_field c.record_fields (owner_field s.record_kind) ≡ ok s.owner_public_key
  pub newer : s.seq < c.seq
  pub linked : c.authorization.predecessor ≡ s.state_hash

module _ (lib : Library) where
  -- `s` is the state of the candidate.
  pub record IsStateOf (key : Bytes) (c : Candidate) (history : Option (List Bytes))
      (s : MultisignatureState) : Type 0 where
    pub record_key : s.record_key ≡ key
    pub record_kind : s.record_kind ≡ c.authorization.record_kind
    pub owner :
        bytes_field c.record_fields (owner_field c.authorization.record_kind)
        ≡ ok s.owner_public_key
    pub signed_update_bytes : s.signed_update_bytes ≡ c.signed_update_bytes
    pub state_hash : s.state_hash ≡ lib.sha256 c.signed_update_bytes
    pub epoch : s.epoch ≡ c.authorization.epoch
    pub seq : s.seq ≡ c.seq
    pub threshold : s.threshold ≡ c.authorization.threshold
    pub signer_set : s.signer_set ≡ c.authorization.signer_set
    pub recorded :
        s.history ≡ (if c.authorization.record_kind == record_kind_identity then history else none)

  pub candidate_state-IsStateOf :
      (key : Bytes) (c : Candidate) (history : Option (List Bytes)) (s : MultisignatureState)
      → candidate_state lib key c history ≡ ok s
      → IsStateOf key c history s
  unfolding candidate_state
  candidate_state-IsStateOf key c history s h = ground arith

  pub validate_common_transition-Follows :
      (key : Bytes) (c : Candidate) (s : MultisignatureState)
      → validate_common_transition lib key c s ≡ ok tt
      → Follows key c s
  unfolding validate_common_transition
  validate_common_transition-Follows key c s h = ground arith
