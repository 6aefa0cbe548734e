-- ===== src/Validator/Identities/Gets.antt =====
-- src/decent_registry/record_validator.py: identities that are read with their history.
use decent_registry.Prelude.{some, List, ◌≡◌, ok, optional_eq, bytes_eq}
use decent_registry.Cbor.{Bytes, Library}
use decent_registry.Encoding.Authorization.{Authorization, record_kind_identity}
use decent_registry.Encoding.Update.{SignedUpdate, decode_multisignature_signed_update}
use decent_registry.Verification.Candidate.{MultisignatureState}
use decent_registry.Verification.Replay.Lineage.{Lineage}
use decent_registry.Verification.Replay.Invariants.{IsTwoOfThree}
use decent_registry.Validator.Common.{IdentityRecordResult, field_bytes, last_of, to_hex}

module _ (lib : Library) (key : Bytes) where
  -- The result shows the state at the end of the chain.
  pub record IsRead (envelope : Bytes) (chain : List Bytes) (r : IdentityRecordResult)
      : Type 0 where
    pub state : MultisignatureState
    pub lineage : Lineage lib key chain state
    pub ends : last_of chain ≡ some envelope
    pub authorized : IsTwoOfThree lib key state
    pub kind : state.record_kind ≡ record_kind_identity
    pub decoded : SignedUpdate × Authorization
    pub read : decode_multisignature_signed_update lib state.signed_update_bytes ≡ ok decoded
    pub shown_key : (r.record_key ≡ key) × (r.object_key_hex ≡ to_hex key)
    pub shown_owner : field_bytes decoded.0.record_fields 2 ≡ ok r.owner_public_key
    pub name : Bytes
    pub shown_name :
        (field_bytes decoded.0.record_fields 1 ≡ ok name) × (r.owner_name_hex ≡ to_hex name)
    pub shown_seq : r.seq ≡ decoded.0.seq
    pub shown_operation : r.authorization.operation ≡ decoded.1.operation
    pub shown_epoch : r.authorization.epoch ≡ decoded.1.epoch
    pub shown_threshold : r.authorization.threshold ≡ decoded.1.threshold
    pub shown_predecessor : r.authorization.predecessor_state_hash ≡ decoded.1.predecessor
    pub shown_hash : r.authorization.state_hash ≡ state.state_hash
    pub shown_signers : r.authorization.signer_set ≡ state.signer_set
