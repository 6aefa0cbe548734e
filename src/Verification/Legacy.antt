-- ===== src/Verification/Legacy.antt =====
-- src/decent_registry/verification.py: legacy records, which one owner key signs.
pub mod Binding
use decent_registry.Prelude.{
  ℕ, Bool, true, false, not, Option, none, some, List, leb, if◌then◌else◌, Result, Done, ok, raise,
  value_error, ◌>>=◌, ◌>>◌, raise_if, ◌≟◌, bytes_eq,
}
use decent_registry.Prelude.Dictionary.{lookup, insert}
use decent_registry.Cbor.{Bytes, Library}
use decent_registry.Encoding.Update.{SignedUpdate, is_legacy, decode_canonical_signed_update}
use decent_registry.Verification.Candidate.{
  verify_ed25519_signature, extract_identity_and_keys, extract_provider_and_keys,
}

pub record SeqStateEntry : Type 0 where
  pub owner_public_key : Bytes
  pub seq : ℕ

-- `MutableMapping[bytes, SeqStateEntry]`
abbrev pub SeqState : Type 0
SeqState = List (List ℕ × SeqStateEntry)

-- The first two tests; `prev` is the entry of the record key.
unfoldable pub check_prev : Option SeqStateEntry → ℕ → Bytes → Result Done
check_prev none seq owner = ok tt
check_prev (some prev) seq owner = do
  raise_if (leb seq prev.seq) (value_error "seq must be strictly increasing")
  raise_if (not (owner ≟ prev.owner_public_key)) (value_error "owner collision")

abbrev pub bound_owner : Option SeqStateEntry → Bytes → Bytes
bound_owner none owner = owner
bound_owner (some prev) owner = prev.owner_public_key

-- Returns the state of the sequence numbers, as the call leaves it.
unfoldable pub enforce_seq_and_owner_binding : Bytes → ℕ → Bytes → SeqState → Bool → Result SeqState
unfolding check_prev
enforce_seq_and_owner_binding record_key seq owner seq_state update_state = do
  let prev = lookup record_key seq_state
  check_prev prev seq owner
  if update_state
      then ok (
          insert record_key (record { owner_public_key = bound_owner prev owner; seq = seq })
            seq_state)
      else ok seq_state

abbrev pub succeeds {ℓ} : {A : Type ℓ} → Result A → Bool
succeeds (ok _) = true
succeeds (raise _) = false

module _ (lib : Library) where
  unfoldable pub decode_signed_update_strict : Bytes → Result SignedUpdate
  decode_signed_update_strict update = do
    u ← decode_canonical_signed_update lib update
    raise_if (not (is_legacy u.authorization)) (value_error "SignedUpdate must have keys {1,2,3}")
    ok u

  -- What the two validators do once the record key and the owner have been extracted.
  unfoldable pub accept_update :
      Bytes
      → Bytes
      → Bytes
      → SeqState
      → Bool
      → SignedUpdate
      → Bytes × Bytes
      → Result (SignedUpdate × SeqState)
  accept_update record_key update signature seq_state update_state u (key, owner) = do
    raise_if (not (key ≟ record_key)) (value_error "lookup-key mismatch")
    valid ← verify_ed25519_signature lib owner update signature
    raise_if (not valid) (value_error "wrong signature")
    after ← enforce_seq_and_owner_binding record_key u.seq owner seq_state update_state
    ok (u, after)

  unfoldable pub validate_provider_update :
      Bytes → Bytes → Bytes → SeqState → Bool → Result (SignedUpdate × SeqState)
  validate_provider_update record_key update signature seq_state update_state = do
    u ← decode_signed_update_strict update
    keys ← extract_provider_and_keys lib u.record_fields u.payload
    accept_update record_key update signature seq_state update_state u keys

  unfoldable pub validate_identity_update :
      Bytes → Bytes → Bytes → SeqState → Bool → Result (SignedUpdate × SeqState)
  validate_identity_update record_key update signature seq_state update_state = do
    u ← decode_signed_update_strict update
    keys ← extract_identity_and_keys lib u.record_fields
    accept_update record_key update signature seq_state update_state u keys

  unfoldable pub validate_signed_update_overwrite :
      Bytes → Bytes → Bytes → SeqState → Bool → Result (SignedUpdate × SeqState)
  validate_signed_update_overwrite record_key update signature seq_state update_state = do
    u ← decode_signed_update_strict update
    if succeeds (extract_identity_and_keys lib u.record_fields)
        then validate_identity_update record_key update signature seq_state update_state
        else validate_provider_update record_key update signature seq_state update_state
