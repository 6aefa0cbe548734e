-- ===== src/Bundle.antt =====
-- src/decent_registry/multisig_bundle.py: bundles, drafts of an update that collect detached proofs.
pub mod Merging
pub mod Finalized
pub mod Roundtrip
use decent_registry.Prelude.{
  ℕ, Bool, true, false, not, Option, none, some, List, [], ◌∷◌, ◌++◌, ltb, ◌==◌, if◌then◌else◌,
  length, map, Result, Done, Error, ok, raise, value_error, type_error, library_error, ◌>>=◌, ◌>>◌,
  raise_if, or_raise, ◌≟◌, ◌||◌, bytes_eq, optional_eq, contains,
}
use decent_registry.Prelude.Sorting.{sort}
use decent_registry.Cbor.{
  Text, Bytes, Library, Value, int, text, bytes, array, dict, Items, Entries, entry, end,
}
use decent_registry.Provider.Payload.{
  build_provider_payload_dict, build_provider_withdrawal_payload_dict,
}
use decent_registry.Encoding.Authorization.{
  Authorization, Signer, record_kind_identity, record_kind_provider, operation_ordinary_update,
  operation_upgrade,
}
use decent_registry.Encoding.Update.{
  SignedUpdate, encode_signed_update, decode_multisignature_signed_update,
}
use decent_registry.Envelope.{
  Proof, MultisignatureEnvelope, proofs_value, encode_multisignature_envelope,
  decode_multisignature_envelope,
}
use decent_registry.Verification.Candidate.{public_key_of, bytes_field, require_signature}

-- `MultisignatureProof`
pub record DetachedProof : Type 0 where
  pub signed_update_bytes : Bytes
  pub signer_id : Text
  pub signature : Bytes

-- `MultisignatureBundle`
pub record SigningBundle : Type 0 where
  pub signed_update_bytes : Bytes
  pub proofs : List DetachedProof

abbrev pub bundle_sort_key : DetachedProof → Bytes
bundle_sort_key p = p.signer_id

abbrev pub is_nil_text : Text → Bool
is_nil_text [] = true
is_nil_text (c ∷ s) = false

-- `MultisignatureProof(...)`
unfoldable pub make_proof : Bytes → Text → Bytes → Result DetachedProof
make_proof update signer_id signature = do
  raise_if (is_nil_text signer_id) (value_error "proof signer_id must be a non-empty text string")
  ok (record { signed_update_bytes = update; signer_id = signer_id; signature = signature })

abbrev pub to_wire : DetachedProof → Proof
to_wire p = (some p.signer_id, p.signature)

-- `_authorization(...)`; the entries of the Signer Set are as the caller gives them.
abbrev pub authorization_entries : ℕ → ℕ → ℕ → ℕ → Items → Bytes → Value
authorization_entries record_kind operation epoch threshold signer_set predecessor = dict (
    entry (int 1) (int 1) (
      entry (int 2) (int record_kind) (
        entry (int 3) (int operation) (
          entry (int 4) (int epoch) (
            entry (int 5) (int threshold)
              (entry (int 6) (array signer_set) (entry (int 7) (bytes predecessor) end)))))))

-- What the drafts take beside the record: the sequence number, the Signer Set, the threshold, the
-- epoch and the predecessor's hash.
pub record DraftTerms : Type 0 where
  pub seq : ℕ
  pub signer_set : Items
  pub threshold : ℕ
  pub epoch : ℕ
  pub predecessor_state_hash : Bytes

-- A local private key; `none` is an exception.
pub record PrivateKey : Type 0 where
  -- `get_public_key().to_bytes()`
  pub public_key : Option Bytes
  -- `sign(message)`
  pub sign : Bytes → Option Bytes

-- The first member of the Signer Set with the public key.
unfoldable pub member_id : List Signer → Bytes → Option Text
member_id [] key = none
member_id ((i, k) ∷ s) key = if k ≟ key then some i else member_id s key

abbrev pub has_proof_of : Text → List DetachedProof → Bool
has_proof_of i [] = false
has_proof_of i (p ∷ ps) = p.signer_id ≟ i || has_proof_of i ps

abbrev pub first_signer : List DetachedProof → Option Text
first_signer [] = none
first_signer (p ∷ ps) = some p.signer_id

abbrev pub key_of_first : List Signer → Option Text → Option Bytes
key_of_first signer_set none = none
key_of_first signer_set (some i) = public_key_of signer_set i

-- The proofs of an envelope; one of the null signer is refused.
unfoldable pub from_wire : Bytes → List Proof → Result (List DetachedProof)
unfolding make_proof
from_wire update [] = ok []
from_wire update ((none, signature) ∷ ps) =
    raise (value_error "proof signer_id must be a non-empty text string")
from_wire update ((some i, signature) ∷ ps) = do
  p ← make_proof update i signature
  rest ← from_wire update ps
  ok (p ∷ rest)

module _ (lib : Library) where
  -- `MultisignatureBundle(...)`
  unfoldable pub make_bundle : Bytes → List DetachedProof → Result SigningBundle
  make_bundle update proofs = do
    decode_multisignature_signed_update lib update
    ok (record { signed_update_bytes = update; proofs = sort bundle_sort_key proofs })

  -- The properties `signed_update` and `authorization`.
  abbrev pub signed_update_of : SigningBundle → Result (SignedUpdate × Authorization)
  signed_update_of b = decode_multisignature_signed_update lib b.signed_update_bytes

  unfoldable pub to_cbor : SigningBundle → Result Bytes
  to_cbor b =
      encode_multisignature_envelope lib b.signed_update_bytes (proofs_value (map to_wire b.proofs))
        true

  unfoldable pub from_cbor : Bytes → Result SigningBundle
  unfolding from_wire make_bundle
  from_cbor b = do
    envelope ← decode_multisignature_envelope lib b
    proofs ← from_wire envelope.signed_update_bytes envelope.proofs
    make_bundle envelope.signed_update_bytes proofs

  unfoldable pub draft_bundle : ℕ → Entries → Entries → DraftTerms → ℕ → Result SigningBundle
  unfolding make_bundle
  draft_bundle record_kind record_fields payload terms operation = do
    update ← encode_signed_update lib record_fields payload terms.seq (
        some (
          authorization_entries record_kind operation terms.epoch terms.threshold terms.signer_set
            terms.predecessor_state_hash))
    make_bundle update []

  unfoldable pub draft_identity_bundle : Bytes → Bytes → DraftTerms → ℕ → Result SigningBundle
  unfolding draft_bundle
  draft_identity_bundle owner_name owner_public_key terms operation =
      draft_bundle record_kind_identity
        (entry (int 1) (bytes owner_name) (entry (int 2) (bytes owner_public_key) end)) end terms
        operation

  unfoldable pub draft_provider_bundle :
      Text → Text → List Text → List Text → Bytes → DraftTerms → ℕ → Result SigningBundle
  unfolding draft_bundle
  draft_provider_bundle alg object_hash provider_urls endpoints owner_public_key terms operation =
      do
        payload ← build_provider_payload_dict lib alg object_hash provider_urls endpoints
        draft_bundle record_kind_provider (entry (int 1) (bytes owner_public_key) end) payload terms
            operation

  unfoldable pub draft_provider_withdrawal_bundle :
      Text → Text → Option Text → Bytes → DraftTerms → Result SigningBundle
  unfolding draft_bundle
  draft_provider_withdrawal_bundle alg object_hash replacement owner_public_key terms = do
    payload ← build_provider_withdrawal_payload_dict alg object_hash replacement
    draft_bundle record_kind_provider (entry (int 1) (bytes owner_public_key) end) payload terms
        operation_ordinary_update

  unfoldable pub sign_bundle : SigningBundle → PrivateKey → Result DetachedProof
  unfolding member_id make_proof
  sign_bundle b private_key = do
    public_key ←
        or_raise private_key.public_key
          (type_error "signer_private_key must be one local Ed25519 private key")
    decoded ← signed_update_of b
    signer_id ←
        or_raise (member_id decoded.1.signer_set public_key)
          (value_error "signer is not a member of the bundle Signer Set")
    signature ← or_raise (private_key.sign (lib.sha256 b.signed_update_bytes)) library_error
    make_proof b.signed_update_bytes signer_id signature

  -- `_validate_proof`
  unfoldable pub validate_detached_proof : SigningBundle → DetachedProof → Result Done
  validate_detached_proof b p = do
    raise_if (not (p.signed_update_bytes ≟ b.signed_update_bytes))
        (value_error "proof is not bound to the exact bundle SignedUpdate")
    decoded ← signed_update_of b
    key ←
        or_raise (public_key_of decoded.1.signer_set p.signer_id)
          (value_error "proof signer is not a member of the bundle Signer Set")
    raise_if (not (length p.signature == 64)) (value_error "proof signature is malformed")
    require_signature lib key b.signed_update_bytes p.signature "proof signature is invalid"

  unfoldable pub merge_proof : SigningBundle → DetachedProof → Result SigningBundle
  unfolding validate_detached_proof make_bundle
  merge_proof b p = do
    raise_if (has_proof_of p.signer_id b.proofs) (value_error "duplicate proof signer")
    validate_detached_proof b p
    make_bundle b.signed_update_bytes (b.proofs ++ p ∷ [])

  unfoldable pub merge_proofs : SigningBundle → List DetachedProof → Result SigningBundle
  unfolding merge_proof
  merge_proofs b [] = ok b
  merge_proofs b (p ∷ ps) = do merged ← merge_proof b p; merge_proofs merged ps

  -- The loop of `finalize_bundle`; the signers seen, at its end.
  unfoldable pub check_bundle_proofs :
      SigningBundle → List DetachedProof → List Bytes → Result (List Bytes)
  unfolding validate_detached_proof
  check_bundle_proofs b [] seen = ok seen
  check_bundle_proofs b (p ∷ ps) seen = do
    raise_if (contains p.signer_id seen) (value_error "duplicate proof signer")
    validate_detached_proof b p
    check_bundle_proofs b ps (p.signer_id ∷ seen)

  -- The tests on the number of the proofs.
  unfoldable pub check_complete :
      SigningBundle → SignedUpdate × Authorization → List Bytes → Result Done
  check_complete b (u, a) seen =
      if a.operation == operation_upgrade
      then (do
        raise_if (not (length seen == 1)) (value_error "upgrade requires one legacy owner proof")
        owner ← bytes_field u.record_fields (if a.record_kind == record_kind_identity then 2 else 1)
        raise_if (not (key_of_first a.signer_set (first_signer b.proofs) ≟ some owner))
            (value_error "upgrade proof must be from the legacy owner"))
      else raise_if (ltb (length seen) a.threshold) (value_error "threshold not met")

  unfoldable pub finalize_bundle : SigningBundle → Result Bytes
  unfolding check_bundle_proofs check_complete
  finalize_bundle b = do
    seen ← check_bundle_proofs b b.proofs []
    decoded ← signed_update_of b
    check_complete b decoded seen
    encode_multisignature_envelope lib b.signed_update_bytes (proofs_value (map to_wire b.proofs))
        true
