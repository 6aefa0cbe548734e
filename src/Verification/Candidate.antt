-- ===== src/Verification/Candidate.antt =====
-- src/decent_registry/verification.py: what the transitions share. Candidates, accepted states,
-- legacy states and threshold proofs.
pub mod Quorum
use decent_registry.Prelude.{
  ℕ, String, Bool, true, false, ◌||◌, not, Option, none, some, List, [], ◌∷◌, ◌++◌, ltb, ◌==◌,
  if◌then◌else◌, length, Result, Done, ok, raise, value_error, type_error, key_error, library_error,
  ◌>>=◌, ◌>>◌, raise_if, or_raise, rethrow, ◌≟◌, bytes_eq, optional_eq, contains,
}
use decent_registry.Cbor.{Text, Bytes, Library, Value, bytes, Entries, get}
use decent_registry.Provider.Chars.{from_hex}
use decent_registry.Provider.Payload.{
  ProviderPayload, active, withdrawn, decode_provider_payload_dict,
}
use decent_registry.Encoding.Authorization.{
  Authorization, Signer, record_kind_identity, record_kind_provider,
}
use decent_registry.Encoding.Update.{decode_multisignature_signed_update}
use decent_registry.Envelope.{MultisignatureEnvelope, Proof, decode_multisignature_envelope}

pub record MultisignatureState : Type 0 where
  pub record_key : Bytes
  pub record_kind : ℕ
  pub owner_public_key : Bytes
  pub signed_update_bytes : Bytes
  pub state_hash : Bytes
  pub epoch : ℕ
  pub seq : ℕ
  pub threshold : ℕ
  pub signer_set : List Signer
  pub history : Option (List Bytes)

-- The tuple that `_decode_multisignature_candidate` returns.
pub record Candidate : Type 0 where
  pub signed_update_bytes : Bytes
  pub envelope : MultisignatureEnvelope
  pub record_fields : Entries
  pub payload : Entries
  pub seq : ℕ
  pub record_key : Bytes
  pub authorization : Authorization

-- `bytes(fields[n])`, of a field that the decoder has checked to be bytes.
unfoldable pub bytes_field : Entries → ℕ → Result Bytes
bytes_field d n = elim (get d n) [
  | none ↦ raise key_error
  | some (bytes b) ↦ ok b
  | some _ ↦ raise (type_error "bytes")
]

abbrev pub object_hash_of : ProviderPayload → Text
object_hash_of (active p) = p.object_hash
object_hash_of (withdrawn p) = p.object_hash

abbrev pub is_withdrawn : ProviderPayload → Bool
is_withdrawn (active p) = false
is_withdrawn (withdrawn p) = true

-- `dict(signer_set).get(signer_id)`: the last entry of an identifier counts.
unfoldable pub public_key_of : List Signer → Text → Option Bytes
public_key_of [] i = none
public_key_of ((j, k) ∷ s) i = elim (public_key_of s i) [
  | some later ↦ some later
  | none ↦ if j ≟ i then some k else none
]

abbrev pub expected_key : List Signer → Option Text → Option Bytes
expected_key s none = none
expected_key s (some i) = public_key_of s i

-- The identifiers of the entries with the public key.
unfoldable pub ids_of : List Signer → Bytes → List Text
ids_of [] key = []
ids_of ((i, k) ∷ s) key = let rest = ids_of s key in if k ≟ key then i ∷ rest else rest

unfoldable pub signer_id_for_public_key : Authorization → Bytes → Result Text
signer_id_for_public_key a key = elim (ids_of a.signer_set key) [
  | [] ↦ raise (value_error "legacy owner must be present in next Signer Set")
  | i ∷ [] ↦ ok i
  | _ ↦ raise (value_error "legacy owner must be present in next Signer Set")
]

unfoldable pub require_complete_2_of_3 : Authorization → Result Done
require_complete_2_of_3 a =
    raise_if (not (a.threshold == 2) || not (length a.signer_set == 3))
      (value_error "complete 2-of-3 Signer Set required")

-- `bytes(32)`
abbrev pub zero_hash : Bytes
zero_hash =
    0 ∷ 0 ∷ 0 ∷ 0 ∷ 0 ∷ 0 ∷ 0 ∷ 0 ∷ 0 ∷ 0 ∷ 0 ∷ 0 ∷ 0 ∷ 0 ∷ 0 ∷ 0 ∷ 0 ∷ 0 ∷ 0 ∷ 0 ∷ 0 ∷ 0 ∷ 0 ∷ 0
    ∷ 0 ∷ 0 ∷ 0 ∷ 0 ∷ 0 ∷ 0 ∷ 0 ∷ 0 ∷ []

-- The field of the owner's public key.
abbrev pub owner_field : ℕ → ℕ
owner_field record_kind = if record_kind == record_kind_identity then 2 else 1

unfoldable pub append_history : MultisignatureState → Bytes → Option (List Bytes)
append_history s envelope = elim s.history [ none ↦ none | some h ↦ some (h ++ envelope ∷ []) ]

module _ (lib : Library) where
  unfoldable pub verify_ed25519_signature : Bytes → Bytes → Bytes → Result Bool
  verify_ed25519_signature public_key update signature =
      or_raise (lib.verify public_key (lib.sha256 update) signature) library_error

  -- A signature that must be valid: `try: … except: raise e`, then `if not valid: raise e`.
  unfoldable pub require_signature : Bytes → Bytes → Bytes → String → Result Done
  unfolding verify_ed25519_signature
  require_signature public_key update signature message = do
    valid ← rethrow (verify_ed25519_signature public_key update signature) (value_error message)
    raise_if (not valid) (value_error message)

  abbrev identity_keys : Option Value → Option Value → Result (Bytes × Bytes)
  identity_keys (some (bytes name)) (some (bytes key)) = ok (lib.sha256 name, key)
  identity_keys _ _ = raise (value_error "not an identity record")

  -- The record key and the owner's public key.
  unfoldable pub extract_identity_and_keys : Entries → Result (Bytes × Bytes)
  extract_identity_and_keys record_fields =
      identity_keys (get record_fields 1) (get record_fields 2)

  abbrev provider_owner : Option Value → Result Bytes
  provider_owner (some (bytes key)) = ok key
  provider_owner _ = raise (value_error "not a provider record")

  unfoldable pub extract_provider_and_keys : Entries → Entries → Result (Bytes × Bytes)
  extract_provider_and_keys record_fields payload = do
    owner ← provider_owner (get record_fields 1)
    p ← rethrow (decode_provider_payload_dict lib payload) (value_error "invalid provider payload")
    let object_hash = object_hash_of p
    raise_if (not (length object_hash == 64)) (value_error "object_hash must be 64 hex chars")
    key ← or_raise (from_hex object_hash) (value_error "object_hash must be valid hex")
    ok (key, owner)

  abbrev pub extract_keys : Entries → Entries → ℕ → Result (Bytes × Bytes)
  extract_keys record_fields payload record_kind =
      if record_kind == record_kind_identity
      then extract_identity_and_keys record_fields
      else if record_kind == record_kind_provider
      then extract_provider_and_keys record_fields payload
      else raise (value_error "unsupported record kind")

  unfoldable pub decode_multisignature_candidate : Bytes → Result Candidate
  decode_multisignature_candidate envelope_cbor = do
    envelope ← decode_multisignature_envelope lib envelope_cbor
    decoded ← decode_multisignature_signed_update lib envelope.signed_update_bytes
    keys ← extract_keys decoded.0.record_fields decoded.0.payload decoded.1.record_kind
    ok (record {
      signed_update_bytes = envelope.signed_update_bytes;
      envelope = envelope;
      record_fields = decoded.0.record_fields;
      payload = decoded.0.payload;
      seq = decoded.0.seq;
      record_key = keys.0;
      authorization = decoded.1;
    })

  unfoldable pub candidate_state :
      Bytes → Candidate → Option (List Bytes) → Result MultisignatureState
  candidate_state record_key c history = do
    owner ← bytes_field c.record_fields (owner_field c.authorization.record_kind)
    ok (record {
      record_key = record_key;
      record_kind = c.authorization.record_kind;
      owner_public_key = owner;
      signed_update_bytes = c.signed_update_bytes;
      state_hash = lib.sha256 c.signed_update_bytes;
      epoch = c.authorization.epoch;
      seq = c.seq;
      threshold = c.authorization.threshold;
      signer_set = c.authorization.signer_set;
      history = if c.authorization.record_kind == record_kind_identity then history else none;
    })

  -- One round of the loop over the proofs.
  check_threshold_proof : Bytes → List Signer → Proof → List (Option Text) → Result Done
  check_threshold_proof update signer_set proof seen = do
    raise_if (contains proof.0 seen) (value_error "duplicate proof signer")
    public_key ←
        or_raise (expected_key signer_set proof.0)
          (value_error "proof is not from current Signer Set")
    require_signature public_key update proof.1 "invalid proof signature"

  -- The identifiers seen, at the end of the loop.
  check_threshold_proofs :
      Bytes → List Signer → List Proof → List (Option Text) → Result (List (Option Text))
  check_threshold_proofs update signer_set [] seen = ok seen
  check_threshold_proofs update signer_set (p ∷ ps) seen = do
    check_threshold_proof update signer_set p seen
    check_threshold_proofs update signer_set ps (p.0 ∷ seen)

  unfoldable pub validate_threshold_proofs :
      Bytes → MultisignatureEnvelope → List Signer → ℕ → Result Done
  unfolding check_threshold_proofs check_threshold_proof
  validate_threshold_proofs update envelope signer_set threshold = do
    raise_if (ltb (length envelope.proofs) threshold) (value_error "insufficient quorum")
    seen ← check_threshold_proofs update signer_set envelope.proofs []
    raise_if (ltb (length seen) threshold) (value_error "insufficient quorum")
