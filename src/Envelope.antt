-- ===== src/Envelope.antt =====
-- src/decent_registry/signed_envelope.py
pub mod Proofs
pub mod Roundtrip
use decent_registry.Prelude.{
  ℕ, String, Bool, true, false, not, Option, none, some, List, [], ◌∷◌, ltb, ◌==◌, length, map,
  Result, Done, ok, raise, value_error, type_error, ◌>>=◌, ◌>>◌, raise_if, ◌≟◌, optional_eq,
  proofs_eq, contains,
}
use decent_registry.Prelude.Sorting.{sort}
use decent_registry.Cbor.{
  Text, Bytes, Library, Value, null, int, text, bytes, array, dict, Entries, entry, end, get,
  has_key, has_keys, of_list, elements,
}
use decent_registry.Encoding.Update.{
  is_canonical_cbor, canonical_cbor, decode_multisignature_signed_update,
}

-- A proof: the signer's identifier, which may be null, and the signature.
abbrev pub Proof : Type 0
Proof = Option (List ℕ) × List ℕ

pub record MultisignatureEnvelope : Type 0 where
  pub version : ℕ
  pub signed_update_bytes : Bytes
  pub proofs : List Proof

abbrev pub proof_sort_key : Proof → Bytes
proof_sort_key (none, _) = []
proof_sort_key (some i, _) = i

abbrev pub sorted_proofs : List Proof → List Proof
sorted_proofs = sort proof_sort_key

abbrev pub check_proof_signer : Option Value → Result (Option Text)
check_proof_signer (some null) = ok none
check_proof_signer (some (text (c ∷ s))) = do
  raise_if (ltb 256 (length (c ∷ s)))
      (value_error "proof signer_id must be at most 256 UTF-8 bytes")
  ok (some (c ∷ s))
check_proof_signer _ = raise (value_error "proof signer_id must be a non-empty text string")

abbrev pub check_signature : Option Value → Result Bytes
check_signature (some (bytes b)) = do
  raise_if (not (length b == 64)) (value_error "proof signature must be exactly 64 bytes")
  ok b
check_signature _ = raise (type_error "proof signature must be bytes")

-- One round of the loop over the proofs.
unfoldable pub check_proof : Value → List (Option Text) → Result Proof
check_proof (dict d) seen = do
  raise_if (not (has_keys d (1 ∷ 2 ∷ []))) (value_error "proof must be a map with keys {1,2}")
  signer_id ← check_proof_signer (get d 1)
  raise_if (contains signer_id seen) (value_error "duplicate proof signer identifier")
  signature ← check_signature (get d 2)
  ok (signer_id, signature)
check_proof _ seen = raise (value_error "proof must be a map with keys {1,2}")

unfoldable pub check_proofs : List Value → List (Option Text) → Result (List Proof)
unfolding check_proof
check_proofs [] seen = ok []
check_proofs (v ∷ vs) seen = do
  proof ← check_proof v seen
  rest ← check_proofs vs (proof.0 ∷ seen)
  ok (proof ∷ rest)

unfoldable pub finish_proofs : List Proof → Bool → Result (List Proof)
finish_proofs normalized true = ok (sorted_proofs normalized)
finish_proofs normalized false = do
  raise_if (not (normalized ≟ sorted_proofs normalized))
      (value_error "proofs must be canonically ordered")
  ok normalized

-- `_validate_proofs(proofs, sort_proofs=sort, require_sorted=not sort)`
unfoldable pub validate_proofs : Option Value → Bool → Result (List Proof)
unfolding check_proofs finish_proofs
validate_proofs (some (array vs)) sort_proofs = do
  normalized ← check_proofs (elements vs) []
  finish_proofs normalized sort_proofs
validate_proofs _ sort_proofs = raise (type_error "proofs must be a CBOR array")

abbrev pub optional_text : Option Text → Value
optional_text none = null
optional_text (some s) = text s

abbrev pub proof_value : Proof → Value
proof_value (i, signature) =
    dict (entry (int 1) (optional_text i) (entry (int 2) (bytes signature) end))

abbrev pub proofs_value : List Proof → Value
proofs_value ps = array (of_list (map proof_value ps))

abbrev pub multisig_envelope_version : ℕ
multisig_envelope_version = 1

abbrev pub envelope_value : Bytes → List Proof → Value
envelope_value update proofs = dict (
    entry (int 1) (int multisig_envelope_version)
      (entry (int 2) (bytes update) (entry (int 3) (proofs_value proofs) end)))

abbrev pub legacy_envelope_value : Bytes → Bytes → Value
legacy_envelope_value update signature =
    dict (entry (int 1) (bytes update) (entry (int 2) (bytes signature) end))

abbrev check_envelope_version : Option Value → Result Done
check_envelope_version (some (int n)) =
    raise_if (not (n == multisig_envelope_version)) (value_error "unsupported envelope version")
check_envelope_version (some (Value.negative n)) =
    raise (value_error "unsupported envelope version")
check_envelope_version _ = raise (value_error "envelope version must be an integer")

module _ (lib : Library) where
  unfoldable pub encode_signed_envelope : Bytes → Bytes → Result Bytes
  unfolding canonical_cbor
  encode_signed_envelope update signature =
      canonical_cbor lib (legacy_envelope_value update signature)

  abbrev pub as_bytes : Option Value → String → Result Bytes
  as_bytes (some (bytes b)) message = ok b
  as_bytes _ message = raise (value_error message)

  -- Whether the nested update is a map with the authorization key.
  abbrev pub carries_authorization : Option Value → Bool
  carries_authorization (some (dict d)) = has_key d 4
  carries_authorization _ = false

  abbrev pub envelope_map : Option Value → String → Result Entries
  envelope_map (some (dict d)) message = ok d
  envelope_map _ message = raise (value_error message)

  unfoldable pub decode_signed_envelope : Bytes → Result (Bytes × Bytes)
  decode_signed_envelope b = do
    raise_if (not (is_canonical_cbor lib b))
        (value_error "non-canonical or invalid signed envelope")
    d ← envelope_map (lib.loads b) "signed envelope must be a CBOR map"
    raise_if (not (has_keys d (1 ∷ 2 ∷ []))) (value_error "signed envelope must contain keys {1,2}")
    update ← as_bytes (get d 1) "signed_update_bytes must be bytes"
    signature ← as_bytes (get d 2) "signature must be bytes"
    raise_if (carries_authorization (lib.loads update))
        (value_error "legacy envelope cannot carry multisignature SignedUpdate")
    ok (update, signature)

  -- `version` is the default, 1, which is the only one allowed; the proofs are sorted.
  unfoldable pub encode_multisignature_envelope : Bytes → Value → Bool → Result Bytes
  unfolding canonical_cbor
  encode_multisignature_envelope update proofs sort_proofs = do
    decode_multisignature_signed_update lib update
    normalized ← validate_proofs (some proofs) sort_proofs
    canonical_cbor lib (envelope_value update normalized)

  unfoldable pub decode_multisignature_envelope : Bytes → Result MultisignatureEnvelope
  decode_multisignature_envelope b = do
    raise_if (not (is_canonical_cbor lib b))
        (value_error "non-canonical or invalid multisignature envelope")
    d ← envelope_map (lib.loads b) "multisignature envelope must contain keys {1,2,3}"
    raise_if (not (has_keys d (1 ∷ 2 ∷ 3 ∷ [])))
        (value_error "multisignature envelope must contain keys {1,2,3}")
    check_envelope_version (get d 1)
    update ← as_bytes (get d 2) "signed_update_bytes must be bytes"
    decode_multisignature_signed_update lib update
    proofs ← validate_proofs (get d 3) false
    ok (record {
      version = multisig_envelope_version;
      signed_update_bytes = update;
      proofs = proofs;
    })
