-- ===== src/Tests/Bundles.antt =====
-- multisig_bundle.py on small data.
use mathlib.Core.List.{Nodup-nil, Perm}
use decent_registry.Prelude.{
  true, List, [], ◌∷◌, ◌++◌, ◌≡◌, refl, ok, Result, bytes_eq, optional_eq, pairs_eq, proofs_eq,
}
use decent_registry.Prelude.Sorting.{bytes_le, sort}
use decent_registry.Encoding.Authorization.{
  require_uint, validate_signer_entries, validate_authorization_map,
}
use decent_registry.Encoding.Update.{
  is_bytes, check_32_bytes, validate_uint_keys, validate_record_kind_binding, canonical_cbor,
  is_canonical_cbor, validate_decoded_signed_update, decode_canonical_signed_update,
  decode_multisignature_signed_update,
}
use decent_registry.Envelope.{
  MultisignatureEnvelope, envelope_value, validate_proofs, encode_multisignature_envelope,
  decode_multisignature_envelope,
}
use decent_registry.Verification.Candidate.{
  public_key_of, verify_ed25519_signature, require_signature, validate_threshold_proofs,
}
use decent_registry.Bundle.{
  DetachedProof, SigningBundle, make_bundle, validate_detached_proof, merge_proof, merge_proofs,
  check_bundle_proofs, check_complete, finalize_bundle, to_cbor, from_cbor,
}
use decent_registry.Bundle.Merging.{IsBundle, merge_proofs-IsBundle}
use decent_registry.Bundle.Finalized.{validate_threshold_proofs-finalize_bundle}
use decent_registry.Bundle.Roundtrip.{from_cbor-to_cbor}
use decent_registry.Tests.Toy.{key_a, key_b, sign, two_proofs}
use decent_registry.Tests.Wire.{wire, wire_dumps, wire-IsCodec, code_value}
use decent_registry.Tests.Records.{first_authorization, first_update, first_bytes}

abbrev proof_a : DetachedProof
proof_a = record {
  signed_update_bytes = first_bytes;
  signer_id = b'a' ∷ [];
  signature = sign key_a;
}

abbrev proof_b : DetachedProof
proof_b = record {
  signed_update_bytes = first_bytes;
  signer_id = b'b' ∷ [];
  signature = sign key_b;
}

abbrev draft : SigningBundle
draft = record { signed_update_bytes = first_bytes; proofs = [] }

abbrev signed : SigningBundle
signed = record { signed_update_bytes = first_bytes; proofs = proof_a ∷ proof_b ∷ [] }

merge : List DetachedProof → Result SigningBundle
unfolding bytes_eq optional_eq pairs_eq proofs_eq bytes_le sort require_uint validate_signer_entries
    validate_authorization_map validate_uint_keys is_bytes check_32_bytes
    validate_record_kind_binding canonical_cbor is_canonical_cbor validate_decoded_signed_update
    decode_canonical_signed_update decode_multisignature_signed_update validate_proofs
    encode_multisignature_envelope code_value public_key_of verify_ed25519_signature
    require_signature make_bundle validate_detached_proof merge_proof merge_proofs
    check_bundle_proofs check_complete finalize_bundle to_cbor
merge = merge_proofs wire draft

decoded :
    decode_multisignature_signed_update wire first_bytes ≡ ok (first_update, first_authorization)
unfolding merge
decoded = refl

merged : merge_proofs wire draft (proof_b ∷ proof_a ∷ []) ≡ ok signed
unfolding merge
merged = refl

draft-IsBundle : IsBundle wire first_bytes first_update first_authorization draft
draft-IsBundle = record { bytes = refl; proofs = tt; ids = Nodup-nil; ordered = tt }

merge_proofs-IsBundle_example :
    IsBundle wire first_bytes first_update first_authorization signed
    × Perm signed.proofs (draft.proofs ++ proof_b ∷ proof_a ∷ [])
merge_proofs-IsBundle_example =
    merge_proofs-IsBundle wire first_bytes first_update first_authorization decoded draft signed
      (proof_b ∷ proof_a ∷ []) draft-IsBundle merged

finalized : finalize_bundle wire signed ≡ ok (wire_dumps (envelope_value first_bytes two_proofs))
unfolding merge
finalized = refl

validate_threshold_proofs-finalize_bundle_example :
    (envelope : MultisignatureEnvelope) × (decode_multisignature_envelope wire
        (wire_dumps (envelope_value first_bytes two_proofs))
      ≡ ok envelope)
    × (envelope.signed_update_bytes ≡ first_bytes)
    × (validate_threshold_proofs wire first_bytes envelope first_authorization.signer_set 2 ≡ ok tt)
validate_threshold_proofs-finalize_bundle_example =
    validate_threshold_proofs-finalize_bundle wire first_update first_authorization signed decoded
      wire-IsCodec (wire_dumps (envelope_value first_bytes two_proofs)) finalized refl

written : to_cbor wire signed ≡ ok (wire_dumps (envelope_value first_bytes two_proofs))
unfolding merge
written = refl

ordered : bytes_le (b'a' ∷ []) (b'b' ∷ []) ≡ true
unfolding bytes_le
ordered = refl

from_cbor-to_cbor_example :
    from_cbor wire (wire_dumps (envelope_value first_bytes two_proofs)) ≡ ok signed
from_cbor-to_cbor_example =
    from_cbor-to_cbor wire wire-IsCodec signed (wire_dumps (envelope_value first_bytes two_proofs))
      (refl, (refl, tt)) (ordered, tt) written
