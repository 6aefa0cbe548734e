-- ===== src/Bundle/Roundtrip.antt =====
-- src/decent_registry/multisig_bundle.py: bundles that are written and read again.
use decent_registry.Prelude.{
  ◌≤◌, true, false, some, List, [], ◌∷◌, ◌≡◌, refl, ◌∙◌, arith, length, map, All, ok, succeeded,
  subst,
}
use decent_registry.Prelude.Sorting.{IsSorted, sort_of_IsSorted}
use decent_registry.Cbor.{Bytes, Text, Library}
use decent_registry.Cbor.Codec.{IsCodec}
use decent_registry.Encoding.Authorization.{Authorization}
use decent_registry.Encoding.Update.{SignedUpdate, decode_multisignature_signed_update}
use decent_registry.Envelope.{
  Proof, proof_sort_key, proofs_value, encode_multisignature_envelope,
  decode_multisignature_envelope,
}
use decent_registry.Envelope.Proofs.{IsProof, AreProofs, validate_proofs-AreProofs}
use decent_registry.Envelope.Roundtrip.{decode-encode_multisignature_envelope}
use decent_registry.Bundle.{
  DetachedProof, SigningBundle, bundle_sort_key, make_proof, make_bundle, is_nil_text, to_wire,
  from_wire, to_cbor, from_cbor,
}
use decent_registry.Bundle.Finalized.{validate_proofs-sorted}

wire-IsSorted :
    (ps : List DetachedProof)
    → IsSorted bundle_sort_key ps
    → IsSorted proof_sort_key (map to_wire ps)
wire-IsSorted [] h = tt
wire-IsSorted (p ∷ []) h = tt
wire-IsSorted (p ∷ q ∷ ps) (le, h) = (le, wire-IsSorted (q ∷ ps) h)

-- The proofs of the update.
abbrev pub AreBound : Bytes → List DetachedProof → Type 0
AreBound update ps = All (λ (p : DetachedProof). p.signed_update_bytes ≡ update) ps

is_nil_text-false : (s : Text) → 1 ≤ length s → is_nil_text s ≡ false
is_nil_text-false [] h = absurd (omega arith)
is_nil_text-false (c ∷ s) h = refl

make_proof-fields :
    (update : Bytes) (p : DetachedProof)
    → p.signed_update_bytes ≡ update
    → IsProof (to_wire p)
    → make_proof update p.signer_id p.signature ≡ ok p
unfolding make_proof
make_proof-fields update p bound ((some_text, _), _) =
    rw (is_nil_text-false p.signer_id some_text) (ground arith)

from_wire-to_wire :
    (update : Bytes) (ps : List DetachedProof)
    → AreBound update ps
    → All IsProof (map to_wire ps)
    → from_wire update (map to_wire ps) ≡ ok ps
unfolding from_wire
from_wire-to_wire update [] bound valid = refl
from_wire-to_wire update (p ∷ ps) (bound, rest) (valid, others) =
    rw (make_proof-fields update p bound valid, from_wire-to_wire update ps rest others)

module _ (lib : Library) where
  abbrev Reads : SigningBundle → Bytes → List Proof → Type 0
  Reads b e ps =
      decode_multisignature_envelope lib e
      ≡ ok (record { version = 1; signed_update_bytes = b.signed_update_bytes; proofs = ps })

  read_back :
      (b : SigningBundle) (e : Bytes) (r : SignedUpdate × Authorization)
      → decode_multisignature_signed_update lib b.signed_update_bytes ≡ ok r
      → Reads b e (map to_wire b.proofs)
      → from_wire b.signed_update_bytes (map to_wire b.proofs) ≡ ok b.proofs
      → IsSorted bundle_sort_key b.proofs
      → from_cbor lib e ≡ ok b
  unfolding from_cbor make_bundle
  read_back b e r decoded read same ordered =
      rw (read, same, decoded, sort_of_IsSorted bundle_sort_key b.proofs ordered)

  -- A bundle with its proofs in order and of its update, partial or complete, that is written to
  -- CBOR is read back as it was. `loads` reads back what `dumps` wrote.
  pub from_cbor-to_cbor :
      IsCodec lib
      → (b : SigningBundle) (e : Bytes) → AreBound b.signed_update_bytes b.proofs
      → IsSorted bundle_sort_key b.proofs
      → to_cbor lib b ≡ ok e
      → from_cbor lib e ≡ ok b
  unfolding to_cbor encode_multisignature_envelope
  from_cbor-to_cbor codec b e bound ordered h =
      let proofs = map to_wire b.proofs in
      let (ps, valid, read) =
        decode-encode_multisignature_envelope lib codec b.signed_update_bytes (proofs_value proofs)
          true e h in
      let same : ps ≡ proofs =
        validate_proofs-sorted proofs ps valid
        ∙ sort_of_IsSorted proof_sort_key proofs (wire-IsSorted b.proofs ordered) in
      let valid' : AreProofs proofs =
        subst AreProofs same
          (validate_proofs-AreProofs (some (proofs_value proofs)) true ps valid) in
      succeeded (decode_multisignature_signed_update lib b.signed_update_bytes)
        (λ x y. ground arith)
        λ r decoded.
          read_back b e r decoded (subst (Reads b e) same read)
            (from_wire-to_wire b.signed_update_bytes b.proofs bound valid'.proofs) ordered
