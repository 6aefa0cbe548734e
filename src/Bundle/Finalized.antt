-- ===== src/Bundle/Finalized.antt =====
-- src/decent_registry/multisig_bundle.py: what a finalized bundle holds.
use decent_registry.Prelude.{
  ℕ, ◌+◌, ◌≤◌, true, false, Option, none, some, List, [], ◌∷◌, ◌≡◌, refl, arith, length, map, All,
  ok, succeeded, bytes_eq, ◌==◌, ltb, ltb-false,
}
use decent_registry.Prelude.Sorting.{sort-length, All-sort}
use decent_registry.Cbor.{Bytes, Text, Library, of_list, elements, elements-of_list}
use decent_registry.Cbor.Codec.{IsCodec}
use decent_registry.Encoding.Authorization.{Authorization, operation_upgrade}
use decent_registry.Encoding.Update.{SignedUpdate, decode_multisignature_signed_update}
use decent_registry.Envelope.{
  Proof, MultisignatureEnvelope, proof_sort_key, sorted_proofs, proof_value, proofs_value,
  check_proof, check_proofs, finish_proofs, validate_proofs, decode_multisignature_envelope,
}
use decent_registry.Envelope.Proofs.{AreProofs, validate_proofs-AreProofs}
use decent_registry.Envelope.Roundtrip.{decode-encode_multisignature_envelope}
use decent_registry.Verification.Candidate.{validate_threshold_proofs}
use decent_registry.Verification.Candidate.Quorum.{Signs, Quorum, validate_threshold_proofs-Quorum}
use decent_registry.Bundle.{
  DetachedProof, SigningBundle, to_wire, validate_detached_proof, check_bundle_proofs,
  check_complete, finalize_bundle,
}
use decent_registry.Bundle.Merging.{IsChecked, validate_detached_proof-IsChecked}

check_proof-value :
    (p q : Proof) (seen : List (Option Text)) → check_proof (proof_value p) seen ≡ ok q → q ≡ p
unfolding check_proof
check_proof-value (none, b) q seen h = ground arith
check_proof-value (some [], b) q seen h = absurd (ground arith)
check_proof-value (some (c ∷ i), b) q seen h = ground arith

check_proofs-values :
    (ps out : List Proof) (seen : List (Option Text))
    → check_proofs (map proof_value ps) seen ≡ ok out
    → out ≡ ps
unfolding check_proofs
check_proofs-values [] out seen h = ground arith
check_proofs-values (p ∷ ps) out seen h =
    succeeded (check_proof (proof_value p) seen) (λ e x. ground arith)
      λ q one.
        succeeded (check_proofs (map proof_value ps) (q.0 ∷ seen)) (λ e x. ground arith)
          λ rest more.
            let first = check_proof-value p q seen one in
            let others = check_proofs-values ps rest (q.0 ∷ seen) more in ground arith

-- The proofs of an array that validates in the sorting mode.
pub validate_proofs-sorted :
    (ps out : List Proof)
    → validate_proofs (some (proofs_value ps)) true ≡ ok out
    → out ≡ sorted_proofs ps
unfolding validate_proofs finish_proofs
validate_proofs-sorted ps out h =
    let listed = elements-of_list (map proof_value ps) in
    succeeded (check_proofs (elements (of_list (map proof_value ps))) []) (λ e x. ground arith)
      λ all run. let same = check_proofs-values ps all [] (rw (← listed) run) in ground arith

module _ (lib : Library) (u : SignedUpdate) (a : Authorization) (b : SigningBundle)
    (decoded : decode_multisignature_signed_update lib b.signed_update_bytes ≡ ok (u, a)) where
  check_bundle_proofs-IsChecked :
      (ps : List DetachedProof) (seen all : List Bytes)
      → check_bundle_proofs lib b ps seen ≡ ok all
      → All (IsChecked lib b.signed_update_bytes u a) ps × (length all ≡ length ps + length seen)
  unfolding check_bundle_proofs
  check_bundle_proofs-IsChecked [] seen all h = (tt, ground arith)
  check_bundle_proofs-IsChecked (p ∷ ps) seen all h =
      let valid : validate_detached_proof lib b p ≡ ok tt = ground arith in
      let (checked, size) =
        check_bundle_proofs-IsChecked ps (p.signer_id ∷ seen) all (ground arith) in
      (
        (
          validate_detached_proof-IsChecked lib b.signed_update_bytes u a decoded b p refl valid,
          checked,
        ),
        omega arith,
      )

  wire-Signs :
      (ps : List DetachedProof)
      → All (IsChecked lib b.signed_update_bytes u a) ps
      → All (Signs lib b.signed_update_bytes a.signer_set) (map to_wire ps)
  wire-Signs [] h = tt
  wire-Signs (p ∷ ps) (c, h) = (c.signs, wire-Signs ps h)

  length-wire : (ps : List DetachedProof) → length (map to_wire ps) ≡ length ps
  length-wire [] = refl
  length-wire (p ∷ ps) = omega (arith, length-wire ps)

  sorted-Quorum :
      (ps : List Proof) (threshold : ℕ)
      → ps ≡ sorted_proofs (map to_wire b.proofs)
      → AreProofs ps
      → All (IsChecked lib b.signed_update_bytes u a) b.proofs
      → threshold ≤ length b.proofs
      → Quorum lib b.signed_update_bytes a.signer_set threshold ps
  sorted-Quorum ps threshold sorted valid checked enough = (
    rw sorted (
        All-sort proof_sort_key (Signs lib b.signed_update_bytes a.signer_set)
          (map to_wire b.proofs) (wire-Signs b.proofs checked)),
    rw sorted
        (omega (arith, sort-length proof_sort_key (map to_wire b.proofs), length-wire b.proofs)),
    valid.ids,
  )

  -- A bundle that is finalized, and whose operation is no upgrade, is an envelope that decodes to
  -- the exact update of the bundle, with proofs that pass `validate_threshold_proofs` under the
  -- Signer Set and the threshold of that update itself. A verifier makes that test for a genesis,
  -- and for an ordinary update, which keeps the set; a signer replacement is tested under the set
  -- before it, of which nothing is said. `loads` reads back what `dumps` wrote.
  pub validate_threshold_proofs-finalize_bundle :
      IsCodec lib
      → (e : Bytes) → finalize_bundle lib b ≡ ok e
      → (a.operation == operation_upgrade) ≡ false
      → (envelope : MultisignatureEnvelope) × (decode_multisignature_envelope lib e ≡ ok envelope)
        × (envelope.signed_update_bytes ≡ b.signed_update_bytes)
        × (validate_threshold_proofs lib b.signed_update_bytes envelope a.signer_set a.threshold
            ≡ ok tt)
  unfolding finalize_bundle check_complete
  validate_threshold_proofs-finalize_bundle codec e h other =
      succeeded (check_bundle_proofs lib b b.proofs []) (λ x y. ground arith)
        λ seen run.
          let (checked, size) = check_bundle_proofs-IsChecked b.proofs [] seen run in
          let enough : ltb (length seen) a.threshold ≡ false = ground arith in
          let (ps, valid, read) =
            decode-encode_multisignature_envelope lib codec b.signed_update_bytes
              (proofs_value (map to_wire b.proofs)) true e (ground arith) in
          let sorted = validate_proofs-sorted (map to_wire b.proofs) ps valid in
          let quorum =
            sorted-Quorum ps a.threshold sorted (validate_proofs-AreProofs _ true ps valid) checked
              (omega (arith, size, ltb-false (length seen) a.threshold enough)) in
          (
            record { version = 1; signed_update_bytes = b.signed_update_bytes; proofs = ps },
            read,
            refl,
            (validate_threshold_proofs-Quorum lib b.signed_update_bytes a.signer_set _
                  a.threshold).1
                quorum,
          )
