-- ===== src/Bundle/Merging.antt =====
-- src/decent_registry/multisig_bundle.py: what merging keeps.
use mathlib.Core.List.{Nodup, Nodup-cons, Perm, perm_append_singleton, append-nil, append_assoc}
use mathlib.Core.List.Perm
use decent_registry.Prelude.{
  false, List, [], ◌∷◌, ◌++◌, ◌≡◌, refl, sym, subst, arith, length, map, All, ok, succeeded,
  present, contains, bytes_eq,
}
use decent_registry.Prelude.Sorting.{IsSorted, sort-IsSorted, sort-perm, All-sort, sort}
use decent_registry.Prelude.Distinct.{contains-of_mem}
use decent_registry.Cbor.{Bytes, Text, Library}
use decent_registry.Encoding.Authorization.{Authorization}
use decent_registry.Encoding.Update.{SignedUpdate, decode_multisignature_signed_update}
use decent_registry.Verification.Candidate.{
  public_key_of, require_signature, verify_ed25519_signature,
}
use decent_registry.Verification.Candidate.Quorum.{Signs}
use decent_registry.Bundle.{
  DetachedProof, SigningBundle, bundle_sort_key, to_wire, has_proof_of, make_bundle,
  validate_detached_proof, merge_proof, merge_proofs,
}

abbrev pub id_of : DetachedProof → Bytes
id_of p = p.signer_id

has_proof_of-contains :
    (i : Text) (ps : List DetachedProof)
    → has_proof_of i ps ≡ false
    → contains i (map id_of ps) ≡ false
has_proof_of-contains i [] h = refl
has_proof_of-contains i (p ∷ ps) h = ground (arith, has_proof_of-contains i ps)

All-snoc :
    {A : Type 0} (P : A → Type 0) (xs : List A) (x : A) → All P xs → P x → All P (xs ++ x ∷ [])
All-snoc P [] x h p = (p, tt)
All-snoc P (y ∷ xs) x (q, h) p = (q, All-snoc P xs x h p)

module _ (lib : Library) (update : Bytes) (u : SignedUpdate) (a : Authorization) where
  -- The proof is of the update: a member of its Signer Set signed it, with 64 bytes.
  pub record IsChecked (p : DetachedProof) : Type 0 where
    pub bound : p.signed_update_bytes ≡ update
    pub signs : Signs lib update a.signer_set (to_wire p)
    pub size : length p.signature ≡ 64

  -- A bundle of the update with checked proofs of different signers, in order.
  pub record IsBundle (b : SigningBundle) : Type 0 where
    pub bytes : b.signed_update_bytes ≡ update
    pub proofs : All IsChecked b.proofs
    pub ids : Nodup (map id_of b.proofs)
    pub ordered : IsSorted bundle_sort_key b.proofs

  module _ (decoded : decode_multisignature_signed_update lib update ≡ ok (u, a)) where
    pub validate_detached_proof-IsChecked :
        (b : SigningBundle) (p : DetachedProof)
        → b.signed_update_bytes ≡ update
        → validate_detached_proof lib b p ≡ ok tt
        → IsChecked p
    unfolding validate_detached_proof require_signature verify_ed25519_signature
    validate_detached_proof-IsChecked b p same h =
        let decoded' : decode_multisignature_signed_update lib b.signed_update_bytes ≡ ok (u, a) =
          rw same decoded in
        present (public_key_of a.signer_set p.signer_id) (λ e. ground arith)
          λ key member. record {
            bound = ground arith;
            signs = (key, member, rw (← same) (ground arith));
            size = ground arith;
          }

    merged-IsBundle :
        (ps : List DetachedProof) (p : DetachedProof)
        → All IsChecked ps
        → IsChecked p
        → Nodup (map id_of ps)
        → has_proof_of p.signer_id ps ≡ false
        → IsBundle
            (record { signed_update_bytes = update; proofs = sort bundle_sort_key (ps ++ p ∷ []) })
    merged-IsBundle ps p checked last ids new = record {
      bytes = refl;
      proofs =
          All-sort bundle_sort_key IsChecked (ps ++ p ∷ []) (All-snoc IsChecked ps p checked last);
      ids =
          Perm.nodup
            (Perm.symm (
              Perm.map id_of (
                Perm.trans (sort-perm bundle_sort_key (ps ++ p ∷ []))
                  (perm_append_singleton p ps))))
            (Nodup-cons.1 (
              contains-of_mem p.signer_id (map id_of ps) (has_proof_of-contains p.signer_id ps new),
              ids,
            ));
      ordered = sort-IsSorted bundle_sort_key (ps ++ p ∷ []);
    }

    -- One proof more.
    abbrev Adds : SigningBundle → SigningBundle → List DetachedProof → Type 0
    Adds b b' ps = IsBundle b' × Perm b'.proofs (b.proofs ++ ps)

    merge_proof-Adds :
        (b b' : SigningBundle) (p : DetachedProof)
        → IsBundle b
        → merge_proof lib b p ≡ ok b'
        → Adds b b' (p ∷ [])
    unfolding merge_proof make_bundle
    merge_proof-Adds b b' p v h =
        let new : has_proof_of p.signer_id b.proofs ≡ false = ground arith in
        let valid : validate_detached_proof lib b p ≡ ok tt = ground arith in
        let bytes = v.bytes in
        let result : record {
          signed_update_bytes = update;
          proofs = sort bundle_sort_key (b.proofs ++ p ∷ []);
        }
            ≡ b' =
          ground arith in
        subst (λ c. Adds b c (p ∷ [])) result
          (
            merged-IsBundle b.proofs p v.proofs (validate_detached_proof-IsChecked b p bytes valid)
                v.ids new,
            sort-perm bundle_sort_key (b.proofs ++ p ∷ []),
          )

    -- Merging proofs into a bundle of checked proofs leaves such a bundle: of the same update, each
    -- proof signed by a member of the update's Signer Set with a signature of 64 bytes that
    -- verifies, no two of the same signer, sorted by signer; and its proofs are those that were
    -- there and those that were merged.
    pub merge_proofs-IsBundle :
        (b b' : SigningBundle) (ps : List DetachedProof)
        → IsBundle b
        → merge_proofs lib b ps ≡ ok b'
        → IsBundle b' × Perm b'.proofs (b.proofs ++ ps)
    unfolding merge_proofs
    merge_proofs-IsBundle b b' [] v h =
        let same : b ≡ b' = ground arith in
        subst (λ c. Adds b c []) same
          (v, subst (λ ys. Perm b.proofs ys) (sym (append-nil b.proofs)) (Perm.refl b.proofs))
    merge_proofs-IsBundle b b' (p ∷ ps) v h =
        succeeded (merge_proof lib b p) (λ e x. ground arith)
          λ m one.
            let (valid, added) = merge_proof-Adds b m p v one in
            let (valid', rest) = merge_proofs-IsBundle m b' ps valid (ground arith) in
            (
              valid',
              Perm.trans rest (
                  subst (λ ys. Perm (m.proofs ++ ps) ys) (append_assoc b.proofs (p ∷ []) ps)
                    (Perm.append_right ps added)),
            )
