-- ===== src/Envelope/Proofs.antt =====
-- src/decent_registry/signed_envelope.py: the predicate on lists of proofs, and their validation.
use mathlib.Core.List.{Nodup}
use mathlib.Core.List.Perm
use decent_registry.Prelude.{
  succeeded, ℕ, ◌≤◌, Bool, true, false, Option, none, some, List, [], ◌∷◌, ◌≡◌, refl, arith, ok,
  length, map, All, contains, optional_eq, proofs_eq,
}
use decent_registry.Prelude.Sorting.{IsSorted, sort-IsSorted, sort-perm, sort_of_IsSorted, All-sort}
use decent_registry.Prelude.Distinct.{Fresh, Fresh-Nodup, Nodup-Fresh_nil}
use decent_registry.Cbor.{Bytes, Text, Value, array, dict, elements, elements-of_list, get}
use decent_registry.Envelope.{
  Proof, proof_sort_key, sorted_proofs, check_proof_signer, check_signature, check_proof,
  check_proofs, finish_proofs, validate_proofs, proof_value, proofs_value,
}

abbrev pub signer_id : Proof → Option (List ℕ)
signer_id p = p.0

abbrev pub IsProofSigner : Option Text → Type 0
IsProofSigner none = Unit {0}
IsProofSigner (some i) = (1 ≤ length i) × (length i ≤ 256)

-- A null identifier or one of 1 to 256 bytes, and a signature of 64.
abbrev pub IsProof : Proof → Type 0
IsProof p = IsProofSigner p.0 × (length p.1 ≡ 64)

pub record AreProofs (ps : List Proof) : Type 0 where
  pub proofs : All IsProof ps
  pub ids : Nodup (map signer_id ps)
  pub ordered : IsSorted proof_sort_key ps

check_proof_signer_sound :
    (v : Option Value) (i : Option Text) → check_proof_signer v ≡ ok i → IsProofSigner i
check_proof_signer_sound (some Value.null) none h = tt
check_proof_signer_sound (some Value.null) (some i) h = absurd (ground arith)
check_proof_signer_sound (some (Value.text (c ∷ i))) none h = tt
check_proof_signer_sound (some (Value.text (c ∷ i))) (some j) h = ground arith
check_proof_signer_sound v i h = absurd (ground arith)

check_signature_sound : (v : Option Value) (k : Bytes) → check_signature v ≡ ok k → length k ≡ 64
check_signature_sound (some (Value.bytes b)) k h = ground arith
check_signature_sound v k h = absurd (ground arith)

check_proof_sound :
    (v : Value) (seen : List (Option Text)) (p : Proof)
    → check_proof v seen ≡ ok p
    → IsProof p × (contains p.0 seen ≡ false)
unfolding check_proof
check_proof_sound (dict d) seen (i, b) h =
    succeeded (check_proof_signer (get d 1)) (λ e x. ground arith)
      λ i' eq.
        succeeded (check_signature (get d 2)) (λ e x. ground arith)
          λ b' eq'.
            let same : i' ≡ i = ground arith in
            (
              (
                rw (← same) (check_proof_signer_sound (get d 1) i' eq),
                ground (arith, check_signature_sound (get d 2) b' eq'),
              ),
              ground arith,
            )
check_proof_sound v seen p h = absurd (ground arith)

check_proofs_sound :
    (vs : List Value) (seen : List (Option Text)) (ps : List Proof)
    → check_proofs vs seen ≡ ok ps
    → All IsProof ps × Fresh (map signer_id ps) seen
unfolding check_proofs
check_proofs_sound [] seen [] h = (tt, tt)
check_proofs_sound [] seen (p ∷ ps) h = absurd (ground arith)
check_proofs_sound (v ∷ vs) seen ps h =
    succeeded (check_proof v seen) (λ e x. ground arith)
      λ p one.
        succeeded (check_proofs vs (p.0 ∷ seen)) (λ e x. ground arith)
          λ rest more.
            let (valid, new) = check_proof_sound v seen p one in
            let (all_valid, all_new) = check_proofs_sound vs (p.0 ∷ seen) rest more in
            let whole : p ∷ rest ≡ ps = ground arith in
            rw (← whole) ((valid, all_valid), (new, all_new))

sorted-AreProofs :
    (ps : List Proof) → All IsProof ps → Nodup (map signer_id ps) → AreProofs (sorted_proofs ps)
sorted-AreProofs ps valid ids = record {
  proofs = All-sort proof_sort_key IsProof ps valid;
  ids = Perm.nodup (Perm.symm (Perm.map signer_id (sort-perm proof_sort_key ps))) ids;
  ordered = sort-IsSorted proof_sort_key ps;
}

finish_proofs_sound :
    (ps : List Proof) (b : Bool) (out : List Proof)
    → finish_proofs ps b ≡ ok out
    → out ≡ sorted_proofs ps
unfolding finish_proofs
finish_proofs_sound ps true out h = ground arith
finish_proofs_sound ps false out h = ground arith

-- Whatever value is validated, in either mode: each proof has a null identifier or one of 1 to 256
-- bytes and a signature of 64, no two have the same identifier, and they are sorted by it.
pub validate_proofs-AreProofs :
    (v : Option Value) (b : Bool) (ps : List Proof) → validate_proofs v b ≡ ok ps → AreProofs ps
unfolding validate_proofs
validate_proofs-AreProofs (some (array vs)) b ps h =
    succeeded (check_proofs (elements vs) []) (λ e x. ground arith)
      λ all run.
        let (valid, ids) = check_proofs_sound (elements vs) [] all run in
        rw (finish_proofs_sound all b ps (ground arith))
          (sorted-AreProofs all valid (Fresh-Nodup (map signer_id all) [] ids))
validate_proofs-AreProofs v b ps h = absurd (ground arith)

check_proof-proof_value :
    (p : Proof) (seen : List (Option Text))
    → IsProof p
    → contains p.0 seen ≡ false
    → check_proof (proof_value p) seen ≡ ok p
unfolding check_proof
check_proof-proof_value (none, b) seen (signer, size) new = ground arith
check_proof-proof_value (some [], b) seen ((short, long), size) new = absurd (omega (arith, short))
check_proof-proof_value (some (c ∷ i), b) seen ((short, long), size) new = ground arith

check_proofs-proof_value :
    (ps : List Proof) (seen : List (Option Text))
    → All IsProof ps
    → Fresh (map signer_id ps) seen
    → check_proofs (map proof_value ps) seen ≡ ok ps
unfolding check_proofs
check_proofs-proof_value [] seen v f = refl
check_proofs-proof_value (p ∷ ps) seen (v, vs) (f, fs) =
    rw (check_proof-proof_value p seen v f, check_proofs-proof_value ps (p.0 ∷ seen) vs fs)

finish_proofs-sorted : (ps : List Proof) (b : Bool) → AreProofs ps → finish_proofs ps b ≡ ok ps
unfolding finish_proofs
finish_proofs-sorted ps true v = rw (sort_of_IsSorted proof_sort_key ps v.ordered)
finish_proofs-sorted ps false v = ground (arith, sort_of_IsSorted proof_sort_key ps v.ordered)

-- Well-formed proofs are read back from their array.
pub validate_proofs-proofs_value :
    (ps : List Proof) (b : Bool) → AreProofs ps → validate_proofs (some (proofs_value ps)) b ≡ ok ps
unfolding validate_proofs
validate_proofs-proofs_value ps b v =
    rw
      (
        elements-of_list (map proof_value ps),
        check_proofs-proof_value ps [] v.proofs (Nodup-Fresh_nil (map signer_id ps) v.ids),
      )
      (finish_proofs-sorted ps b v)
