-- ===== src/Verification/Candidate/Quorum.antt =====
-- src/decent_registry/verification.py: `_validate_threshold_proofs` and quorums.
use mathlib.Core.List.{Nodup}
use decent_registry.Prelude.{
  >>=-eq-ok, raise_if-eq-ok, ltb, ltb-false, le-ltb, Option-cases, inl, inr, ℕ, ◌+◌, ◌≤◌, true,
  false, Option, some, List, [], ◌∷◌, ◌≡◌, refl, ◌↔◌, arith, length, map, All, ok, contains,
  optional_eq,
}
use decent_registry.Prelude.Distinct.{Fresh, Fresh-Nodup, Nodup-Fresh_nil}
use decent_registry.Cbor.{Bytes, Text, Library}
use decent_registry.Encoding.Authorization.{Signer}
use decent_registry.Envelope.{MultisignatureEnvelope, Proof}
use decent_registry.Verification.Candidate.{
  expected_key, require_signature, verify_ed25519_signature, check_threshold_proof,
  check_threshold_proofs, validate_threshold_proofs,
}

abbrev pub signer_of : Proof → Option (List ℕ)
signer_of p = p.0

module _ (lib : Library) (update : Bytes) (signer_set : List Signer) where
  -- A member of the set signed the update.
  abbrev pub Signs : Proof → Type 0
  Signs p =
      (key : Bytes) × (expected_key signer_set p.0 ≡ some key)
      × (lib.verify key (lib.sha256 update) p.1 ≡ some true)

  -- At least `threshold` different members signed, and every proof is of one of these.
  abbrev pub Quorum : ℕ → List Proof → Type 0
  Quorum threshold ps = All Signs ps × (threshold ≤ length ps) × Nodup (map signer_of ps)

  proof_sound :
      (p : Proof) (seen : List (Option Text))
      → check_threshold_proof lib update signer_set p seen ≡ ok tt
      → (contains p.0 seen ≡ false) × Signs p
  unfolding check_threshold_proof require_signature verify_ed25519_signature
  proof_sound p seen h = elim (Option-cases (expected_key signer_set p.0)) [
    | inl e ↦ absurd (ground arith)
    | inr (key, e) ↦ (ground arith, (key, e, ground arith))
  ]

  proof_complete :
      (p : Proof) (seen : List (Option Text))
      → contains p.0 seen ≡ false
      → Signs p
      → check_threshold_proof lib update signer_set p seen ≡ ok tt
  unfolding check_threshold_proof require_signature verify_ed25519_signature
  proof_complete p seen fresh (key, e, v) = rw (fresh, e, v)

  loop_sound :
      (ps : List Proof) (seen : List (Option Text)) {all : List (Option Text)}
      → check_threshold_proofs lib update signer_set ps seen ≡ ok all
      → All Signs ps × Fresh (map signer_of ps) seen × (length all ≡ length ps + length seen)
  unfolding check_threshold_proofs
  loop_sound [] seen h = (tt, tt, ground arith)
  loop_sound (p ∷ ps) seen {all} h =
      let (_, e, rest) = >>=-eq-ok (check_threshold_proof lib update signer_set p seen) _ h in
      let (fresh, signs) = proof_sound p seen e in
      let (signed, differ, size) = loop_sound ps (p.0 ∷ seen) rest in
      ((signs, signed), (fresh, differ), omega arith)

  loop_complete :
      (ps : List Proof) (seen : List (Option Text))
      → All Signs ps
      → Fresh (map signer_of ps) seen
      → (all : List (Option Text)) × (check_threshold_proofs lib update signer_set ps seen ≡ ok all)
        × (length all ≡ length ps + length seen)
  unfolding check_threshold_proofs
  loop_complete [] seen signed differ = (seen, refl, omega arith)
  loop_complete (p ∷ ps) seen (signs, signed) (fresh, differ) =
      let (all, e, size) = loop_complete ps (p.0 ∷ seen) signed differ in
      (all, rw (proof_complete p seen fresh signs) e, omega arith)

  sound :
      (envelope : MultisignatureEnvelope) (threshold : ℕ)
      → validate_threshold_proofs lib update envelope signer_set threshold ≡ ok tt
      → Quorum threshold envelope.proofs
  unfolding validate_threshold_proofs
  sound envelope threshold h =
      let ps : List Proof = envelope.proofs in
      let (enough, run) = raise_if-eq-ok (ltb (length ps) threshold) _ _ h in
      let (_, e, _) = >>=-eq-ok (check_threshold_proofs lib update signer_set ps []) _ run in
      let (signed, differ, _) = loop_sound ps [] e in
      (signed, ltb-false (length ps) threshold enough, Fresh-Nodup (map signer_of ps) [] differ)

  complete :
      (envelope : MultisignatureEnvelope) (threshold : ℕ)
      → Quorum threshold envelope.proofs
      → validate_threshold_proofs lib update envelope signer_set threshold ≡ ok tt
  unfolding validate_threshold_proofs
  complete envelope threshold (signed, enough, distinct) =
      let ps : List Proof = envelope.proofs in
      let (all, e, size) =
        loop_complete ps [] signed (Nodup-Fresh_nil (map signer_of ps) distinct) in
      rw (le-ltb (length ps) threshold enough, e, le-ltb (length all) threshold (omega arith))

  -- The loop with its two counts returns exactly for the quorums: at least as many proofs as the
  -- threshold, no two of the same signer, each of a member of the Signer Set with a signature of
  -- the update that verifies under the member's key.
  pub validate_threshold_proofs-Quorum :
      (envelope : MultisignatureEnvelope) (threshold : ℕ)
      → (validate_threshold_proofs lib update envelope signer_set threshold ≡ ok tt)
        ↔ Quorum threshold envelope.proofs
  validate_threshold_proofs-Quorum envelope threshold =
      (sound envelope threshold, complete envelope threshold)
