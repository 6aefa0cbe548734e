-- ===== src/Envelope/Roundtrip.antt =====
-- src/decent_registry/signed_envelope.py: envelopes that are encoded, and legacy envelopes.
use decent_registry.Prelude.{
  succeeded, Bool, true, false, none, some, List, [], ◌∷◌, ◌≡◌, ◌≢◌, refl, arith, ok, map,
}
use decent_registry.Cbor.{Bytes, Library, Value, dict, Entries, get, has_key, of_list}
use decent_registry.Cbor.Codec.{IsCodec, is_ordered, items_ordered}
use decent_registry.Encoding.Authorization.{Authorization}
use decent_registry.Encoding.Update.{
  SignedUpdate, canonical_cbor, decode_multisignature_signed_update,
}
use decent_registry.Encoding.Update.Legacy.{decode_multisignature-legacy}
use decent_registry.Encoding.Update.Roundtrip.{canonical-dumps}
use decent_registry.Envelope.{
  Proof, proof_value, envelope_value, validate_proofs, envelope_map, as_bytes,
  carries_authorization, encode_multisignature_envelope, decode_multisignature_envelope,
  decode_signed_envelope,
}
use decent_registry.Envelope.Proofs.{validate_proofs-AreProofs, validate_proofs-proofs_value}

proof_value-ordered : (p : Proof) → is_ordered (proof_value p) ≡ true
unfolding is_ordered
proof_value-ordered (none, b) = refl
proof_value-ordered (some i, b) = refl

items-ordered_proofs : (ps : List Proof) → items_ordered (of_list (map proof_value ps)) ≡ true
unfolding items_ordered
items-ordered_proofs [] = refl
items-ordered_proofs (p ∷ ps) = rw (proof_value-ordered p, items-ordered_proofs ps)

envelope_value-ordered :
    (update : Bytes) (ps : List Proof) → is_ordered (envelope_value update ps) ≡ true
unfolding is_ordered
envelope_value-ordered update ps = rw (items-ordered_proofs ps)

module _ (lib : Library) where
  -- An envelope that is encoded, with its proofs sorted or required to be, decodes: to the update
  -- and the proofs as they were validated. `loads` reads back what `dumps` wrote.
  pub decode-encode_multisignature_envelope :
      IsCodec lib
      → (update : Bytes) (v : Value) (b : Bool) (e : Bytes)
      → encode_multisignature_envelope lib update v b ≡ ok e
      → (ps : List Proof) × (validate_proofs (some v) b ≡ ok ps)
        × (decode_multisignature_envelope lib e
            ≡ ok (record { version = 1; signed_update_bytes = update; proofs = ps }))
  unfolding encode_multisignature_envelope decode_multisignature_envelope canonical_cbor
  decode-encode_multisignature_envelope codec update v b e h =
      succeeded (decode_multisignature_signed_update lib update) (λ x y. ground arith)
        λ u decoded.
          succeeded (validate_proofs (some v) b) (λ x y. ground arith)
            λ ps valid.
              let wrote : lib.dumps (envelope_value update ps) ≡ some e = ground arith in
              let read =
                codec.loads-dumps (envelope_value update ps) e (envelope_value-ordered update ps)
                  wrote in
              (
                ps,
                valid,
                rw (
                  canonical-dumps lib (envelope_value update ps) e read wrote,
                  read,
                  decoded,
                  validate_proofs-proofs_value ps false
                      (validate_proofs-AreProofs (some v) b ps valid),
                ),
              )

  legacy_nested :
      (d : Entries) (update : Bytes)
      → carries_authorization lib (lib.loads update) ≡ false
      → lib.loads update ≡ some (dict d)
      → has_key d 4 ≡ false
  legacy_nested d update h read = ground arith

  -- No update that the legacy decoder lets through is a multisignature update.
  pub decode_signed_envelope-legacy :
      (b update signature : Bytes) (r : SignedUpdate × Authorization)
      → decode_signed_envelope lib b ≡ ok (update, signature)
      → decode_multisignature_signed_update lib update ≢ ok r
  unfolding decode_signed_envelope
  decode_signed_envelope-legacy b update signature r h =
      succeeded (envelope_map lib (lib.loads b) "signed envelope must be a CBOR map")
        (λ e x. ground arith)
        λ d is_map.
          succeeded (as_bytes lib (get d 1) "signed_update_bytes must be bytes")
            (λ e x. ground arith)
            λ u is_update.
              succeeded (as_bytes lib (get d 2) "signature must be bytes") (λ e x. ground arith)
                λ s is_signature.
                  let same : u ≡ update = ground arith in
                  let checked : carries_authorization lib (lib.loads u) ≡ false = ground arith in
                  decode_multisignature-legacy lib update r
                    (λ nested read. legacy_nested nested update (rw (← same) checked) read)
