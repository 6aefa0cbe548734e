-- ===== src/Tests/Records.antt =====
-- encoding.py, signed_envelope.py and the legacy part of verification.py on small data.
use decent_registry.Prelude.{
  true, false, List, [], ◌∷◌, Option, none, some, ◌≡◌, ◌≢◌, refl, ok, bytes_eq, optional_eq,
  pairs_eq, proofs_eq,
}
use decent_registry.Prelude.Sorting.{bytes_le, sort}
use decent_registry.Prelude.Dictionary
use decent_registry.Prelude.Dictionary.{lookup}
use decent_registry.Cbor.{Bytes, end}
use decent_registry.Cbor.Codec.{entries_ordered}
use decent_registry.Encoding.Authorization.{
  Authorization, authorization_value, require_uint, validate_signer_entries,
  validate_authorization_map,
}
use decent_registry.Encoding.Authorization.Valid.{
  IsAuthorization, validate_authorization_map-IsAuthorization,
}
use decent_registry.Encoding.Authorization.Roundtrip.{validate-authorization_value}
use decent_registry.Encoding.Update.{
  SignedUpdate, update_value, is_bytes, check_32_bytes, validate_uint_keys,
  validate_record_kind_binding, canonical_cbor, is_canonical_cbor, encode_signed_update,
  validate_decoded_signed_update, decode_canonical_signed_update,
  decode_multisignature_signed_update,
}
use decent_registry.Encoding.Update.Roundtrip.{IsNormalized, decode-encode_signed_update}
use decent_registry.Envelope.{
  Proof, proofs_value, envelope_value, validate_proofs, decode_signed_envelope,
  encode_multisignature_envelope, decode_multisignature_envelope,
}
use decent_registry.Envelope.Proofs.{AreProofs, validate_proofs-AreProofs}
use decent_registry.Envelope.Roundtrip.{
  decode-encode_multisignature_envelope, decode_signed_envelope-legacy,
}
use decent_registry.Verification.Candidate.{verify_ed25519_signature, extract_identity_and_keys}
use decent_registry.Verification.Legacy.{
  check_prev, enforce_seq_and_owner_binding, decode_signed_update_strict, accept_update,
  validate_identity_update, validate_signed_update_overwrite,
}
use decent_registry.Verification.Legacy.Binding.{
  IsAcceptable, entry_after, validate_signed_update_overwrite-IsAcceptable,
}
use decent_registry.Tests.Toy.{
  toy, key, key_a, sign, signers, identity, authorization, update, envelope, two_proofs,
}
use decent_registry.Tests.Wire.{wire, wire_dumps, wire-IsCodec, code_value}

abbrev pub first_authorization : Authorization
first_authorization = authorization 1 1 signers key

validated :
    validate_authorization_map (authorization_value first_authorization) true
    ≡ ok first_authorization
unfolding bytes_eq pairs_eq bytes_le sort require_uint validate_signer_entries
    validate_authorization_map
validated = refl

validate_authorization_map-IsAuthorization_example : IsAuthorization first_authorization
validate_authorization_map-IsAuthorization_example =
    validate_authorization_map-IsAuthorization (authorization_value first_authorization) true
      first_authorization validated

validate-authorization_value_example :
    validate_authorization_map (authorization_value first_authorization) false
    ≡ ok first_authorization
validate-authorization_value_example = validate-authorization_value first_authorization false (
    validate_authorization_map-IsAuthorization (authorization_value first_authorization) true
      first_authorization validated)

-- An update of the identity with an authorization, encoded.
abbrev pub first_update : SignedUpdate
first_update = update key_a 1 (some first_authorization)

abbrev pub first_bytes : Bytes
first_bytes = wire_dumps (update_value first_update)

encoded :
    encode_signed_update wire
      (identity key_a)
      end
      1
      (some (authorization_value first_authorization))
    ≡ ok first_bytes
unfolding bytes_eq pairs_eq bytes_le sort require_uint validate_signer_entries
    validate_authorization_map validate_uint_keys is_bytes check_32_bytes
    validate_record_kind_binding canonical_cbor encode_signed_update code_value
encoded = refl

identity-ordered : entries_ordered (identity key_a) ≡ true
unfolding entries_ordered
identity-ordered = refl

end-ordered : entries_ordered end ≡ true
unfolding entries_ordered
end-ordered = refl

decode-encode_signed_update_example :
    (o : Option Authorization) × IsNormalized wire
      (some (authorization_value first_authorization))
      o
    × (decode_canonical_signed_update wire first_bytes
        ≡ ok (record { record_fields = identity key_a; payload = end; seq = 1; authorization = o }))
decode-encode_signed_update_example =
    decode-encode_signed_update wire wire-IsCodec (identity key_a) end 1
      (some (authorization_value first_authorization)) first_bytes identity-ordered end-ordered
      encoded

validate_proofs_two : validate_proofs (some (proofs_value two_proofs)) false ≡ ok two_proofs
unfolding bytes_eq optional_eq proofs_eq bytes_le sort validate_proofs
validate_proofs_two = refl

validate_proofs-AreProofs_example : AreProofs two_proofs
validate_proofs-AreProofs_example =
    validate_proofs-AreProofs (some (proofs_value two_proofs)) false two_proofs validate_proofs_two

decoded_legacy : decode_signed_envelope toy (envelope 4) ≡ ok (4 ∷ [], sign key_a)
unfolding bytes_eq is_canonical_cbor decode_signed_envelope
decoded_legacy = refl

decode_signed_envelope-legacy_example :
    decode_multisignature_signed_update toy (4 ∷ []) ≢ ok (first_update, first_authorization)
decode_signed_envelope-legacy_example =
    decode_signed_envelope-legacy toy (envelope 4) (4 ∷ []) (sign key_a)
      (first_update, first_authorization) decoded_legacy

enveloped :
    encode_multisignature_envelope wire first_bytes (proofs_value two_proofs) false
    ≡ ok (wire_dumps (envelope_value first_bytes two_proofs))
unfolding bytes_eq optional_eq pairs_eq proofs_eq bytes_le sort require_uint validate_signer_entries
    validate_authorization_map validate_uint_keys is_bytes check_32_bytes
    validate_record_kind_binding canonical_cbor is_canonical_cbor validate_decoded_signed_update
    decode_canonical_signed_update decode_multisignature_signed_update validate_proofs
    encode_multisignature_envelope code_value
enveloped = refl

decode-encode_multisignature_envelope_example :
    (ps : List Proof) × (validate_proofs (some (proofs_value two_proofs)) false ≡ ok ps)
    × (decode_multisignature_envelope wire (wire_dumps (envelope_value first_bytes two_proofs))
        ≡ ok (record { version = 1; signed_update_bytes = first_bytes; proofs = ps }))
decode-encode_multisignature_envelope_example =
    decode-encode_multisignature_envelope wire wire-IsCodec first_bytes (proofs_value two_proofs)
      false (wire_dumps (envelope_value first_bytes two_proofs)) enveloped

accepted :
    validate_signed_update_overwrite toy key (4 ∷ []) (sign key_a) [] true
    ≡ ok (update key_a 4 none, (key, record { owner_public_key = key_a; seq = 4 }) ∷ [])
unfolding bytes_eq is_canonical_cbor validate_uint_keys require_uint validate_decoded_signed_update
    decode_canonical_signed_update extract_identity_and_keys verify_ed25519_signature check_prev
    enforce_seq_and_owner_binding decode_signed_update_strict accept_update validate_identity_update
    validate_signed_update_overwrite Dictionary.lookup Dictionary.insert
accepted = refl

validate_signed_update_overwrite-IsAcceptable_example :
    (owner : Bytes) × IsAcceptable toy key (4 ∷ []) (sign key_a) [] (update key_a 4 none) owner
    × ((j : Bytes)
        → lookup j ((key, record { owner_public_key = key_a; seq = 4 }) ∷ [])
          ≡ entry_after true key 4 owner [] j)
validate_signed_update_overwrite-IsAcceptable_example =
    validate_signed_update_overwrite-IsAcceptable toy key (4 ∷ []) (sign key_a) []
      ((key, record { owner_public_key = key_a; seq = 4 }) ∷ []) true (update key_a 4 none) accepted
