-- ===== src/Provider/Wire/Roundtrip.antt =====
-- src/decent_registry/provider_schema.py: the round trips of encoded payloads.
use decent_registry.Prelude.{
  succeeded, true, Option, none, some, List, [], ◌∷◌, map, ◌≡◌, refl, ◌∙◌, arith, ok,
}
use decent_registry.Cbor.{Bytes, Text, Library, dict, text, Entries, of_list}
use decent_registry.Cbor.Codec.{IsCodec, is_ordered, items_ordered}
use decent_registry.Encoding.Update.{canonical_cbor}
use decent_registry.Encoding.Update.Roundtrip.{canonical-dumps}
use decent_registry.Provider.Payload.{
  active, withdrawn, sorted_texts, decode_provider_payload_dict, normalize_sorted_endpoints,
  normalize_sorted_provider_urls, validate_object_hash, build_replacement,
  build_provider_payload_dict, build_provider_withdrawal_payload_dict,
}
use decent_registry.Provider.Payload.Roundtrip.{
  withdrawn_entries, decode-build_provider_payload, decode-build_withdrawal,
}
use decent_registry.Provider.Wire.{
  encode_provider_withdrawal_payload, encode_provider_payload, decode_provider_payload,
}

texts-ordered : (ss : List Text) → items_ordered (of_list (map text ss)) ≡ true
unfolding items_ordered
texts-ordered [] = refl
texts-ordered (s ∷ ss) = texts-ordered ss

build-ordered :
    (lib : Library) (alg object_hash : Text) (us es : List Text) (d : Entries)
    → build_provider_payload_dict lib alg object_hash us es ≡ ok d
    → is_ordered (dict d) ≡ true
unfolding build_provider_payload_dict is_ordered
build-ordered lib alg object_hash us es d h =
    succeeded (normalize_sorted_endpoints es) (λ x y. ground arith)
      λ es' eq_es.
        succeeded (normalize_sorted_provider_urls lib us) (λ x y. ground arith)
          λ us' eq_us.
            succeeded (validate_object_hash object_hash) (λ x y. ground arith)
              λ hash valid. ground (arith, texts-ordered us', texts-ordered es')

withdrawn_entries-ordered :
    (alg hash : Text) (replacement : Option Text)
    → is_ordered (dict (withdrawn_entries alg hash replacement)) ≡ true
unfolding is_ordered
withdrawn_entries-ordered alg hash none = refl
withdrawn_entries-ordered alg hash (some r) = refl

build_withdrawal-ordered :
    (alg object_hash : Text) (replacement : Option Text) (d : Entries)
    → build_provider_withdrawal_payload_dict alg object_hash replacement ≡ ok d
    → is_ordered (dict d) ≡ true
unfolding build_provider_withdrawal_payload_dict is_ordered
build_withdrawal-ordered alg object_hash replacement d h =
    succeeded (validate_object_hash object_hash) (λ x y. ground arith)
      λ hash valid.
        succeeded (build_replacement hash replacement) (λ x y. ground arith)
          λ out built.
            let whole : d ≡ withdrawn_entries alg hash out = ground arith in
            rw whole (withdrawn_entries-ordered alg hash out)

module _ (lib : Library) where
  decode-dumps_payload :
      IsCodec lib
      → (d : Entries) (b : Bytes) → is_ordered (dict d) ≡ true
      → lib.dumps (dict d) ≡ some b
      → decode_provider_payload lib b ≡ decode_provider_payload_dict lib d
  unfolding decode_provider_payload
  decode-dumps_payload codec d b ordered wrote =
      let read = codec.loads-dumps (dict d) b ordered wrote in
      rw (canonical-dumps lib (dict d) b read wrote, read)

  -- An active payload that is encoded decodes to its arguments, the URIs and the endpoints sorted.
  -- `loads` reads back what `dumps` wrote.
  pub decode-encode_provider_payload :
      IsCodec lib
      → (alg object_hash : Text) (us es : List Text) (b : Bytes)
      → encode_provider_payload lib alg object_hash us es ≡ ok b
      → decode_provider_payload lib b
        ≡ ok (
            active (record {
              alg = alg;
              version = 3;
              object_hash = object_hash;
              provider_urls = sorted_texts us;
              endpoints = sorted_texts es;
            }))
  unfolding encode_provider_payload canonical_cbor
  decode-encode_provider_payload codec alg object_hash us es b h =
      succeeded (build_provider_payload_dict lib alg object_hash us es) (λ x y. ground arith)
        λ d built.
          decode-dumps_payload codec d b (build-ordered lib alg object_hash us es d built)
            (ground arith)
          ∙ decode-build_provider_payload lib alg object_hash us es d built

  -- A withdrawal that is encoded decodes to its arguments. `loads` reads back what `dumps` wrote.
  pub decode-encode_provider_withdrawal_payload :
      IsCodec lib
      → (alg object_hash : Text) (replacement : Option Text) (b : Bytes)
      → encode_provider_withdrawal_payload lib alg object_hash replacement ≡ ok b
      → decode_provider_payload lib b
        ≡ ok (
            withdrawn (record {
              alg = alg;
              version = 2;
              object_hash = object_hash;
              replacement_object_hash = replacement;
            }))
  unfolding encode_provider_withdrawal_payload canonical_cbor
  decode-encode_provider_withdrawal_payload codec alg object_hash replacement b h =
      succeeded (build_provider_withdrawal_payload_dict alg object_hash replacement)
        (λ x y. ground arith)
        λ d built.
          decode-dumps_payload codec d b
            (build_withdrawal-ordered alg object_hash replacement d built) (ground arith)
          ∙ decode-build_withdrawal lib alg object_hash replacement d built
