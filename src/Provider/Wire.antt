-- ===== src/Provider/Wire.antt =====
-- src/decent_registry/provider_schema.py: provider payloads as bytes, and the result of a lookup.
pub mod Roundtrip
use decent_registry.Prelude.{
  Bool, true, false, not, Option, none, some, List, Result, ok, raise, value_error, ◌>>=◌, ◌>>◌,
  raise_if,
}
use decent_registry.Cbor.{Bytes, Text, Library, Value, dict, Entries}
use decent_registry.Encoding.Update.{canonical_cbor, is_canonical_cbor}
use decent_registry.Provider.Payload.{
  ProviderPayload, active, withdrawn, normalize_sorted_endpoints, normalize_sorted_provider_urls,
  decode_provider_payload_dict, build_provider_payload_dict, build_provider_withdrawal_payload_dict,
}

abbrev pub payload_map : Option Value → Result Entries
payload_map (some (dict d)) = ok d
payload_map none = raise (value_error "invalid CBOR")
payload_map _ = raise (value_error "provider payload must be a CBOR map")

-- `isinstance(p, ProviderWithdrawnPayloadV2)`
abbrev is_withdrawn_payload : ProviderPayload → Bool
is_withdrawn_payload (active _) = false
is_withdrawn_payload (withdrawn _) = true

module _ (lib : Library) where
  unfoldable pub encode_provider_withdrawal_payload : Text → Text → Option Text → Result Bytes
  unfolding canonical_cbor
  encode_provider_withdrawal_payload alg object_hash replacement_object_hash = do
    d ← build_provider_withdrawal_payload_dict alg object_hash replacement_object_hash
    canonical_cbor lib (dict d)

  unfoldable pub encode_provider_payload : Text → Text → List Text → List Text → Result Bytes
  unfolding canonical_cbor
  encode_provider_payload alg object_hash provider_urls endpoints = do
    d ← build_provider_payload_dict lib alg object_hash provider_urls endpoints
    canonical_cbor lib (dict d)

  unfoldable pub decode_provider_payload : Bytes → Result ProviderPayload
  decode_provider_payload b = do
    raise_if (not (is_canonical_cbor lib b)) (value_error "non-canonical or invalid CBOR")
    d ← payload_map (lib.loads b)
    decode_provider_payload_dict lib d

  unfoldable pub is_provider_withdrawn_payload : Entries → Result Bool
  is_provider_withdrawn_payload d = do
    p ← decode_provider_payload_dict lib d
    ok (is_withdrawn_payload p)

  -- The key with the two lists.
  unfoldable pub format_get_result :
      Text → List Text → List Text → Result (Text × List Text × List Text)
  format_get_result object_key provider_urls endpoints = do
    us ← normalize_sorted_provider_urls lib provider_urls
    es ← normalize_sorted_endpoints endpoints
    ok (object_key, us, es)
