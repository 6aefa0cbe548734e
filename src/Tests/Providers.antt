-- ===== src/Tests/Providers.antt =====
-- provider_schema.py on small data.
use decent_registry.Prelude.{[], ◌∷◌, some, ◌≡◌, refl, replicate, ok, bytes_eq, texts_eq}
use decent_registry.Prelude.Sorting.{bytes_le, sort}
use decent_registry.Cbor.{dict, Text, Entries, entry, end, int, text, array, cons, nil}
use decent_registry.Provider.Chars.{
  hex_digit, one_of, unreserved, sub_delimiter, pchar, uri_allowed, partition, bad_percent_escape,
  object_hash_shape, from_hex,
}
use decent_registry.Provider.Uri.{is_scheme, validate_provider_uri}
use decent_registry.Provider.Payload.{
  ProviderPayloadV3, active, withdrawn, validate_endpoints, normalize_sorted_endpoints,
  normalize_sorted_provider_urls, validate_object_hash, same_hash, decode_active,
  decode_provider_payload_dict, build_provider_payload_dict, build_provider_withdrawal_payload_dict,
  withdrawn_status, sorted_texts,
}
use decent_registry.Provider.Payload.Valid.{IsPayload, decode_provider_payload_dict-IsPayload}
use decent_registry.Provider.Payload.Roundtrip.{decode-build_provider_payload}
use decent_registry.Provider.Wire.{
  encode_provider_withdrawal_payload, encode_provider_payload, decode_provider_payload,
}
use decent_registry.Provider.Wire.Roundtrip.{
  decode-encode_provider_payload, decode-encode_provider_withdrawal_payload,
}
use decent_registry.Tests.Wire.{wire, wire_dumps, wire-IsCodec, code_value}
use decent_registry.Tests.Toy.{toy}

abbrev pub alg : Text
alg = b's' ∷ b'h' ∷ b'a' ∷ []

abbrev pub object_hash : Text
object_hash = replicate 64 b'a'

abbrev pub replacement : Text
replacement = replicate 64 b'b'

abbrev pub url_a : Text
url_a = b'a' ∷ b':' ∷ []

abbrev pub url_b : Text
url_b = b'b' ∷ b':' ∷ []

abbrev pub endpoint : Text
endpoint = b'/' ∷ b'd' ∷ []

abbrev pub payload : Entries
payload = entry (int 1) (text alg) (
    entry (int 2) (int 3) (
      entry (int 3) (text object_hash) (
        entry (int 4) (array (cons (text url_a) (cons (text url_b) nil)))
          (entry (int 5) (array (cons (text endpoint) nil)) end))))

abbrev payload_v3 : ProviderPayloadV3
payload_v3 = record {
  alg = alg;
  version = 3;
  object_hash = object_hash;
  provider_urls = url_a ∷ url_b ∷ [];
  endpoints = endpoint ∷ [];
}

built :
    build_provider_payload_dict toy alg object_hash (url_b ∷ url_a ∷ []) (endpoint ∷ [])
    ≡ ok payload
unfolding bytes_eq texts_eq bytes_le sort hex_digit one_of unreserved sub_delimiter pchar
    uri_allowed partition bad_percent_escape object_hash_shape is_scheme validate_provider_uri
    validate_endpoints normalize_sorted_endpoints normalize_sorted_provider_urls
    validate_object_hash build_provider_payload_dict
built = refl

decoded : decode_provider_payload_dict toy payload ≡ ok (active payload_v3)
unfolding bytes_eq texts_eq bytes_le sort hex_digit one_of unreserved sub_delimiter pchar
    uri_allowed partition bad_percent_escape object_hash_shape is_scheme validate_provider_uri
    validate_endpoints normalize_sorted_provider_urls validate_object_hash decode_active
    decode_provider_payload_dict
decoded = refl

decode_provider_payload_dict-IsPayload_example : IsPayload toy payload (active payload_v3)
decode_provider_payload_dict-IsPayload_example =
    decode_provider_payload_dict-IsPayload toy payload (active payload_v3) decoded

decode-build_provider_payload_example :
    decode_provider_payload_dict toy payload
    ≡ ok (
        active (record {
          alg = alg;
          version = 3;
          object_hash = object_hash;
          provider_urls = sorted_texts (url_b ∷ url_a ∷ []);
          endpoints = sorted_texts (endpoint ∷ []);
        }))
decode-build_provider_payload_example =
    decode-build_provider_payload toy alg object_hash (url_b ∷ url_a ∷ []) (endpoint ∷ []) payload
      built

abbrev pub withdrawal : Entries
withdrawal = entry (int 1) (text alg) (
    entry (int 2) (int 2) (
      entry (int 3) (text object_hash)
        (entry (int 4) (text withdrawn_status) (entry (int 5) (text replacement) end))))

built_withdrawal :
    build_provider_withdrawal_payload_dict alg object_hash (some replacement) ≡ ok withdrawal
unfolding bytes_eq hex_digit object_hash_shape from_hex validate_object_hash same_hash
    build_provider_withdrawal_payload_dict
built_withdrawal = refl

encoded :
    encode_provider_payload wire alg object_hash (url_b ∷ url_a ∷ []) (endpoint ∷ [])
    ≡ ok (wire_dumps (dict payload))
unfolding bytes_eq texts_eq bytes_le sort hex_digit one_of unreserved sub_delimiter pchar
    uri_allowed partition bad_percent_escape object_hash_shape is_scheme validate_provider_uri
    validate_endpoints normalize_sorted_endpoints normalize_sorted_provider_urls
    validate_object_hash build_provider_payload_dict encode_provider_payload code_value
encoded = refl

decode-encode_provider_payload_example :
    decode_provider_payload wire (wire_dumps (dict payload))
    ≡ ok (
        active (record {
          alg = alg;
          version = 3;
          object_hash = object_hash;
          provider_urls = sorted_texts (url_b ∷ url_a ∷ []);
          endpoints = sorted_texts (endpoint ∷ []);
        }))
decode-encode_provider_payload_example =
    decode-encode_provider_payload wire wire-IsCodec alg object_hash (url_b ∷ url_a ∷ [])
      (endpoint ∷ []) (wire_dumps (dict payload)) encoded

encoded_withdrawal :
    encode_provider_withdrawal_payload wire alg object_hash (some replacement)
    ≡ ok (wire_dumps (dict withdrawal))
unfolding bytes_eq hex_digit object_hash_shape from_hex validate_object_hash same_hash
    build_provider_withdrawal_payload_dict encode_provider_withdrawal_payload code_value
encoded_withdrawal = refl

decode-encode_provider_withdrawal_payload_example :
    decode_provider_payload wire (wire_dumps (dict withdrawal))
    ≡ ok (
        withdrawn (record {
          alg = alg;
          version = 2;
          object_hash = object_hash;
          replacement_object_hash = some replacement;
        }))
decode-encode_provider_withdrawal_payload_example =
    decode-encode_provider_withdrawal_payload wire wire-IsCodec alg object_hash (some replacement)
      (wire_dumps (dict withdrawal)) encoded_withdrawal
