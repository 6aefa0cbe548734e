-- ===== src/Provider/Payload.antt =====
-- src/decent_registry/provider_schema.py: the payload maps of Provider Records, active (version 3)
-- and withdrawn (version 2).
pub mod Lists
pub mod Valid
pub mod Roundtrip
use decent_registry.Prelude.{
  ℕ, String, Bool, true, false, ◌&&◌, ◌||◌, not, Option, none, some, List, [], ◌∷◌, ltb, leb, ◌==◌,
  if◌then◌else◌, length, map, Result, Done, ok, raise, value_error, ◌>>=◌, ◌>>◌, raise_if, ◌≟◌,
  bytes_eq, texts_eq, contains,
}
use decent_registry.Prelude.Sorting.{sort}
use decent_registry.Cbor.{
  Text, Library, Value, int, text, array, Items, nil, cons, Entries, entry, end, get, has_key,
  has_keys, covers, keys_within, equals_number, of_list,
}
use decent_registry.Provider.Chars.{starts_with, is_nil, object_hash_shape, from_hex}
use decent_registry.Provider.Uri.{validate_provider_uri}

pub record ProviderPayloadV3 : Type 0 where
  pub alg : Text
  pub version : ℕ
  pub object_hash : Text
  pub provider_urls : List Text
  pub endpoints : List Text

pub record ProviderWithdrawnPayloadV2 : Type 0 where
  pub alg : Text
  pub version : ℕ
  pub object_hash : Text
  pub replacement_object_hash : Option Text

pub data ProviderPayload : Type 0 where
  active : ProviderPayloadV3 → ProviderPayload
  withdrawn : ProviderWithdrawnPayloadV2 → ProviderPayload

-- A text is its own sort key.
abbrev pub sorted_texts : List Text → List Text
sorted_texts = sort (λ (s : Text). s)

unfoldable pub check_endpoints : List Text → Result Done
check_endpoints [] = ok tt
check_endpoints (e ∷ es) = do
  raise_if (not (starts_with (b'/' ∷ []) e))
      (value_error "endpoint must be multiaddr starting with '/'")
  raise_if (ltb 256 (length e)) (value_error "endpoint max 256 bytes")
  check_endpoints es

unfoldable pub validate_endpoints : List Text → Result (List Text)
unfolding check_endpoints
validate_endpoints endpoints = do
  raise_if (ltb 32 (length endpoints)) (value_error "endpoints max 32")
  check_endpoints endpoints
  ok endpoints

unfoldable pub normalize_sorted_endpoints : List Text → Result (List Text)
unfolding validate_endpoints
normalize_sorted_endpoints endpoints = do eps ← validate_endpoints endpoints; ok (sorted_texts eps)

abbrev pub all_distinct : List Text → Bool
all_distinct [] = true
all_distinct (s ∷ ss) = not (contains s ss) && all_distinct ss

module _ (lib : Library) where
  unfoldable pub check_urls : List Text → Result (List Text)
  check_urls [] = ok []
  check_urls (u ∷ us) = do u' ← validate_provider_uri lib u; us' ← check_urls us; ok (u' ∷ us')

  unfoldable pub normalize_sorted_provider_urls : List Text → Result (List Text)
  unfolding check_urls
  normalize_sorted_provider_urls urls = do
    raise_if (not (leb 1 (length urls) && leb (length urls) 32))
        (value_error "provider_urls must contain 1 to 32 URLs")
    normalized ← check_urls urls
    raise_if (not (all_distinct normalized))
        (value_error "provider_urls must not contain duplicates")
    ok (sorted_texts normalized)

-- `isinstance(value, str) and value`
abbrev pub as_text : Option Value → Result Text
as_text (some (text (c ∷ s))) = ok (c ∷ s)
as_text _ = raise (value_error "alg must be a non-empty string")

unfoldable pub validate_object_hash : Text → Result Text
validate_object_hash s =
    if object_hash_shape s
    then ok s
    else raise (value_error "object_hash must be exactly 64 hexadecimal characters")

abbrev pub as_object_hash : Option Value → Result Text
as_object_hash (some (text s)) = validate_object_hash s
as_object_hash _ = raise (value_error "object_hash must be exactly 64 hexadecimal characters")

-- `all(isinstance(x, str) for x in items)`
abbrev pub texts : Items → Option (List Text)
texts nil = some []
texts (cons (text s) vs) = elim (texts vs) [ none ↦ none | some ss ↦ some (s ∷ ss) ]
texts (cons _ vs) = none

abbrev pub as_texts : Option Value → Option (List Text)
as_texts (some (array vs)) = texts vs
as_texts _ = none

-- `bytes.fromhex(a) == bytes.fromhex(b)`
unfoldable pub same_hash : Text → Text → Result Bool
same_hash a b = elim (from_hex a) [
  | none ↦ raise (value_error "fromhex")
  | some x ↦ elim (from_hex b) [ none ↦ raise (value_error "fromhex") | some y ↦ ok (x ≟ y) ]
]

-- "withdrawn"
abbrev pub withdrawn_status : Text
withdrawn_status = b'w' ∷ b'i' ∷ b't' ∷ b'h' ∷ b'd' ∷ b'r' ∷ b'a' ∷ b'w' ∷ b'n' ∷ []

abbrev pub is_withdrawn_status : Option Value → Bool
is_withdrawn_status (some (text s)) = s ≟ withdrawn_status
is_withdrawn_status _ = false

unfoldable pub check_replacement : Text → Text → Result (Option Text)
unfolding same_hash
check_replacement object_hash replacement = do
  same ← same_hash replacement object_hash
  raise_if same (value_error "replacement_object_hash must not reference itself")
  ok (some replacement)

unfoldable pub decode_replacement : Entries → Text → Result (Option Text)
unfolding check_replacement
decode_replacement d object_hash =
    if has_key d 5
    then (do replacement ← as_object_hash (get d 5); check_replacement object_hash replacement)
    else ok none

unfoldable pub decode_withdrawn : Entries → Result ProviderPayload
unfolding decode_replacement
decode_withdrawn d = do
  raise_if (not (covers d (1 ∷ 2 ∷ 3 ∷ 4 ∷ [])) || not (keys_within d (1 ∷ 2 ∷ 3 ∷ 4 ∷ 5 ∷ [])))
      (value_error "Provider payload v2 has missing or extra fields")
  alg ← as_text (get d 1)
  object_hash ← as_object_hash (get d 3)
  raise_if (not (is_withdrawn_status (get d 4)))
      (value_error "Provider payload v2 status must be 'withdrawn'")
  replacement ← decode_replacement d object_hash
  ok (
      withdrawn (record {
        alg = alg;
        version = 2;
        object_hash = object_hash;
        replacement_object_hash = replacement;
      }))

abbrev pub or_value_error {ℓ} : {A : Type ℓ} → Option A → String → Result A
or_value_error none m = raise (value_error m)
or_value_error (some a) m = ok a

-- `int(version)` where `isinstance(version, int)` and not a `bool`. A negative number is no 3.
abbrev pub as_version : Option Value → Result ℕ
as_version (some (int n)) = ok n
as_version (some (Value.negative n)) = raise (value_error "unsupported provider payload version")
as_version _ = raise (value_error "provider version must be an integer")

unfoldable pub decode_active : Library → Entries → Result ProviderPayload
unfolding bytes_eq
decode_active lib d = do
  raise_if (not (has_keys d (1 ∷ 2 ∷ 3 ∷ 4 ∷ 5 ∷ [])))
      (value_error "provider payload keys mismatch")
  version ← as_version (get d 2)
  raise_if (not (version == 3)) (value_error "unsupported provider payload version")
  alg ← as_text (get d 1)
  raw_endpoints ← or_value_error (as_texts (get d 5)) "endpoints must be list[str]"
  endpoints ← validate_endpoints raw_endpoints
  raise_if (not (endpoints ≟ sorted_texts endpoints))
      (value_error "endpoints must be lexicographically sorted before signing")
  raw_urls ← or_value_error (as_texts (get d 4)) "provider_urls must be list[str]"
  provider_urls ← normalize_sorted_provider_urls lib raw_urls
  raise_if (not (raw_urls ≟ provider_urls))
      (value_error "provider_urls must be lexicographically sorted")
  object_hash ← as_object_hash (get d 3)
  ok (
      active (record {
        alg = alg;
        version = version;
        object_hash = object_hash;
        provider_urls = provider_urls;
        endpoints = endpoints;
      }))

-- `version == 2 and not isinstance(version, bool)`, which the float 2.0 passes too.
abbrev pub is_version_2 : Option Value → Bool
is_version_2 none = false
is_version_2 (some v) = equals_number v 2

unfoldable pub decode_provider_payload_dict : Library → Entries → Result ProviderPayload
unfolding decode_withdrawn decode_active
decode_provider_payload_dict lib d =
    if is_version_2 (get d 2) then decode_withdrawn d else decode_active lib d

-- The arguments have their types; `version` is the default, 3, which is the only one allowed.
unfoldable pub build_provider_payload_dict :
    Library → Text → Text → List Text → List Text → Result Entries
build_provider_payload_dict lib alg object_hash provider_urls endpoints = do
  raise_if (is_nil alg) (value_error "alg must be a non-empty string")
  norm_eps ← normalize_sorted_endpoints endpoints
  norm_urls ← normalize_sorted_provider_urls lib provider_urls
  hash ← validate_object_hash object_hash
  ok (
      entry (int 1) (text alg) (
        entry (int 2) (int 3) (
          entry (int 3) (text hash) (
            entry (int 4) (array (of_list (map text norm_urls)))
              (entry (int 5) (array (of_list (map text norm_eps))) end)))))

abbrev pub replacement_entry : Option Text → Entries
replacement_entry none = end
replacement_entry (some r) = entry (int 5) (text r) end

unfoldable pub build_replacement : Text → Option Text → Result (Option Text)
unfolding check_replacement
build_replacement object_hash none = ok none
build_replacement object_hash (some r) = do
  replacement ← validate_object_hash r
  check_replacement object_hash replacement

unfoldable pub build_provider_withdrawal_payload_dict : Text → Text → Option Text → Result Entries
unfolding build_replacement
build_provider_withdrawal_payload_dict alg object_hash replacement_object_hash = do
  raise_if (is_nil alg) (value_error "alg must be a non-empty string")
  hash ← validate_object_hash object_hash
  replacement ← build_replacement hash replacement_object_hash
  ok (
      entry (int 1) (text alg) (
        entry (int 2) (int 2) (
          entry (int 3) (text hash)
            (entry (int 4) (text withdrawn_status) (replacement_entry replacement)))))
