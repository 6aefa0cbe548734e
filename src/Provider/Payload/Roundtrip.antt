-- ===== src/Provider/Payload/Roundtrip.antt =====
-- src/decent_registry/provider_schema.py: the round trips of payload maps.
use decent_registry.Prelude.{
  succeeded, false, Option, none, some, List, [], ◌∷◌, ◌≡◌, refl, ap, ◌∙◌, arith, ok, map, ≟-same,
  bytes_eq, texts_eq,
}
use decent_registry.Prelude.Sorting.{sort_of_IsSorted}
use decent_registry.Cbor.{Text, Library, int, text, array, of_list, Entries, entry, end}
use decent_registry.Provider.Chars.{is_nil}
use decent_registry.Provider.Payload.{
  active, withdrawn, sorted_texts, validate_endpoints, normalize_sorted_endpoints,
  normalize_sorted_provider_urls, texts, as_text, validate_object_hash, check_replacement,
  decode_replacement, build_replacement, replacement_entry, withdrawn_status, decode_withdrawn,
  decode_active, decode_provider_payload_dict, build_provider_payload_dict,
  build_provider_withdrawal_payload_dict,
}
use decent_registry.Provider.Payload.Lists.{
  self, AreEndpoints, AreUrls, sorted-AreEndpoints, validate_endpoints_sound, normalize_urls_sound,
  check_endpoints_complete, normalize_urls_complete,
}
use decent_registry.Provider.Payload.Valid.{validate_object_hash_sound, check_replacement_sound}

texts-of_list : (ss : List Text) → texts (of_list (map text ss)) ≡ some ss
texts-of_list [] = refl
texts-of_list (s ∷ ss) = rw (texts-of_list ss)

validate_endpoints_complete : (es : List Text) → AreEndpoints es → validate_endpoints es ≡ ok es
unfolding validate_endpoints
validate_endpoints_complete es v =
    rw (check_endpoints_complete es v.paths) (ground (arith, v.count))

normalize_endpoints_sound :
    (es out : List Text)
    → normalize_sorted_endpoints es ≡ ok out
    → (out ≡ sorted_texts es) × AreEndpoints out
unfolding normalize_sorted_endpoints
normalize_endpoints_sound es out h =
    succeeded (validate_endpoints es) (λ x y. ground arith)
      λ es' valid.
        let same = (validate_endpoints_sound es es' valid).0 in
        let result : out ≡ sorted_texts es' = ground arith in
        let well_formed = sorted-AreEndpoints es es' valid in rw (result, same) (refl, well_formed)

as_text-text : (s : Text) → is_nil s ≡ false → as_text (some (text s)) ≡ ok s
as_text-text [] h = absurd (ground arith)
as_text-text (c ∷ s) h = refl

abbrev pub withdrawn_entries : Text → Text → Option Text → Entries
withdrawn_entries alg hash replacement = entry (int 1) (text alg) (
    entry (int 2) (int 2) (
      entry (int 3) (text hash)
        (entry (int 4) (text withdrawn_status) (replacement_entry replacement))))

build_replacement_sound :
    (h : Text) (given out : Option Text)
    → build_replacement h given ≡ ok out
    → (out ≡ given)
      × (decode_replacement (entry (int 4) (text withdrawn_status) (replacement_entry given)) h
          ≡ ok given)
unfolding build_replacement decode_replacement
build_replacement_sound h none out e = (ground arith, refl)
build_replacement_sound h (some r) out e =
    succeeded (validate_object_hash r) (λ x y. ground arith)
      λ s valid.
        let same = (validate_object_hash_sound r s valid).0 in
        let found : check_replacement h s ≡ ok out = ground arith in
        let checked : check_replacement h r ≡ ok out = rw same at found in
        let (is_r, differ) = check_replacement_sound h r out checked in
        (is_r, rw (valid, same) (checked ∙ ap ok is_r))

decode-withdrawn_entries :
    (lib : Library) (alg hash : Text) (replacement : Option Text)
    → is_nil alg ≡ false
    → validate_object_hash hash ≡ ok hash
    → decode_replacement
        (entry (int 4) (text withdrawn_status) (replacement_entry replacement))
        hash
      ≡ ok replacement
    → decode_provider_payload_dict lib (withdrawn_entries alg hash replacement)
      ≡ ok (
          withdrawn (record {
            alg = alg;
            version = 2;
            object_hash = hash;
            replacement_object_hash = replacement;
          }))
unfolding decode_provider_payload_dict decode_withdrawn decode_replacement
decode-withdrawn_entries lib alg hash none nonempty valid read =
    rw (as_text-text alg nonempty, valid)
decode-withdrawn_entries lib alg hash (some r) nonempty valid read =
    rw (as_text-text alg nonempty, valid, read)

-- A withdrawal that is built decodes to its arguments.
pub decode-build_withdrawal :
    (lib : Library) (alg object_hash : Text) (replacement : Option Text) (d : Entries)
    → build_provider_withdrawal_payload_dict alg object_hash replacement ≡ ok d
    → decode_provider_payload_dict lib d
      ≡ ok (
          withdrawn (record {
            alg = alg;
            version = 2;
            object_hash = object_hash;
            replacement_object_hash = replacement;
          }))
unfolding build_provider_withdrawal_payload_dict
decode-build_withdrawal lib alg object_hash replacement d h =
    succeeded (validate_object_hash object_hash) (λ x y. ground arith)
      λ hash valid.
        succeeded (build_replacement hash replacement) (λ x y. ground arith)
          λ out built.
            let same = (validate_object_hash_sound object_hash hash valid).0 in
            let (given, read) = build_replacement_sound hash replacement out built in
            let whole : d ≡ withdrawn_entries alg hash replacement = ground arith in
            rw (whole, same)
              (decode-withdrawn_entries lib alg object_hash replacement (ground arith)
                (rw same at valid) (rw same at read))

abbrev payload_entries : Text → Text → List Text → List Text → Entries
payload_entries alg hash us es = entry (int 1) (text alg) (
    entry (int 2) (int 3) (
      entry (int 3) (text hash) (
        entry (int 4) (array (of_list (map text us)))
          (entry (int 5) (array (of_list (map text es))) end))))

module _ (lib : Library) where
  decode-payload :
      (alg hash : Text) (us es : List Text)
      → is_nil alg ≡ false
      → validate_object_hash hash ≡ ok hash
      → AreUrls lib us
      → AreEndpoints es
      → decode_provider_payload_dict lib (payload_entries alg hash us es)
        ≡ ok (
            active (record {
              alg = alg;
              version = 3;
              object_hash = hash;
              provider_urls = us;
              endpoints = es;
            }))
  unfolding decode_provider_payload_dict decode_active
  decode-payload alg hash us es nonempty valid urls endpoints = rw (
    as_text-text alg nonempty,
    texts-of_list es,
    validate_endpoints_complete es endpoints,
    sort_of_IsSorted self es endpoints.ordered,
    ≟-same es es refl,
    texts-of_list us,
    normalize_urls_complete lib us urls,
    ≟-same us us refl,
    valid,
  )

  -- An active payload that is built decodes to its arguments, the URIs and the endpoints sorted.
  pub decode-build_provider_payload :
      (alg object_hash : Text) (us es : List Text) (d : Entries)
      → build_provider_payload_dict lib alg object_hash us es ≡ ok d
      → decode_provider_payload_dict lib d
        ≡ ok (
            active (record {
              alg = alg;
              version = 3;
              object_hash = object_hash;
              provider_urls = sorted_texts us;
              endpoints = sorted_texts es;
            }))
  unfolding build_provider_payload_dict
  decode-build_provider_payload alg object_hash us es d h =
      succeeded (normalize_sorted_endpoints es) (λ x y. ground arith)
        λ es' eq_es.
          succeeded (normalize_sorted_provider_urls lib us) (λ x y. ground arith)
            λ us' eq_us.
              succeeded (validate_object_hash object_hash) (λ x y. ground arith)
                λ hash valid.
                  let same = (validate_object_hash_sound object_hash hash valid).0 in
                  let (es_sorted, es_valid) = normalize_endpoints_sound es es' eq_es in
                  let (us_valid, us_sorted) = normalize_urls_sound lib us us' eq_us in
                  let whole : d ≡ payload_entries alg hash us' es' = ground arith in
                  rw (← us_sorted, ← es_sorted, ← same, whole)
                    (decode-payload alg hash us' es' (ground arith) (rw (← same) at valid) us_valid
                      es_valid)
