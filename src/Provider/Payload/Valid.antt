-- ===== src/Provider/Payload/Valid.antt =====
-- src/decent_registry/provider_schema.py: the predicates on payloads, and the decoder.
use decent_registry.Prelude.{
  succeeded, present, ≟-true, ◌≟◌, Bool-cases, inl, inr, ◌≤◌, true, false, Option, none, some, [],
  ◌∷◌, ℕ, ◌≡◌, refl, arith, ok, length, bytes_eq, texts_eq,
}
use decent_registry.Cbor.{
  Text, Library, Value, int, text, get, Entries, has_key, has_keys, covers, keys_within,
}
use decent_registry.Provider.Chars.{object_hash_shape}
use decent_registry.Provider.Payload.{
  ProviderPayloadV3, ProviderWithdrawnPayloadV2, ProviderPayload, active, withdrawn, sorted_texts,
  validate_endpoints, normalize_sorted_provider_urls, as_text, as_object_hash, as_texts, as_version,
  withdrawn_status, is_withdrawn_status, validate_object_hash, same_hash, check_replacement,
  decode_replacement, decode_withdrawn, decode_active, is_version_2, decode_provider_payload_dict,
}
use decent_registry.Provider.Payload.Lists.{
  AreEndpoints, AreUrls, validate_endpoints_sound, sorted-AreEndpoints, normalize_urls_sound,
}

abbrev pub IsHash : Text → Type 0
IsHash s = object_hash_shape s ≡ true

-- A replacement that is no other spelling of the object's own hash.
abbrev pub IsReplacement : Entries → Text → Option Text → Type 0
IsReplacement d h none = has_key d 5 ≡ false
IsReplacement d h (some r) = (get d 5 ≡ some (text r)) × IsHash r × (same_hash r h ≡ ok false)

-- The map is exactly what the withdrawn payload shows.
pub record IsWithdrawn (d : Entries) (p : ProviderWithdrawnPayloadV2) : Type 0 where
  pub required : covers d (1 ∷ 2 ∷ 3 ∷ 4 ∷ []) ≡ true
  pub allowed : keys_within d (1 ∷ 2 ∷ 3 ∷ 4 ∷ 5 ∷ []) ≡ true
  pub alg : (get d 1 ≡ some (text p.alg)) × (1 ≤ length p.alg)
  pub version : (is_version_2 (get d 2) ≡ true) × (p.version ≡ 2)
  pub object_hash : (get d 3 ≡ some (text p.object_hash)) × IsHash p.object_hash
  pub status : get d 4 ≡ some (text withdrawn_status)
  pub replacement : IsReplacement d p.object_hash p.replacement_object_hash

as_text_entry : (v : Option Value) (s : Text) → as_text v ≡ ok s → v ≡ some (text s)
as_text_entry (some (Value.text (c ∷ s))) t h = ground arith
as_text_entry v t h = absurd (ground arith)

as_object_hash_entry : (v : Option Value) (s : Text) → as_object_hash v ≡ ok s → v ≡ some (text s)
unfolding validate_object_hash
as_object_hash_entry (some (Value.text t)) s h = ground arith
as_object_hash_entry v s h = absurd (ground arith)

as_version_entry : (v : Option Value) (n : ℕ) → as_version v ≡ ok n → v ≡ some (int n)
as_version_entry (some (int m)) n h = ground arith
as_version_entry v n h = absurd (ground arith)

status_entry : (v : Option Value) → is_withdrawn_status v ≡ true → v ≡ some (text withdrawn_status)
status_entry (some (Value.text s)) h =
    let same : s ≡ withdrawn_status = ≟-true s withdrawn_status h in rw same refl
status_entry v h = absurd (ground arith)

pub as_text_sound : (v : Option Value) (s : Text) → as_text v ≡ ok s → 1 ≤ length s
as_text_sound (some (Value.text (c ∷ s))) t h = ground arith
as_text_sound v s h = absurd (ground arith)

pub validate_object_hash_sound :
    (s out : Text) → validate_object_hash s ≡ ok out → (out ≡ s) × IsHash s
unfolding validate_object_hash
validate_object_hash_sound s out h = ground arith

as_object_hash_sound : (v : Option Value) (s : Text) → as_object_hash v ≡ ok s → IsHash s
as_object_hash_sound (some (Value.text t)) s h =
    let (same, valid) = validate_object_hash_sound t s h in rw same valid
as_object_hash_sound v s h = absurd (ground arith)

pub check_replacement_sound :
    (h r : Text) (out : Option Text)
    → check_replacement h r ≡ ok out
    → (out ≡ some r) × (same_hash r h ≡ ok false)
unfolding check_replacement
check_replacement_sound h r out e =
    succeeded (same_hash r h) (λ x y. ground arith) λ same eq. ground arith

decode_replacement_sound :
    (d : Entries) (h : Text) (out : Option Text)
    → decode_replacement d h ≡ ok out
    → IsReplacement d h out
unfolding decode_replacement
decode_replacement_sound d h none e = elim (Bool-cases (has_key d 5)) [
  | inl given ↦
      succeeded (as_object_hash (get d 5)) (λ x y. ground arith)
        λ s hash.
          let (same, _) = check_replacement_sound h s none (ground arith) in absurd (ground arith)
  | inr missing ↦ missing
]
decode_replacement_sound d h (some r) e =
    succeeded (as_object_hash (get d 5)) (λ x y. ground arith)
      λ s hash.
        let (same, differ) = check_replacement_sound h s (some r) (ground arith) in
        let r-s : r ≡ s = ground arith in
        rw r-s
          (as_object_hash_entry (get d 5) s hash, as_object_hash_sound (get d 5) s hash, differ)

module _ (lib : Library) where
  -- The map is exactly what the active payload shows.
  pub record IsActive (d : Entries) (p : ProviderPayloadV3) : Type 0 where
    pub keys : has_keys d (1 ∷ 2 ∷ 3 ∷ 4 ∷ 5 ∷ []) ≡ true
    pub alg : (get d 1 ≡ some (text p.alg)) × (1 ≤ length p.alg)
    pub version : (get d 2 ≡ some (int p.version)) × (p.version ≡ 3)
    pub object_hash : (get d 3 ≡ some (text p.object_hash)) × IsHash p.object_hash
    pub provider_urls : (as_texts (get d 4) ≡ some p.provider_urls) × AreUrls lib p.provider_urls
    pub endpoints : (as_texts (get d 5) ≡ some p.endpoints) × AreEndpoints p.endpoints

  abbrev pub IsPayload : Entries → ProviderPayload → Type 0
  IsPayload d (active p) = IsActive d p
  IsPayload d (withdrawn p) = IsWithdrawn d p

  decode_withdrawn_sound :
      (d : Entries) (p : ProviderPayload)
      → is_version_2 (get d 2) ≡ true
      → decode_withdrawn d ≡ ok p
      → IsPayload d p
  unfolding decode_withdrawn
  decode_withdrawn_sound d p two h =
      succeeded (as_text (get d 1)) (λ x y. ground arith)
        λ alg eq_alg.
          succeeded (as_object_hash (get d 3)) (λ x y. ground arith)
            λ hash eq_hash.
              succeeded (decode_replacement d hash) (λ x y. ground arith)
                λ r eq_r.
                  let whole : p
                      ≡ withdrawn (record {
                        alg = alg;
                        version = 2;
                        object_hash = hash;
                        replacement_object_hash = r;
                      }) =
                    ground arith in
                  rw whole (record {
                    required = ground arith;
                    allowed = ground arith;
                    alg = (as_text_entry (get d 1) alg eq_alg, as_text_sound (get d 1) alg eq_alg);
                    version = (two, refl);
                    object_hash = (
                      as_object_hash_entry (get d 3) hash eq_hash,
                      as_object_hash_sound (get d 3) hash eq_hash,
                    );
                    status = status_entry (get d 4) (ground arith);
                    replacement = decode_replacement_sound d hash r eq_r;
                  })

  decode_active_sound :
      (d : Entries) (p : ProviderPayload) → decode_active lib d ≡ ok p → IsPayload d p
  unfolding decode_active
  decode_active_sound d p h =
      succeeded (as_version (get d 2)) (λ x y. ground arith)
        λ version eq_version.
          succeeded (as_text (get d 1)) (λ x y. ground arith)
            λ alg eq_alg.
              present (as_texts (get d 5)) (λ x. ground arith)
                λ es eq_es.
                  succeeded (validate_endpoints es) (λ x y. ground arith)
                    λ endpoints eq_endpoints.
                      present (as_texts (get d 4)) (λ x. ground arith)
                        λ us eq_us.
                          succeeded (normalize_sorted_provider_urls lib us) (λ x y. ground arith)
                            λ urls eq_urls.
                              succeeded (as_object_hash (get d 3)) (λ x y. ground arith)
                                λ hash eq_hash.
                                  let whole : p
                                      ≡ active (record {
                                        alg = alg;
                                        version = version;
                                        object_hash = hash;
                                        provider_urls = urls;
                                        endpoints = endpoints;
                                      }) =
                                    ground arith in
                                  let same =
                                    (validate_endpoints_sound es endpoints eq_endpoints).0 in
                                  let ordered : (endpoints ≟ sorted_texts endpoints) ≡ true =
                                    ground arith in
                                  let canonical =
                                    ≟-true endpoints (sorted_texts endpoints) ordered in
                                  let given : us ≡ urls = ≟-true us urls (ground arith) in
                                  let well_formed = sorted-AreEndpoints es endpoints eq_endpoints in
                                  rw whole (record {
                                    keys = ground arith;
                                    alg = (
                                      as_text_entry (get d 1) alg eq_alg,
                                      as_text_sound (get d 1) alg eq_alg,
                                    );
                                    version = (
                                      as_version_entry (get d 2) version eq_version,
                                      ground arith,
                                    );
                                    object_hash = (
                                      as_object_hash_entry (get d 3) hash eq_hash,
                                      as_object_hash_sound (get d 3) hash eq_hash,
                                    );
                                    provider_urls = (
                                      rw (← given) eq_us,
                                      (normalize_urls_sound lib us urls eq_urls).0,
                                    );
                                    endpoints = (rw same eq_es, rw canonical (rw same well_formed));
                                  })

  -- Whatever map is decoded shows its payload. An active payload comes from a map with exactly the
  -- five keys, whose version is the integer 3 and whose fields are the algorithm, not empty, a hash
  -- of 64 hexadecimal characters, 1 to 32 sorted and distinct URIs that validate, and at most 32
  -- sorted paths of at most 256 bytes. A withdrawn one comes from a map with four keys and perhaps a
  -- fifth, whose version equals 2, with an algorithm, such a hash, the status "withdrawn", and under
  -- the fifth key a replacement with another hash; without that key there is no replacement.
  pub decode_provider_payload_dict-IsPayload :
      (d : Entries) (p : ProviderPayload)
      → decode_provider_payload_dict lib d ≡ ok p
      → IsPayload d p
  unfolding decode_provider_payload_dict
  decode_provider_payload_dict-IsPayload d p h = elim (Bool-cases (is_version_2 (get d 2))) [
    | inl two ↦ decode_withdrawn_sound d p two (ground arith)
    | inr other ↦ decode_active_sound d p (ground arith)
  ]
