-- ===== src/Provider/Payload/Lists.antt =====
-- src/decent_registry/provider_schema.py: the two lists of an active payload.
use mathlib.Core.List.{Nodup, Nodup-cons, Nodup-nil}
use mathlib.Core.List.Perm
use decent_registry.Prelude.{
  succeeded, ◌≤◌, true, List, [], ◌∷◌, ◌≡◌, refl, arith, ok, length, All, bytes_eq, texts_eq,
}
use decent_registry.Prelude.Sorting.{
  IsSorted, sort-IsSorted, sort-perm, sort-length, sort_of_IsSorted, All-sort,
}
use decent_registry.Prelude.Distinct.{contains-of_mem, contains-of_not-mem}
use decent_registry.Cbor.{Text, Library}
use decent_registry.Provider.Chars.{starts_with}
use decent_registry.Provider.Uri.{validate_provider_uri}
use decent_registry.Provider.Payload.{
  sorted_texts, check_endpoints, validate_endpoints, all_distinct, check_urls,
  normalize_sorted_provider_urls,
}

abbrev pub self : Text → Text
self s = s

-- A path of at most 256 bytes.
abbrev pub IsEndpoint : Text → Type 0
IsEndpoint e = (starts_with (b'/' ∷ []) e ≡ true) × (length e ≤ 256)

pub record AreEndpoints (es : List Text) : Type 0 where
  pub count : length es ≤ 32
  pub paths : All IsEndpoint es
  pub ordered : IsSorted self es

all_distinct-Nodup : (ss : List Text) → all_distinct ss ≡ true → Nodup ss
all_distinct-Nodup [] h = Nodup-nil
all_distinct-Nodup (s ∷ ss) h =
    Nodup-cons.1 (contains-of_mem s ss (ground arith), all_distinct-Nodup ss (ground arith))

pub all_distinct_of_Nodup : (ss : List Text) → Nodup ss → all_distinct ss ≡ true
all_distinct_of_Nodup [] d = refl
all_distinct_of_Nodup (s ∷ ss) d =
    let (new, rest) = Nodup-cons.0 d in
    rw (contains-of_not-mem s ss new) (all_distinct_of_Nodup ss rest)

check_endpoints_sound : (es : List Text) → check_endpoints es ≡ ok tt → All IsEndpoint es
unfolding check_endpoints
check_endpoints_sound [] h = tt
check_endpoints_sound (e ∷ es) h = (ground arith, check_endpoints_sound es (ground arith))

pub check_endpoints_complete : (es : List Text) → All IsEndpoint es → check_endpoints es ≡ ok tt
unfolding check_endpoints
check_endpoints_complete [] v = refl
check_endpoints_complete (e ∷ es) (v, vs) = ground (arith, check_endpoints_complete es vs)

pub validate_endpoints_sound :
    (es out : List Text)
    → validate_endpoints es ≡ ok out
    → (out ≡ es) × (length es ≤ 32) × All IsEndpoint es
unfolding validate_endpoints
validate_endpoints_sound es out h =
    succeeded (check_endpoints es) (λ e x. ground arith)
      λ done run. ground (arith, check_endpoints_sound es run)

pub sorted-AreEndpoints :
    (es out : List Text) → validate_endpoints es ≡ ok out → AreEndpoints (sorted_texts es)
sorted-AreEndpoints es out h =
    let (same, short, valid) = validate_endpoints_sound es out h in
    record {
      count = rw (sort-length self es) short;
      paths = All-sort self IsEndpoint es valid;
      ordered = sort-IsSorted self es;
    }

module _ (lib : Library) where
  abbrev pub IsUri : Text → Type 0
  IsUri u = validate_provider_uri lib u ≡ ok u

  pub record AreUrls (us : List Text) : Type 0 where
    pub count : (1 ≤ length us) × (length us ≤ 32)
    pub uris : All IsUri us
    pub distinct : Nodup us
    pub ordered : IsSorted self us

  validate_provider_uri_self : (u out : Text) → validate_provider_uri lib u ≡ ok out → out ≡ u
  unfolding validate_provider_uri
  validate_provider_uri_self u out h = ground arith

  check_urls_sound : (us out : List Text) → check_urls lib us ≡ ok out → (out ≡ us) × All IsUri us
  unfolding check_urls
  check_urls_sound [] [] h = (refl, tt)
  check_urls_sound [] (o ∷ out) h = absurd (ground arith)
  check_urls_sound (u ∷ us) out h =
      succeeded (validate_provider_uri lib u) (λ e x. ground arith)
        λ u' one.
          succeeded (check_urls lib us) (λ e x. ground arith)
            λ us' more.
              let same = validate_provider_uri_self u u' one in
              let (rest, uris) = check_urls_sound us us' more in
              (ground arith, (rw same at one, uris))

  check_urls_complete : (us : List Text) → All IsUri us → check_urls lib us ≡ ok us
  unfolding check_urls
  check_urls_complete [] v = refl
  check_urls_complete (u ∷ us) (v, vs) = rw (v, check_urls_complete us vs)

  pub normalize_urls_sound :
      (us out : List Text)
      → normalize_sorted_provider_urls lib us ≡ ok out
      → AreUrls out × (out ≡ sorted_texts us)
  unfolding normalize_sorted_provider_urls
  normalize_urls_sound us out h =
      succeeded (check_urls lib us) (λ e x. ground arith)
        λ all run.
          let (same, uris) = check_urls_sound us all run in
          let result : out ≡ sorted_texts us = ground arith in
          let distinct = all_distinct-Nodup us (ground arith) in
          rw result (
            record {
              count = rw (sort-length self us) (ground arith);
              uris = All-sort self IsUri us uris;
              distinct = Perm.nodup (Perm.symm (sort-perm self us)) distinct;
              ordered = sort-IsSorted self us;
            },
            refl,
          )

  pub normalize_urls_complete :
      (us : List Text) → AreUrls us → normalize_sorted_provider_urls lib us ≡ ok us
  unfolding normalize_sorted_provider_urls
  normalize_urls_complete us v =
      rw
        (
          check_urls_complete us v.uris,
          all_distinct_of_Nodup us v.distinct,
          sort_of_IsSorted self us v.ordered,
        )
        (ground (arith, v.count))
