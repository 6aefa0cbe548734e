-- ===== src/Encoding/Update/Roundtrip.antt =====
-- src/decent_registry/encoding.py: the round trip of SignedUpdates.
use decent_registry.Prelude.{
  map, succeeded, ℕ, true, false, Option, none, some, List, [], ◌∷◌, ◌≡◌, refl, arith, ok, bytes_eq,
}
use decent_registry.Cbor.{Bytes, Library, Value, int, Entries, entry, end, get, of_list}
use decent_registry.Cbor.Codec.{IsCodec, is_ordered, items_ordered, entries_ordered}
use decent_registry.Encoding.Authorization.{
  Authorization, Signer, signer_value, require_uint, validate_authorization_map,
}
use decent_registry.Encoding.Authorization.Valid.{
  IsAuthorization, validate_authorization_map-IsAuthorization,
}
use decent_registry.Encoding.Authorization.Roundtrip.{validate-authorization_value}
use decent_registry.Encoding.Update.{
  SignedUpdate, validate_uint_keys, validate_record_kind_binding, canonical_cbor, is_canonical_cbor,
  with_authorization, update_value, update_entries, normalize_authorization, encode_signed_update,
  decode_authorization, validate_decoded_signed_update, decode_canonical_signed_update,
}

-- `validate_uint_keys` returns its argument.
validate_uint_keys_self : (d e : Entries) → validate_uint_keys d ≡ ok e → e ≡ d
unfolding validate_uint_keys
validate_uint_keys_self end e h = ground arith
validate_uint_keys_self (entry (int k) v d) e h =
    succeeded (validate_uint_keys d) (λ x y. ground arith)
      λ rest eq. ground (arith, validate_uint_keys_self d rest eq)
validate_uint_keys_self (entry k v d) e h = absurd (ground arith)

items-ordered_signers : (ss : List Signer) → items_ordered (of_list (map signer_value ss)) ≡ true
unfolding items_ordered
items-ordered_signers [] = refl
items-ordered_signers (s ∷ ss) = items-ordered_signers ss

with_authorization-ordered :
    (o : Option Authorization) → entries_ordered (with_authorization o) ≡ true
unfolding entries_ordered
with_authorization-ordered none = refl
with_authorization-ordered (some a) = rw (items-ordered_signers a.signer_set)

update-ordered :
    (u : SignedUpdate)
    → entries_ordered u.record_fields ≡ true
    → entries_ordered u.payload ≡ true
    → is_ordered (update_value u) ≡ true
unfolding is_ordered
update-ordered u hr hp = update-ordered_from u.authorization
  where
    update-ordered_from :
        (o : Option Authorization)
        → is_ordered (update_value (record u { authorization = o })) ≡ true
    update-ordered_from none = rw (hr, hp)
    update-ordered_from (some a) = rw (hr, hp) (with_authorization-ordered (some a))

module _ (lib : Library) where
  -- An update that the encoder can produce.
  pub record IsUpdate (u : SignedUpdate) : Type 0 where
    pub fields : validate_uint_keys u.record_fields ≡ ok u.record_fields
    pub payload : validate_uint_keys u.payload ≡ ok u.payload
    pub authorization :
        (a : Authorization)
        → u.authorization ≡ some a
        → IsAuthorization a
          × (validate_record_kind_binding lib u.record_fields u.payload a.record_kind ≡ ok tt)

  decode-with_authorization :
      (u : SignedUpdate) (o : Option Authorization)
      → IsUpdate u
      → u.authorization ≡ o
      → decode_authorization lib u.record_fields u.payload (get (with_authorization o) 4) ≡ ok o
  unfolding decode_authorization
  decode-with_authorization u none v e = refl
  decode-with_authorization u (some a) v e =
      let (well_formed, bound) = v.authorization a e in
      rw (validate-authorization_value a false well_formed, bound)

  decode-update_value :
      (u : SignedUpdate) (o : Option Authorization)
      → IsUpdate u
      → u.authorization ≡ o
      → validate_decoded_signed_update lib (update_entries (record u { authorization = o }))
        ≡ ok (record u { authorization = o })
  unfolding validate_decoded_signed_update require_uint
  decode-update_value u none v e = rw (v.fields, v.payload)
  decode-update_value u (some a) v e =
      rw (v.fields, v.payload) (rw (decode-with_authorization u (some a) v e))

  pub canonical-dumps :
      (v : Value) (b : Bytes)
      → lib.loads b ≡ some v
      → lib.dumps v ≡ some b
      → is_canonical_cbor lib b ≡ true
  unfolding is_canonical_cbor
  canonical-dumps v b h k = ground arith

  -- The authorization of the encoded update is the given one, validated, if one is given.
  abbrev pub IsNormalized : Option Value → Option Authorization → Type 0
  IsNormalized none o = o ≡ none
  IsNormalized (some v) o =
      (a : Authorization) × (validate_authorization_map v true ≡ ok a) × (o ≡ some a)

  normalize_sound :
      (rf pl : Entries) (auth : Option Value) (o : Option Authorization)
      → normalize_authorization lib rf pl auth ≡ ok o
      → IsNormalized auth o
        × ((a : Authorization)
            → o ≡ some a
            → IsAuthorization a × (validate_record_kind_binding lib rf pl a.record_kind ≡ ok tt))
  unfolding normalize_authorization
  normalize_sound rf pl none o h = (ground arith, λ a e. absurd (ground arith))
  normalize_sound rf pl (some v) o h =
      succeeded (validate_authorization_map v true) (λ x y. ground arith)
        λ a eq. (
          (a, eq, ground arith),
          λ a' e.
              let same : a ≡ a' = ground arith in
              rw (← same) (validate_authorization_map-IsAuthorization v true a eq, ground arith),
        )

  decode-dumps :
      IsCodec lib
      → (u : SignedUpdate) (b : Bytes) → IsUpdate u
      → entries_ordered u.record_fields ≡ true
      → entries_ordered u.payload ≡ true
      → lib.dumps (update_value u) ≡ some b
      → decode_canonical_signed_update lib b ≡ ok u
  unfolding decode_canonical_signed_update
  decode-dumps codec u b v hr hp wrote =
      let ordered = update-ordered u hr hp in
      let read = codec.loads-dumps (update_value u) b ordered wrote in
      rw (canonical-dumps (update_value u) b read wrote, read)
        (decode-update_value u u.authorization v refl)

  -- An update that is encoded decodes: the fields, the payload and the sequence number come back,
  -- with the authorization sorted and validated. The maps list their keys in increasing order, and
  -- `loads` reads back what `dumps` wrote.
  pub decode-encode_signed_update :
      IsCodec lib
      → (rf pl : Entries) (seq : ℕ) (auth : Option Value) (b : Bytes) → entries_ordered rf ≡ true
      → entries_ordered pl ≡ true
      → encode_signed_update lib rf pl seq auth ≡ ok b
      → (o : Option Authorization) × IsNormalized auth o
        × (decode_canonical_signed_update lib b
            ≡ ok (record { record_fields = rf; payload = pl; seq = seq; authorization = o }))
  unfolding encode_signed_update canonical_cbor
  decode-encode_signed_update codec rf pl seq auth b hr hp h =
      succeeded (validate_uint_keys rf) (λ x y. ground arith)
        λ rf' fields.
          succeeded (validate_uint_keys pl) (λ x y. ground arith)
            λ pl' payload.
              let same = validate_uint_keys_self rf rf' fields in
              let same' = validate_uint_keys_self pl pl' payload in
              succeeded (normalize_authorization lib rf pl auth) (λ x y. ground arith)
                λ o normal.
                  let (normalized, bound) = normalize_sound rf pl auth o normal in
                  (
                    o,
                    normalized,
                    decode-dumps codec
                        (record { record_fields = rf; payload = pl; seq = seq; authorization = o })
                        b
                        (record {
                          fields = rw same at fields;
                          payload = rw same' at payload;
                          authorization = bound;
                        })
                        hr hp (ground arith),
                  )
