-- ===== src/Encoding/Update/Legacy.antt =====
-- src/decent_registry/encoding.py: the multisignature decoder on updates without key 4.
use decent_registry.Prelude.{succeeded, false, Option, none, some, ◌≡◌, ◌≢◌, arith, ok}
use decent_registry.Cbor.{Bytes, Library, Value, dict, Entries, get, has_key, get-has_key}
use decent_registry.Encoding.Authorization.{Authorization}
use decent_registry.Encoding.Update.{
  SignedUpdate, decode_map, validate_decoded_signed_update, decode_authorization,
  decode_canonical_signed_update, decode_multisignature_signed_update,
}

decode_map-dict :
    (lib : Library) (v : Option Value) (d : Entries) → decode_map lib v ≡ ok d → v ≡ some (dict d)
decode_map-dict lib (some (dict d)) e h = cc
decode_map-dict lib v e h = absurd (ground arith)

module _ (lib : Library) where
  validate_decoded-legacy :
      (d : Entries) (u : SignedUpdate)
      → has_key d 4 ≡ false
      → validate_decoded_signed_update lib d ≡ ok u
      → u.authorization ≡ none
  unfolding validate_decoded_signed_update decode_authorization
  validate_decoded-legacy d u no_key h =
      let absent : get d 4 ≡ none = get-has_key d 4 no_key in ground arith

  -- An update whose value is no map with key 4.
  pub decode_multisignature-legacy :
      (update : Bytes) (r : SignedUpdate × Authorization)
      → ((d : Entries) → lib.loads update ≡ some (dict d) → has_key d 4 ≡ false)
      → decode_multisignature_signed_update lib update ≢ ok r
  unfolding decode_multisignature_signed_update decode_canonical_signed_update
  decode_multisignature-legacy update r legacy h =
      succeeded (decode_map lib (lib.loads update)) (λ e x. ground arith)
        λ d is_map.
          succeeded (validate_decoded_signed_update lib d) (λ e x. ground arith)
            λ u decoded.
              let absent =
                validate_decoded-legacy d u
                  (legacy d (decode_map-dict lib (lib.loads update) d is_map)) decoded in
              ground arith
