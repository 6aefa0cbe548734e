-- ===== src/Serving/Messages/Fields.antt =====
-- src/decent_registry/dht/serving_eligibility.py: the loop of `_contains_type_field`.
use decent_registry.Prelude.{
  ℕ, zero, suc, ◌+◌, ◌-◌, ◌<◌, ◌≤◌, ◌%◌, ◌/◌, ◌≡◌, refl, arith, Bool, false, ltb, Bool-cases, inl,
  inr, Option, none, some, length, Result, ok, raise, drop, succeeded, ◌==◌, ◌&&◌,
}
use decent_registry.Cbor.{Bytes}
use decent_registry.Serving.Frames.{decode_varint_prefix}
use decent_registry.Serving.Frames.Prefix.{decode_varint_prefix_bounds}
use decent_registry.Serving.Messages.{
  MessageLibrary, Field, answer, skip, after_varint, after_delimited, skip_field, keyed_field,
  read_field, after_field, scan_fields, contains_type_field,
}

-- A field ends no earlier than its content begins.
after_varint-le :
    (v : Option (ℕ × ℕ)) (start offset : ℕ) → after_varint v start ≡ skip offset → start ≤ offset
unfolding after_varint
after_varint-le none start offset h = cc
after_varint-le (some v) start offset h = ground arith

after_delimited-le :
    (v : Option (ℕ × ℕ)) (start offset : ℕ) → after_delimited v start ≡ skip offset → start ≤ offset
unfolding after_delimited
after_delimited-le none start offset h = cc
after_delimited-le (some v) start offset h = ground arith

skip_field-le :
    (payload : Bytes) (wire_type start offset : ℕ)
    → skip_field payload wire_type start ≡ ok (skip offset)
    → start ≤ offset
unfolding skip_field
skip_field-le payload wire_type start offset h = elim (Bool-cases (wire_type == 0)) [
  | inl varint ↦
      succeeded (decode_varint_prefix (drop start payload)) (λ e x. ground arith)
        λ v read. after_varint-le v start offset (ground arith)
  | inr other ↦ elim (Bool-cases (wire_type == 2)) [
    | inl delimited ↦
        succeeded (decode_varint_prefix (drop start payload)) (λ e x. ground arith)
          λ v read. after_delimited-le v start offset (ground arith)
    | inr fixed ↦ ground arith
  ]
]

module _ (lib : MessageLibrary) where
  keyed_field-lt :
      (payload : Bytes) (offset behind : ℕ) (tag : Option (ℕ × ℕ))
      → decode_varint_prefix (drop offset payload) ≡ ok tag
      → keyed_field lib payload offset tag ≡ ok (skip behind)
      → offset < behind
  unfolding keyed_field
  keyed_field-lt payload offset behind none read h = cc
  keyed_field-lt payload offset behind (some tag) read h =
      let (moved, _, _) = decode_varint_prefix_bounds (drop offset payload) read in
      elim (Bool-cases (tag.0 / 8 == 1 && tag.0 % 8 == 0)) [
        | inl typed ↦
            succeeded (decode_varint_prefix (drop (offset + tag.1) payload)) (λ e x. ground arith)
              λ v value. ground arith
        | inr other ↦
            let le = skip_field-le payload (tag.0 % 8) (offset + tag.1) behind (ground arith) in
            omega arith
      ]

  -- Every round that goes on has moved the offset.
  read_field-lt :
      (payload : Bytes) (offset behind : ℕ)
      → read_field lib payload offset ≡ ok (skip behind)
      → offset < behind
  unfolding read_field
  read_field-lt payload offset behind h =
      succeeded (decode_varint_prefix (drop offset payload)) (λ e x. ground arith)
        λ tag read. keyed_field-lt payload offset behind tag read (ground arith)

  after_field_total :
      (again : ℕ → Option (Result Bool)) (payload : Bytes) (field : Result Field)
      → ((offset : ℕ) → field ≡ ok (skip offset) → (r : Result Bool) × (again offset ≡ some r))
      → (r : Result Bool) × (after_field again payload field ≡ some r)
  unfolding after_field
  after_field_total again payload (raise e) total = (raise e, refl)
  after_field_total again payload (ok (answer found)) total = (ok found, refl)
  after_field_total again payload (ok (skip offset)) total =
      let (r, e) = total offset refl in
      elim (Bool-cases (ltb (length payload) offset)) [
        | inl past ↦ (ok false, rw past refl)
        | inr within ↦ (r, rw within e)
      ]

  scan_fields_total :
      (fuel : ℕ) (payload : Bytes) (offset : ℕ)
      → length payload - offset < fuel
      → (r : Result Bool) × (scan_fields lib fuel payload offset ≡ some r)
  unfolding scan_fields
  scan_fields_total zero payload offset enough = absurd (omega arith)
  scan_fields_total (suc fuel) payload offset enough =
      elim (Bool-cases (ltb offset (length payload))) [
        | inr end ↦ (ok false, rw end refl)
        | inl inside ↦
            let (r, e) =
              after_field_total (scan_fields lib fuel payload) payload
                (read_field lib payload offset)
                (λ behind skipped.
                  scan_fields_total fuel payload behind
                    (ground (arith, read_field-lt payload offset behind skipped))) in
            (r, rw inside e)
      ]

  -- The loop over the fields ends by itself on any payload, within as many rounds as the payload
  -- has bytes and one more; what it gives is the result of the call.
  pub contains_type_field_returns :
      (payload : Bytes)
      → scan_fields lib (suc (length payload)) payload 0 ≡ some (contains_type_field lib payload)
  unfolding contains_type_field
  contains_type_field_returns payload =
      let (r, e) = scan_fields_total (suc (length payload)) payload 0 (omega arith) in rw e refl
