-- ===== src/Serving/Frames/Canonical.antt =====
-- src/decent_registry/dht/serving_eligibility.py: `_read_bounded_dht_frame` and the frames that it
-- accepts.
use mathlib.Core.List.{append-nil}
use decent_registry.Prelude.{
  ℕ, zero, suc, ◌^◌, ◌<◌, ◌≤◌, [], ◌∷◌, ◌++◌, ◌≡◌, refl, ap, sym, ◌∙◌, ◌↔◌, inl, inr, arith, length,
  length-append, take, drop, ok, succeeded, present, bytes_eq,
}
use decent_registry.Cbor.{Bytes}
use decent_registry.Serving.Frames.{decode_varint_prefix, read_bounded_dht_frame, IsVarint}
use decent_registry.Serving.Frames.Prefix.{decode_varint_prefix-Begun}

take-drop : (j : ℕ) (b : Bytes) → take j b ++ drop j b ≡ b
take-drop zero b = refl
take-drop (suc j) [] = refl
take-drop (suc j) (x ∷ b) = ap (◌∷◌ x) (take-drop j b)

pub take-append : (a b : Bytes) → take (length a) (a ++ b) ≡ a
take-append [] b = refl
take-append (x ∷ a) b = ap (◌∷◌ x) (take-append a b)

pub drop-append : (a b : Bytes) → drop (length a) (a ++ b) ≡ b
drop-append [] b = refl
drop-append (x ∷ a) b = drop-append a b

module _ (encode : ℕ → Bytes) (law : IsVarint encode) (max_bytes : ℕ) where
  sound :
      (frame payload : Bytes)
      → read_bounded_dht_frame encode max_bytes frame ≡ ok payload
      → (frame ≡ encode (length payload) ++ payload) × (length payload ≤ max_bytes)
  unfolding read_bounded_dht_frame
  sound frame payload h =
      succeeded (decode_varint_prefix frame) (λ e x. ground arith)
        λ decoded at_front.
          present decoded (λ e. ground arith)
            λ prefix is_prefix.
              let size : prefix.0 ≡ length payload = ground arith in
              let head : encode prefix.0 ≡ take prefix.1 frame = ground arith in
              let tail : payload ≡ drop prefix.1 frame = ground arith in
              (rw (← size, head, tail) (sym (take-drop prefix.1 frame)), ground arith)

  complete :
      (frame payload : Bytes)
      → max_bytes < 128 ^ 10
      → (frame ≡ encode (length payload) ++ payload) × (length payload ≤ max_bytes)
      → read_bounded_dht_frame encode max_bytes frame ≡ ok payload
  unfolding read_bounded_dht_frame
  complete frame payload range (whole, within) =
      elim (decode_varint_prefix-Begun encode law (length payload) frame [] payload (omega arith)
        (append-nil frame ∙ whole)) [
          | inl (_, short) ↦
              absurd
                (omega (arith, ap length whole, length-append (encode (length payload)) payload))
          | inr (found, _) ↦
              let prefix = encode (length payload) in
              let head : take (length prefix) frame ≡ prefix =
                rw whole (take-append prefix payload) in
              let tail : drop (length prefix) frame ≡ payload =
                rw whole (drop-append prefix payload) in
              rw found (ground (arith, head, tail))
        ]

  -- A frame is accepted exactly where it is the varint of the payload's length followed by the
  -- payload, and the length is within the bound: what is read is then the payload.
  pub read_bounded_dht_frame_iff :
      (frame payload : Bytes)
      → max_bytes < 128 ^ 10
      → (read_bounded_dht_frame encode max_bytes frame ≡ ok payload)
        ↔ ((frame ≡ encode (length payload) ++ payload) × (length payload ≤ max_bytes))
  read_bounded_dht_frame_iff frame payload range =
      (sound frame payload, complete frame payload range)
