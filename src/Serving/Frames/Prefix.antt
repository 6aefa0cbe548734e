-- ===== src/Serving/Frames/Prefix.antt =====
-- src/decent_registry/dht/serving_eligibility.py: what `_decode_varint_prefix` gives on the parts of
-- an encoded length.
use native.Mathlib.Numerals.{towards_suc}
use native.Mathlib.Nat.{div-add-mod}
use decent_registry.Prelude.{
  ℕ, zero, suc, ◌+◌, ◌*◌, ◌/◌, ◌%◌, ◌^◌, ◌<◌, ◌≤◌, Option, none, some, List, [], ◌∷◌, ◌++◌, ◌≡◌,
  refl, ap, ltb, Bool-cases, inl, inr, ◌⊎◌, arith, length, take, ok,
}
use decent_registry.Cbor.{Bytes}
use decent_registry.Serving.Frames.{varint_loop, after_loop, decode_varint_prefix, IsVarint}

shift_seven : (s : ℕ) → 2 ^ (s + 7) ≡ 128 * 2 ^ s
shift_seven s = simp towards_suc (omega arith)

-- The lowest group and the others make up the number.
regroup : (n v s : ℕ) → v + n % 128 * 2 ^ s + n / 128 * 2 ^ (s + 7) ≡ v + n * 2 ^ s
regroup n v s = omega (
  arith,
  ap (λ (t : ℕ). n / 128 * t) (shift_seven s),
  ap (λ (t : ℕ). t * 2 ^ s) (div-add-mod n 128),
)

loop_bounds :
    (xs : Bytes) (v s i l j : ℕ)
    → varint_loop xs v s i ≡ some (l, j)
    → (i < j) × (j ≤ i + length xs)
unfolding varint_loop
loop_bounds [] v s i l j h = cc
loop_bounds (x ∷ xs) v s i l j h =
    ground (arith, loop_bounds xs (v + x % 128 * 2 ^ s) (s + 7) (i + 1) l j)

length-take :
    {A : Type 0} (m : ℕ) (xs : List A) → (length (take m xs) ≤ m) × (length (take m xs) ≤ length xs)
length-take zero xs = (omega arith, omega arith)
length-take (suc m) [] = (omega arith, omega arith)
length-take (suc m) (x ∷ xs) = omega (arith, length-take m xs)

-- The prefix has one to ten bytes, all of them there.
pub decode_varint_prefix_bounds :
    (b : Bytes) {l j : ℕ}
    → decode_varint_prefix b ≡ ok (some (l, j))
    → (0 < j) × (j ≤ 10) × (j ≤ length b)
unfolding decode_varint_prefix after_loop
decode_varint_prefix_bounds b {l} {j} h =
    ground (arith, loop_bounds (take 10 b) 0 0 0 l j, length-take 10 b)

after_loop_short :
    (b : Bytes) (found : Option (ℕ × ℕ)) → after_loop b found ≡ ok none → length b < 10
unfolding after_loop
after_loop_short b none h = ground arith
after_loop_short b (some x) h = cc

pub decode_varint_prefix_short : (b : Bytes) → decode_varint_prefix b ≡ ok none → length b < 10
unfolding decode_varint_prefix
decode_varint_prefix_short b h = after_loop_short b (varint_loop (take 10 b) 0 0 0) h

module _ (encode : ℕ → Bytes) (law : IsVarint encode) where
  -- What the loop makes of the first bytes of an encoded number: it waits for more, or has read it.
  abbrev Reading : ℕ → ℕ → ℕ → ℕ → ℕ → Bytes → Type 0
  Reading m n v s i xs =
      ((varint_loop (take m xs) v s i ≡ none) × (length xs < length (encode n)))
      ⊎ ((varint_loop (take m xs) v s i ≡ some (v + n * 2 ^ s, i + length (encode n)))
          × (length (encode n) ≤ length xs))

  pub encode-length :
      (k n : ℕ) → n < 128 ^ suc k → (0 < length (encode n)) × (length (encode n) ≤ suc k)
  encode-length zero n h = rw (law.last_group n (omega arith)) (omega arith)
  encode-length (suc k) n h = elim (Bool-cases (ltb n 128)) [
    | inl small ↦ rw (law.last_group n (ground arith)) (omega arith)
    | inr large ↦
        rw (law.more_groups n (ground arith))
          (omega (arith, encode-length k (n / 128) (omega arith)))
  ]

  last_byte :
      (m n v s i x : ℕ) (xs ys p : Bytes)
      → n < 128
      → x ∷ xs ++ ys ≡ encode n ++ p
      → Reading (suc m) n v s i (x ∷ xs)
  unfolding varint_loop
  last_byte m n v s i x xs ys p small e =
      let one = law.last_group n small in
      let at_head : x ≡ n = ground arith in inr (ground arith, ground arith)

  inner_byte :
      (m n v s i x : ℕ) (xs ys p : Bytes)
      → 128 ≤ n
      → x ∷ xs ++ ys ≡ encode n ++ p
      → ((xs ++ ys ≡ encode (n / 128) ++ p)
          → Reading m (n / 128) (v + n % 128 * 2 ^ s) (s + 7) (i + 1) xs)
      → Reading (suc m) n v s i (x ∷ xs)
  unfolding varint_loop
  inner_byte m n v s i x xs ys p large e rest =
      let more = law.more_groups n large in
      let at_head : x ≡ n % 128 + 128 = ground arith in
      elim (rest (ground arith)) [
        | inl (waits, short) ↦ inl (ground (arith, regroup n v s), ground arith)
        | inr (found, long) ↦ inr (ground (arith, regroup n v s), ground arith)
      ]

  loop-encode :
      (k m n v s i : ℕ) (xs ys p : Bytes)
      → k < m
      → n < 128 ^ suc k
      → xs ++ ys ≡ encode n ++ p
      → Reading m n v s i xs
  unfolding varint_loop
  loop-encode k zero n v s i xs ys p room small e = absurd (omega arith)
  loop-encode k (suc m) n v s i [] ys p room small e = inl (refl, (encode-length k n small).0)
  loop-encode zero (suc m) n v s i (x ∷ xs) ys p room small e =
      last_byte m n v s i x xs ys p (omega arith) e
  loop-encode (suc k) (suc m) n v s i (x ∷ xs) ys p room small e = elim (Bool-cases (ltb n 128)) [
    | inl less ↦ last_byte m n v s i x xs ys p (ground arith) e
    | inr large ↦ inner_byte m n v s i x xs ys p (ground arith) e (
        loop-encode k m (n / 128) (v + n % 128 * 2 ^ s) (s + 7) (i + 1) xs ys p (omega arith)
          (omega arith))
  ]

  -- The bytes of a stream that begins with an encoded number are never refused: the prefix waits
  -- for the rest of the number, or is the number.
  abbrev pub Begun : ℕ → Bytes → Type 0
  Begun n xs =
      ((decode_varint_prefix xs ≡ ok none) × (length xs < length (encode n)))
      ⊎ ((decode_varint_prefix xs ≡ ok (some (n, length (encode n))))
          × (length (encode n) ≤ length xs))

  pub decode_varint_prefix-Begun :
      (n : ℕ) (xs ys p : Bytes) → n < 128 ^ 10 → xs ++ ys ≡ encode n ++ p → Begun n xs
  unfolding decode_varint_prefix after_loop
  decode_varint_prefix-Begun n xs ys p small e =
      let size = encode-length 9 n small in
      elim (loop-encode 9 10 n 0 0 0 xs ys p (omega arith) small e) [
        | inl (waits, short) ↦ inl (rw waits (ground arith), short)
        | inr (found, long) ↦ inr (rw found (ground arith), long)
      ]
