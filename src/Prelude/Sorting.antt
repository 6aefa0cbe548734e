-- ===== src/Prelude/Sorting.antt =====
-- Python's `sorted(xs, key=key)` for byte-string keys: a stable sort by the lexicographic order.
use Prim.Native.Nat.{ℕ, suc}
use mathlib.Core.Path.{◌≡◌, refl}
use mathlib.Core.Logic.{inl, inr}
use mathlib.Core.Bool.{Bool, true, false, ◌&&◌, ◌||◌}
use mathlib.Core.List.{List, [], ◌∷◌, Perm}
use mathlib.Core.List.Perm
use native.Mathlib.Omega.{arith}
use decent_registry.Prelude.Lists.{All, length}
use decent_registry.Prelude.Tests.{ltb, ◌==◌, if◌then◌else◌, Bool-cases}

-- `a <= b` on byte strings.
unfoldable pub bytes_le : List ℕ → List ℕ → Bool
bytes_le [] b = true
bytes_le (x ∷ a) [] = false
bytes_le (x ∷ a) (y ∷ b) = ltb x y || (x == y && bytes_le a b)

pub bytes_le_refl : (a : List ℕ) → bytes_le a a ≡ true
unfolding bytes_le
bytes_le_refl [] = refl
bytes_le_refl (x ∷ a) = ground (arith, bytes_le_refl a)

pub bytes_le_total : (a b : List ℕ) → bytes_le a b ≡ false → bytes_le b a ≡ true
unfolding bytes_le
bytes_le_total [] b h = ground arith
bytes_le_total (x ∷ a) [] h = refl
bytes_le_total (x ∷ a) (y ∷ b) h = ground (arith, bytes_le_total a b)

pub bytes_le_trans :
    (a b c : List ℕ) → bytes_le a b ≡ true → bytes_le b c ≡ true → bytes_le a c ≡ true
unfolding bytes_le
bytes_le_trans [] b c h k = refl
bytes_le_trans (x ∷ a) [] c h k = ground arith
bytes_le_trans (x ∷ a) (y ∷ b) [] h k = ground arith
bytes_le_trans (x ∷ a) (y ∷ b) (z ∷ c) h k = ground (arith, bytes_le_trans a b c)

module _ {ℓ} {A : Type ℓ} (key : A → List ℕ) where
  unfoldable pub insert : A → List A → List A
  insert x [] = x ∷ []
  insert x (y ∷ ys) =
      let rest = insert x ys in if bytes_le (key x) (key y) then x ∷ y ∷ ys else y ∷ rest

  unfoldable pub sort : List A → List A
  unfolding insert
  sort [] = []
  sort (x ∷ xs) = insert x (sort xs)

  -- The keys never decrease.
  abbrev pub IsSorted : List A → Type 0
  IsSorted [] = Unit
  IsSorted (x ∷ []) = Unit
  IsSorted (x ∷ y ∷ ys) = (bytes_le (key x) (key y) ≡ true) × IsSorted (y ∷ ys)

  insert-IsSorted_after :
      (w x : A) (ys : List A)
      → bytes_le (key w) (key x) ≡ true
      → IsSorted (w ∷ ys)
      → IsSorted (w ∷ insert x ys)
  unfolding insert
  insert-IsSorted_after w x [] h s = (h, tt)
  insert-IsSorted_after w x (y ∷ ys) h (p, s) = elim (Bool-cases (bytes_le (key x) (key y))) [
    | inl le ↦ rw le (h, (le, s))
    | inr gt ↦ rw gt (p, insert-IsSorted_after y x ys (bytes_le_total _ _ gt) s)
  ]

  insert-IsSorted : (x : A) (ys : List A) → IsSorted ys → IsSorted (insert x ys)
  unfolding insert
  insert-IsSorted x [] s = tt
  insert-IsSorted x (y ∷ ys) s = elim (Bool-cases (bytes_le (key x) (key y))) [
    | inl le ↦ rw le (le, s)
    | inr gt ↦ rw gt (insert-IsSorted_after y x ys (bytes_le_total _ _ gt) s)
  ]

  pub sort-IsSorted : (xs : List A) → IsSorted (sort xs)
  unfolding sort
  sort-IsSorted [] = tt
  sort-IsSorted (x ∷ xs) = insert-IsSorted x (sort xs) (sort-IsSorted xs)

  -- A sorted list is left alone.
  pub sort_of_IsSorted : (xs : List A) → IsSorted xs → sort xs ≡ xs
  unfolding sort
  sort_of_IsSorted [] s = refl
  sort_of_IsSorted (x ∷ []) s = refl
  sort_of_IsSorted (x ∷ y ∷ ys) (p, s) = rw (sort_of_IsSorted (y ∷ ys) s, p)

  insert-perm : (x : A) (ys : List A) → Perm (insert x ys) (x ∷ ys)
  unfolding insert
  insert-perm x [] = Perm.refl _
  insert-perm x (y ∷ ys) = elim (Bool-cases (bytes_le (key x) (key y))) [
    | inl le ↦ rw le (Perm.refl _)
    | inr gt ↦ rw gt (Perm.trans (Perm.cons y (insert-perm x ys)) (Perm.swap x y ys))
  ]

  pub sort-perm : (xs : List A) → Perm (sort xs) xs
  unfolding sort
  sort-perm [] = Perm.refl _
  sort-perm (x ∷ xs) = Perm.trans (insert-perm x (sort xs)) (Perm.cons x (sort-perm xs))

  insert-length : (x : A) (ys : List A) → length (insert x ys) ≡ suc (length ys)
  unfolding insert
  insert-length x [] = refl
  insert-length x (y ∷ ys) = ground (arith, insert-length x ys)

  pub sort-length : (xs : List A) → length (sort xs) ≡ length xs
  unfolding sort
  sort-length [] = refl
  sort-length (x ∷ xs) = omega (arith, insert-length x (sort xs), sort-length xs)

  module _ {κ} (P : A → Type κ) where
    insert-All : (x : A) (ys : List A) → P x → All P ys → All P (insert x ys)
    unfolding insert
    insert-All x [] h k = (h, tt)
    insert-All x (y ∷ ys) h (p, k) = elim (Bool-cases (bytes_le (key x) (key y))) [
      | inl le ↦ rw le (h, (p, k))
      | inr gt ↦ rw gt (p, insert-All x ys h k)
    ]

    pub All-sort : (xs : List A) → All P xs → All P (sort xs)
    unfolding sort
    All-sort [] k = tt
    All-sort (x ∷ xs) (h, k) = insert-All x (sort xs) h (All-sort xs k)
