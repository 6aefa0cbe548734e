-- ===== src/Prelude/Tests.antt =====
-- Python's comparisons: the orders on numbers, and `==` for every type whose equality is decided.
use Prim.Native.Nat.{ℕ, ◌≤◌, compare, Ordering}
use mathlib.Core.Path.{◌≡◌, refl}
use mathlib.Core.Logic.{◌⊎◌, inl, inr, ite}
use mathlib.Core.Bool.{Bool, true, false, ◌||◌}
use mathlib.Core.Option.{Option, none, some}
use mathlib.Core.List.{List, [], ◌∷◌}
use native.Mathlib.Omega.{arith}
use native.Mathlib.Decide.{ℕ_discrete}

abbrev pub ltb : ℕ → ℕ → Bool
ltb a b = elim (compare a b) [ Ordering.lt ↦ true | _ ↦ false ]

abbrev pub leb : ℕ → ℕ → Bool
leb a b = elim (compare a b) [ Ordering.gt ↦ false | _ ↦ true ]

-- `==` on numbers.
infix 50 ◌==◌
abbrev pub ◌==◌ : ℕ → ℕ → Bool
a == b = elim (compare a b) [ Ordering.eq ↦ true | _ ↦ false ]

infix 1 if◌then◌else◌
abbrev pub if◌then◌else◌ {ℓ} : {A : Type ℓ} → Bool → A → A → A
if true then x else y = x
if false then x else y = y

pub record Eq {ℓ} (A : Type ℓ) : Type ℓ where
  pub dec : Discrete A

-- `==` on data.
infix 50 ◌≟◌
abbrev pub ◌≟◌ {ℓ} : {A : Type ℓ} ⦃e : Eq A⦄ → A → A → Bool
◌≟◌ ⦃e⦄ a b = ite (e.dec a b) true false

-- `a in xs`.
abbrev pub contains {ℓ} : {A : Type ℓ} ⦃e : Eq A⦄ → A → List A → Bool
contains a [] = false
contains a (x ∷ xs) = a ≟ x || contains a xs

list_dec {ℓ} : {A : Type ℓ} → Discrete A → Discrete (List A)
list_dec d = hlevel d

-- The instances stay shut in proofs, where a split on `a ≟ b` yields the equation or its negation.
instance unfoldable pub bytes_eq : Eq (List ℕ)
unfolding list_dec ℕ_discrete
bytes_eq = record { dec = list_dec ℕ_discrete }

pair_dec : Discrete (List (List ℕ × List ℕ))
unfolding bytes_eq
pair_dec = hlevel (bytes_eq.dec)

instance unfoldable pub pairs_eq : Eq (List (List ℕ × List ℕ))
unfolding pair_dec
pairs_eq = record { dec = pair_dec }

texts_dec : Discrete (List (List ℕ))
unfolding bytes_eq
texts_dec = hlevel (bytes_eq.dec)

instance unfoldable pub texts_eq : Eq (List (List ℕ))
unfolding texts_dec
texts_eq = record { dec = texts_dec }

optional_dec : Discrete (Option (List ℕ))
unfolding bytes_eq
optional_dec = hlevel (bytes_eq.dec)

instance unfoldable pub optional_eq : Eq (Option (List ℕ))
unfolding optional_dec
optional_eq = record { dec = optional_dec }

proofs_dec : Discrete (List (Option (List ℕ) × List ℕ))
unfolding bytes_eq
proofs_dec = hlevel (bytes_eq.dec)

instance unfoldable pub proofs_eq : Eq (List (Option (List ℕ) × List ℕ))
unfolding proofs_dec
proofs_eq = record { dec = proofs_dec }

history_dec : Discrete (Option (List (List ℕ)))
unfolding bytes_eq
history_dec = hlevel (bytes_eq.dec)

instance unfoldable pub history_eq : Eq (Option (List (List ℕ)))
unfolding history_dec
history_eq = record { dec = history_dec }

pub Bool-cases : (b : Bool) → (b ≡ true) ⊎ (b ≡ false)
Bool-cases true = inl refl
Bool-cases false = inr refl

pub Option-cases {ℓ} : {A : Type ℓ} (o : Option A) → (o ≡ none) ⊎ ((a : A) × (o ≡ some a))
Option-cases none = inl refl
Option-cases (some a) = inr (a, refl)

pub ltb-false : (a b : ℕ) → ltb a b ≡ false → b ≤ a
ltb-false a b h = ground arith

pub le-ltb : (a b : ℕ) → b ≤ a → ltb a b ≡ false
le-ltb a b h = ground arith

pub ≟-apart {ℓ} : {A : Type ℓ} ⦃e : Eq A⦄ (a b : A) → (a ≡ b → ⊥) → (a ≟ b) ≡ false
≟-apart a b h = ground arith

pub ≟-same {ℓ} : {A : Type ℓ} ⦃e : Eq A⦄ (a b : A) → a ≡ b → (a ≟ b) ≡ true
≟-same a b h = ground arith

pub ≟-true {ℓ} : {A : Type ℓ} ⦃e : Eq A⦄ (a b : A) → (a ≟ b) ≡ true → a ≡ b
≟-true a b h = ground arith

-- Two tests of equivalent equations agree.
pub ≟-iff {ℓ κ} :
    {A : Type ℓ} {B : Type κ} ⦃e : Eq A⦄ ⦃f : Eq B⦄ (a b : A) (c d : B)
    → (a ≡ b → c ≡ d)
    → (c ≡ d → a ≡ b)
    → (a ≟ b) ≡ (c ≟ d)
≟-iff ⦃e⦄ ⦃f⦄ a b c d to from = elim (e.dec a b) [
  | yes p ↦ rw (≟-same a b p, ≟-same c d (to p))
  | no p ↦ rw (≟-apart a b p, ≟-apart c d (λ q. p (from q)))
]
