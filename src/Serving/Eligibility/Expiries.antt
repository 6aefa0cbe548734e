-- ===== src/Serving/Eligibility/Expiries.antt =====
-- src/decent_registry/dht/serving_eligibility.py: the dictionary of
-- `RoutingEligibility`.
use decent_registry.Prelude.{
  ℕ, suc, ◌≤◌, ◌<◌, true, none, some, List, [], ◌∷◌, ◌≡◌, refl, arith, leb, if◌then◌else◌, length,
  map, Bool-cases, inl, inr, bytes_eq, contains, Option-cases,
}
use decent_registry.Prelude.Dictionary.{lookup, insert, erase}
use decent_registry.Cbor.{Bytes}
use decent_registry.Serving.Eligibility.{oldest, is_present}

abbrev pub Expires : Type 0
Expires = List (List ℕ × ℕ)

pub length-erase : (i : Bytes) (d : Expires) → length (erase i d) ≤ length d
unfolding erase
length-erase i [] = omega arith
length-erase i ((j, t) ∷ d) = ground (arith, length-erase i d)

pub length-erase_present :
    (i : Bytes) (d : Expires) → is_present (lookup i d) ≡ true → length (erase i d) < length d
unfolding erase lookup
length-erase_present i [] h = cc
length-erase_present i ((j, t) ∷ d) h = ground (arith, length-erase i d, length-erase_present i d)

pub length-insert :
    (i : Bytes) (t : ℕ) (d : Expires)
    → length (insert i t d) ≡ (if is_present (lookup i d) then length d else suc (length d))
unfolding insert lookup
length-insert i t [] = refl
length-insert i t ((j, u) ∷ d) = ground (arith, length-insert i t d)

pub oldest-present :
    (d : Expires) (p : List ℕ × ℕ) → oldest d ≡ some p → is_present (lookup p.0 d) ≡ true
unfolding oldest lookup
oldest-present [] p h = cc
oldest-present ((i, t) ∷ d) p h = elim (Option-cases (oldest d)) [
  | inl alone ↦ ground arith
  | inr (q, e) ↦ elim (Bool-cases (leb t q.1)) [
    | inl first ↦ ground arith
    | inr later ↦ ground (arith, oldest-present d q e)
  ]
]

pub oldest-none : (d : Expires) → oldest d ≡ none → length d ≡ 0
unfolding oldest
oldest-none [] h = refl
oldest-none ((i, t) ∷ d) h = ground arith

pub contains-keys :
    (j : Bytes) (d : Expires)
    → is_present (lookup j d) ≡ true
    → contains j (map (λ (p : List ℕ × ℕ). p.0) d) ≡ true
unfolding lookup
contains-keys j [] h = cc
contains-keys j ((i, t) ∷ d) h = ground (arith, contains-keys j d)
