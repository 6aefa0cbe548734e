-- ===== src/Prelude/Distinct.antt =====
-- Loops that keep the keys they have met in a Python set, and refuse one that they meet again.
use mathlib.Core.List.{
  List, [], ◌∷◌, Mem, Nodup, Nodup-cons, Nodup-nil, not-mem-nil, mem-cons_self, mem-cons_of_mem,
  eq-or-mem_of_mem-cons,
}
use mathlib.Core.Logic.Or
use mathlib.Core.HLevel.{⊥_prop}
use mathlib.Core.Path.{◌≡◌, refl, subst}
use mathlib.Core.Bool.{false}
use native.Mathlib.Omega.{arith}
use decent_registry.Prelude.Tests.{Eq, contains}

module _ {ℓ} {K : Type ℓ} ⦃e : Eq K⦄ where
  pub contains-of_mem : (k : K) (ks : List K) → contains k ks ≡ false → ¬ Mem k ks
  contains-of_mem k [] h = not-mem-nil
  contains-of_mem k (x ∷ ks) h = λ m.
      Or.elim ⊥_prop (eq-or-mem_of_mem-cons m) (λ same. ground arith)
        (contains-of_mem k ks (ground arith))

  pub contains-of_not-mem : (k : K) (ks : List K) → ¬ Mem k ks → contains k ks ≡ false
  contains-of_not-mem k [] h = refl
  contains-of_not-mem k (x ∷ ks) h = elim (e.dec k x) [
    | yes same ↦ absurd (h (subst (λ y. Mem k (y ∷ ks)) same mem-cons_self))
    | no differ ↦ ground (arith, contains-of_not-mem k ks (λ m. h (mem-cons_of_mem x m)))
  ]

  -- Each key is new when the loop meets it, after those in `seen`.
  abbrev pub Fresh : List K → List K → Type 0
  Fresh [] seen = Unit
  Fresh (k ∷ ks) seen = (contains k seen ≡ false) × Fresh ks (k ∷ seen)

  pub Fresh-disjoint : (ks seen : List K) (x : K) → Fresh ks seen → Mem x seen → ¬ Mem x ks
  Fresh-disjoint [] seen x f m = not-mem-nil
  Fresh-disjoint (k ∷ ks) seen x (new, f) m = λ n.
      Or.elim ⊥_prop (eq-or-mem_of_mem-cons n)
        (λ same. contains-of_mem k seen new (subst (λ y. Mem y seen) same m))
        (Fresh-disjoint ks (k ∷ seen) x f (mem-cons_of_mem k m))

  pub Fresh-Nodup : (ks seen : List K) → Fresh ks seen → Nodup ks
  Fresh-Nodup [] seen f = Nodup-nil
  Fresh-Nodup (k ∷ ks) seen (new, f) =
      Nodup-cons.1 (Fresh-disjoint ks (k ∷ seen) k f mem-cons_self, Fresh-Nodup ks (k ∷ seen) f)

  pub Nodup-Fresh :
      (ks seen : List K) → Nodup ks → ((x : K) → Mem x seen → ¬ Mem x ks) → Fresh ks seen
  Nodup-Fresh [] seen d apart = tt
  Nodup-Fresh (k ∷ ks) seen d apart =
      let (new, rest) = Nodup-cons.0 d in
      (
        contains-of_not-mem k seen (λ m. apart k m mem-cons_self),
        Nodup-Fresh ks (k ∷ seen) rest (λ x m n.
            Or.elim ⊥_prop (eq-or-mem_of_mem-cons m) (λ same. new (subst (λ y. Mem y ks) same n))
              (λ old. apart x old (mem-cons_of_mem k n))),
      )

  pub Nodup-Fresh_nil : (ks : List K) → Nodup ks → Fresh ks []
  Nodup-Fresh_nil ks d = Nodup-Fresh ks [] d (λ x m. absurd (not-mem-nil m))
