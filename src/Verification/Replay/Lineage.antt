-- ===== src/Verification/Replay/Lineage.antt =====
-- src/decent_registry/verification.py: lineages, the sequences of transitions from an anchor, and
-- the replay of a history.
use mathlib.Core.List.{append_assoc, append-nil}
use decent_registry.Prelude.{
  subst, succeeded, ℕ, Option, none, some, List, [], ◌∷◌, ◌++◌, ◌≡◌, refl, arith, ok, ◌==◌,
  Bool-cases, inl, inr,
}
use decent_registry.Cbor.{Bytes, Library}
use decent_registry.Encoding.Authorization.{operation_upgrade, operation_owner_key_rotation}
use decent_registry.Verification.Candidate.{MultisignatureState, decode_multisignature_candidate}
use decent_registry.Verification.Transitions.Extensions.{
  Ordinary, Replacement, Rotation, validate_multisignature_ordinary_update-Ordinary,
  validate_multisignature_signer_replacement-Replacement,
  validate_owner_rotation_from_state-Rotation,
}
use decent_registry.Verification.Transitions.Anchors.{
  Genesis, Upgrade, LegacyRotation, validate_multisignature_genesis-Genesis,
  validate_multisignature_upgrade-Upgrade, validate_owner_rotation_from_legacy-LegacyRotation,
}
use decent_registry.Verification.Replay.{
  dispatch_other, replay_step, replay_all, replay_anchor, validate_multisignature_history,
  dispatch_rotation, validate_multisignature_update,
}

module _ (lib : Library) (key : Bytes) where
  -- One transition from an accepted state.
  pub data Extension (envelope : Bytes) (s s' : MultisignatureState) : Type 0 where
    ordinary : Ordinary lib key envelope s s' → Extension envelope s s'
    replacement : Replacement lib key envelope s s' → Extension envelope s s'
    rotation : Rotation lib key envelope s s' → Extension envelope s s'

  -- The states that envelopes lead to, one after the other.
  pub data Lineage : List Bytes → MultisignatureState → Type 0 where
    genesis : {e : Bytes} {s : MultisignatureState} → Genesis lib key e s → Lineage (e ∷ []) s
    upgrade :
        {l e : Bytes} {s : MultisignatureState} → Upgrade lib key e s l → Lineage (l ∷ e ∷ []) s
    rotated :
        {l e : Bytes} {s : MultisignatureState}
        → LegacyRotation lib key e s l
        → Lineage (l ∷ e ∷ []) s
    extend :
        {es fs : List Bytes} {e : Bytes} {s s' : MultisignatureState}
        → Lineage es s
        → Extension e s s'
        → fs ≡ es ++ e ∷ []
        → Lineage fs s'

  dispatch-Extension :
      (e : Bytes) (operation : ℕ) (s s' : MultisignatureState)
      → dispatch_other lib key e operation (some s) none ≡ ok s'
      → Extension e s s'
  unfolding dispatch_other
  dispatch-Extension e operation s s' h = elim (Bool-cases (operation == 2)) [
    | inl two ↦
        ordinary (validate_multisignature_ordinary_update-Ordinary lib key e s s' (ground arith))
    | inr other ↦
        replacement
          (validate_multisignature_signer_replacement-Replacement lib key e s s' (ground arith))
  ]

  pub replay_step-Extension :
      (anchor : Option Bytes) (s s' : MultisignatureState) (e : Bytes)
      → replay_step lib key anchor (some s) e ≡ ok s'
      → Extension e s s'
  unfolding replay_step
  replay_step-Extension anchor s s' e h =
      succeeded (decode_multisignature_candidate lib e) (λ x y. ground arith)
        λ c decoded. elim (Bool-cases (c.authorization.operation == operation_owner_key_rotation)) [
          | inl turn ↦
              rotation
                (validate_owner_rotation_from_state-Rotation lib key e s s' none (ground arith))
          | inr other ↦ dispatch-Extension e c.authorization.operation s s' (ground arith)
        ]

  pub validate_multisignature_update-Extension :
      (e : Bytes) (s s' : MultisignatureState) (legacy : Option Bytes)
      → validate_multisignature_update lib key e (some s) legacy ≡ ok s'
      → Extension e s s'
  unfolding validate_multisignature_update dispatch_rotation dispatch_other
  validate_multisignature_update-Extension e s s' legacy h =
      succeeded (decode_multisignature_candidate lib e) (λ x y. ground arith)
        λ c decoded. elim (Bool-cases (c.authorization.operation == operation_owner_key_rotation)) [
          | inl turn ↦ rotation (
              validate_owner_rotation_from_state-Rotation lib key e s s'
                (some (validate_multisignature_history lib key)) (ground arith))
          | inr other ↦ dispatch-Extension e c.authorization.operation s s' (ground arith)
        ]

  replay_first-Lineage :
      (l e : Bytes) (s : MultisignatureState)
      → replay_step lib key (some l) none e ≡ ok s
      → Lineage (l ∷ e ∷ []) s
  unfolding replay_step
  replay_first-Lineage l e s h =
      succeeded (decode_multisignature_candidate lib e) (λ x y. ground arith)
        λ c decoded. elim (Bool-cases (c.authorization.operation == operation_upgrade)) [
          | inl turn ↦
              upgrade (validate_multisignature_upgrade-Upgrade lib key e s l (ground arith))
          | inr other ↦
              rotated
                (validate_owner_rotation_from_legacy-LegacyRotation lib key e s l (ground arith))
        ]

  replay_all-Lineage :
      (anchor : Option Bytes) (es fs : List Bytes) (s : MultisignatureState)
      {s' : MultisignatureState}
      → Lineage es s
      → replay_all lib key anchor (some s) fs ≡ ok (some s')
      → Lineage (es ++ fs) s'
  unfolding replay_all
  replay_all-Lineage anchor es [] s {s'} l h = let same : s ≡ s' = cc in rw (append-nil, ← same) l
  replay_all-Lineage anchor es (f ∷ fs) s {s'} l h =
      succeeded (replay_step lib key anchor (some s) f) (λ x y. ground arith)
        λ t step.
          subst (λ gs. Lineage gs s') (append_assoc es (f ∷ []) fs)
            (replay_all-Lineage anchor (es ++ f ∷ []) fs t
              (extend l (replay_step-Extension anchor s t f step) refl) (ground arith))

  replay_legacy-Lineage :
      (l : Bytes) (es : List Bytes) {s : MultisignatureState}
      → replay_all lib key (some l) none es ≡ ok (some s)
      → Lineage (l ∷ es) s
  unfolding replay_all
  replay_legacy-Lineage l [] h = cc
  replay_legacy-Lineage l (e ∷ es) h =
      succeeded (replay_step lib key (some l) none e) (λ x y. ground arith)
        λ t step.
          replay_all-Lineage (some l) (l ∷ e ∷ []) es t (replay_first-Lineage l e t step)
            (ground arith)

  -- What the anchor has left for the loop.
  abbrev Anchored : Bytes → Option Bytes × Option MultisignatureState → Type 0
  Anchored first (none, none) = ⊥
  Anchored first (some l, none) = l ≡ first
  Anchored first (anchor, some s) = Genesis lib key first s

  replay_anchor-Anchored :
      (first : Bytes) (start : Option Bytes × Option MultisignatureState)
      → replay_anchor lib key first ≡ ok start
      → Anchored first start
  unfolding replay_anchor
  replay_anchor-Anchored first (none, none) h = ground arith
  replay_anchor-Anchored first (some l, none) h = ground arith
  replay_anchor-Anchored first (none, some s) h =
      validate_multisignature_genesis-Genesis lib key first s (ground arith)
  replay_anchor-Anchored first (some l, some s) h =
      validate_multisignature_genesis-Genesis lib key first s (ground arith)

  replay-Lineage :
      (first : Bytes) (rest : List Bytes) (start : Option Bytes × Option MultisignatureState)
      {s : MultisignatureState}
      → Anchored first start
      → replay_all lib key start.0 start.1 rest ≡ ok (some s)
      → Lineage (first ∷ rest) s
  replay-Lineage first rest (none, none) a h = absurd a
  replay-Lineage first rest (some l, none) {s} a h =
      subst (λ f. Lineage (f ∷ rest) s) a (replay_legacy-Lineage l rest h)
  replay-Lineage first rest (none, some t) a h =
      replay_all-Lineage none (first ∷ []) rest t (genesis a) h
  replay-Lineage first rest (some l, some t) a h =
      replay_all-Lineage (some l) (first ∷ []) rest t (genesis a) h

  -- A history that replays is a lineage of the state that is returned: a genesis, or a legacy
  -- record with an upgrade or a rotation, followed by ordinary updates, replacements and rotations,
  -- each accepted on the state before it; and the state records exactly the history.
  pub validate_multisignature_history-Lineage :
      (es : List Bytes) (s : MultisignatureState)
      → validate_multisignature_history lib key es ≡ ok s
      → Lineage es s × (s.history ≡ some es)
  unfolding validate_multisignature_history
  validate_multisignature_history-Lineage [] s h = ground arith
  validate_multisignature_history-Lineage (first ∷ rest) s h =
      succeeded (replay_anchor lib key first) (λ x y. ground arith)
        λ start begun. (
          replay-Lineage first rest start (replay_anchor-Anchored first start begun) (ground arith),
          ground arith,
        )
