-- ===== src/Verification/Replay/Incremental.antt =====
-- src/decent_registry/verification.py: the replay of a history and the validation of one update,
-- compared.
use decent_registry.Prelude.{
  not, ap, raise_if, value_error, ◌>>◌, succeeded, Option, none, some, List, [], ◌∷◌, ◌++◌, ◌≡◌,
  refl, arith, Result, ok, raise, ◌∙◌, ◌>>=◌, ◌≟◌, bytes_eq, history_eq,
}
use decent_registry.Cbor.{Bytes, Library}
use decent_registry.Encoding.Authorization.{record_kind_identity}
use decent_registry.Verification.Candidate.{MultisignatureState, Candidate, append_history}
use decent_registry.Verification.Transitions.{check_replayed, validate_owner_rotation_from_state}
use decent_registry.Verification.Transitions.Common.{IsStateOf}
use decent_registry.Verification.Replay.Lineage.{
  Extension, ordinary, replacement, rotation, Lineage, genesis, upgrade, rotated, extend,
  replay_step-Extension, validate_multisignature_history-Lineage,
}
use decent_registry.Verification.Replay.{
  replay_step, replay_all, replay_anchor, dispatch_rotation, validate_multisignature_history,
  validate_multisignature_update,
}

module _ (lib : Library) (key : Bytes) where
  check_replayed_self :
      (es : List Bytes) (s : MultisignatureState)
      → validate_multisignature_history lib key es ≡ ok s
      → check_replayed (validate_multisignature_history lib key) es s ≡ ok tt
  unfolding check_replayed
  check_replayed_self es s h = ground arith

  -- The replay that a rotation asks for adds no check where the history has been replayed.
  verified_rotation :
      (es : List Bytes) (s : MultisignatureState) (e : Bytes)
      → validate_multisignature_history lib key es ≡ ok s
      → s.history ≡ some es
      → validate_owner_rotation_from_state lib key e s
          (some (validate_multisignature_history lib key))
        ≡ validate_owner_rotation_from_state lib key e s none
  unfolding validate_owner_rotation_from_state
  verified_rotation es s e h k = ground (arith, check_replayed_self es s h)

  update-step :
      (es : List Bytes) (s : MultisignatureState) (e : Bytes) (anchor : Option Bytes)
      → validate_multisignature_history lib key es ≡ ok s
      → s.history ≡ some es
      → validate_multisignature_update lib key e (some s) none
        ≡ replay_step lib key anchor (some s) e
  unfolding validate_multisignature_update dispatch_rotation replay_step
  update-step es s e anchor h k = ground (arith, verified_rotation es s e h k)

  replay_all-append :
      (anchor : Option Bytes) (current : Option MultisignatureState) (es : List Bytes) (e : Bytes)
      (s : MultisignatureState)
      → replay_all lib key anchor current es ≡ ok (some s)
      → replay_all lib key anchor current (es ++ e ∷ [])
        ≡ (replay_step lib key anchor (some s) e >>= λ t. ok (some t))
  unfolding replay_all
  replay_all-append anchor current [] e s h = let here : current ≡ some s = cc in rw here
  replay_all-append anchor current (f ∷ es) e s h =
      succeeded (replay_step lib key anchor current f) (λ x y. ground arith)
        λ t step. rw step (replay_all-append anchor (some t) es e s (ground arith))

  IsStateOf-identity :
      {c : Candidate} {history : Option (List Bytes)} {s : MultisignatureState} (es : List Bytes)
      → IsStateOf lib key c history s
      → s.history ≡ some es
      → s.record_kind ≡ record_kind_identity
  IsStateOf-identity es o h = ground (arith, o.recorded, o.record_kind)

  Lineage-identity :
      (es : List Bytes) (s : MultisignatureState) {fs : List Bytes}
      → Lineage lib key fs s
      → s.history ≡ some es
      → s.record_kind ≡ record_kind_identity
  Lineage-identity es s (genesis g) h = IsStateOf-identity es g.state h
  Lineage-identity es s (upgrade g) h = IsStateOf-identity es g.state h
  Lineage-identity es s (rotated g) h = IsStateOf-identity es g.state h
  Lineage-identity es s (extend l (ordinary o) p) h = IsStateOf-identity es o.state h
  Lineage-identity es s (extend l (replacement o) p) h = IsStateOf-identity es o.state h
  Lineage-identity es s (extend l (rotation o) p) h = IsStateOf-identity es o.state h

  -- The state records the envelope that led to it behind the history of its predecessor.
  Extension-history :
      (es : List Bytes) (e : Bytes) (s s' : MultisignatureState)
      → s.history ≡ some es
      → s.record_kind ≡ record_kind_identity
      → Extension lib key e s s'
      → s'.history ≡ some (es ++ e ∷ [])
  unfolding append_history
  Extension-history es e s s' h k (ordinary o) =
      ground (arith, o.state.recorded, o.follows.record_kind)
  Extension-history es e s s' h k (replacement o) =
      ground (arith, o.state.recorded, o.follows.record_kind)
  Extension-history es e s s' h k (rotation o) =
      ground (arith, o.state.recorded, o.record_kind, o.complete)

  -- The last test of the replay finds nothing.
  step-recorded :
      (es : List Bytes) (e : Bytes) (s : MultisignatureState) (anchor : Option Bytes)
      → s.history ≡ some es
      → s.record_kind ≡ record_kind_identity
      → (replay_step lib key anchor (some s) e >>= λ t.
          raise_if
            (not (t.history ≟ some (es ++ e ∷ [])))
            (value_error "predecessor history is incomplete or inconsistent")
          >> ok t)
        ≡ replay_step lib key anchor (some s) e
  step-recorded es e s anchor h k = go (replay_step lib key anchor (some s) e) refl
    where
      go :
          (r : Result MultisignatureState)
          → replay_step lib key anchor (some s) e ≡ r
          → (r >>= λ t.
              raise_if
                (not (t.history ≟ some (es ++ e ∷ [])))
                (value_error "predecessor history is incomplete or inconsistent")
              >> ok t)
            ≡ r
      go (raise x) step = refl
      go (ok t) step =
          rw (Extension-history es e s t h k (replay_step-Extension lib key anchor s t e step))
            (ground arith)

  -- For a history that replays to a state: to replay it with one more envelope at its end is to
  -- validate the envelope as an update of the state, with the same state or the same exception as
  -- the result.
  pub validate_multisignature_history-append :
      (es : List Bytes) (s : MultisignatureState) (e : Bytes)
      → validate_multisignature_history lib key es ≡ ok s
      → validate_multisignature_history lib key (es ++ e ∷ [])
        ≡ validate_multisignature_update lib key e (some s) none
  unfolding validate_multisignature_history
  validate_multisignature_history-append [] s e h = cc
  validate_multisignature_history-append (first ∷ rest) s e h =
      let (lineage, recorded) =
        validate_multisignature_history-Lineage lib key (first ∷ rest) s h in
      let identity = Lineage-identity (first ∷ rest) s lineage recorded in
      succeeded (replay_anchor lib key first) (λ x y. ground arith)
        λ start begun.
          succeeded (replay_all lib key start.0 start.1 rest) (λ x y. ground arith)
            λ end ran.
              let there : end ≡ some s = ground arith in
              rw
                (
                  begun,
                  replay_all-append start.0 start.1 rest e s (ran ∙ ap ok there),
                  update-step (first ∷ rest) s e start.0 h recorded,
                )
                (ground (arith, step-recorded (first ∷ rest) e s start.0 recorded identity))
