-- ===== src/Verification/Legacy/Binding.antt =====
-- src/decent_registry/verification.py: the owner and the sequence number of legacy updates.
use decent_registry.Prelude.{
  ℕ, ◌<◌, Bool, true, false, Option, none, some, ◌≡◌, ap, sym, ◌∙◌, >>=-eq-ok, refl, arith,
  if◌then◌else◌, Result, ok, ◌>>=◌, succeeded, present, ◌≟◌, bytes_eq, ≟-true,
}
use decent_registry.Prelude.Dictionary.{lookup, insert, lookup-insert}
use decent_registry.Cbor.{Bytes, Library}
use decent_registry.Encoding.Update.{SignedUpdate, is_legacy, decode_canonical_signed_update}
use decent_registry.Verification.Candidate.{
  verify_ed25519_signature, extract_identity_and_keys, extract_provider_and_keys,
}
use decent_registry.Verification.Legacy.{
  SeqStateEntry, SeqState, check_prev, bound_owner, enforce_seq_and_owner_binding,
  decode_signed_update_strict, accept_update, validate_provider_update, validate_identity_update,
  succeeds, validate_signed_update_overwrite,
}

-- What the entry of a record key allows: any update if there is none, and a larger sequence number
-- of the same owner if there is one.
abbrev pub Allows : Option SeqStateEntry → ℕ → Bytes → Type 0
Allows none seq owner = Unit {0}
Allows (some prev) seq owner = (prev.seq < seq) × (owner ≡ prev.owner_public_key)

-- The entry that is recorded, if one is.
abbrev pub entry_after : Bool → Bytes → ℕ → Bytes → SeqState → Bytes → Option SeqStateEntry
entry_after update_state record_key seq owner before j =
    if update_state
    then (if j ≟ record_key
        then some (record { owner_public_key = owner; seq = seq })
        else lookup j before)
    else lookup j before

check_prev_sound :
    (prev : Option SeqStateEntry) (seq : ℕ) (owner : Bytes)
    → check_prev prev seq owner ≡ ok tt
    → Allows prev seq owner × (bound_owner prev owner ≡ owner)
unfolding check_prev
check_prev_sound none seq owner h = (tt, refl)
check_prev_sound (some prev) seq owner h = ground arith

recorded :
    (update_state : Bool) (prev : Option SeqStateEntry) (seq : ℕ) (owner record_key : Bytes)
    (before after : SeqState) (j : Bytes)
    → bound_owner prev owner ≡ owner
    → ok after ≡ (
        if update_state
        then ok (
            insert record_key
              (record { owner_public_key = bound_owner prev owner; seq = seq })
              before)
        else ok before)
    → lookup j after ≡ entry_after update_state record_key seq owner before j
recorded true prev seq owner record_key before after j bound h =
    let e : after ≡ insert record_key (record { owner_public_key = owner; seq = seq }) before =
      cc in
    rw e (lookup-insert j record_key (record { owner_public_key = owner; seq = seq }) before)
recorded false prev seq owner record_key before after j bound h = ap (lookup j) cc

enforce_sound :
    (record_key owner : Bytes) (seq : ℕ) (before after : SeqState) (update_state : Bool)
    → enforce_seq_and_owner_binding record_key seq owner before update_state ≡ ok after
    → Allows (lookup record_key before) seq owner
      × ((j : Bytes) → lookup j after ≡ entry_after update_state record_key seq owner before j)
unfolding enforce_seq_and_owner_binding
enforce_sound record_key owner seq before after update_state h =
    succeeded (check_prev (lookup record_key before) seq owner) (λ e x. ground arith)
      λ done eq.
        let (allowed, bound) = check_prev_sound (lookup record_key before) seq owner eq in
        (
          allowed,
          λ j.
              recorded update_state (lookup record_key before) seq owner record_key before after j
                bound (ground arith),
        )

module _ (lib : Library) where
  -- The two kinds of record; a legacy update is taken for an identity if it has the keys of one.
  abbrev pub extract_record_keys : SignedUpdate → Result (Bytes × Bytes)
  extract_record_keys u =
      if succeeds (extract_identity_and_keys lib u.record_fields)
      then extract_identity_and_keys lib u.record_fields
      else extract_provider_and_keys lib u.record_fields u.payload

  -- A legacy update of the record key, signed by its owner, that the entry of the key allows.
  pub record IsAcceptable (record_key update signature : Bytes) (before : SeqState)
      (u : SignedUpdate) (owner : Bytes) : Type 0 where
    pub canonical : decode_canonical_signed_update lib update ≡ ok u
    pub legacy : is_legacy u.authorization ≡ true
    pub keys : extract_record_keys u ≡ ok (record_key, owner)
    pub signed : lib.verify owner (lib.sha256 update) signature ≡ some true
    pub allowed : Allows (lookup record_key before) u.seq owner

  decode_strict_sound :
      (update : Bytes) (u : SignedUpdate)
      → decode_signed_update_strict lib update ≡ ok u
      → (decode_canonical_signed_update lib update ≡ ok u) × (is_legacy u.authorization ≡ true)
  unfolding decode_signed_update_strict
  decode_strict_sound update u h =
      succeeded (decode_canonical_signed_update lib update) (λ e x. ground arith)
        λ v eq. ground arith

  accept_sound :
      (record_key update signature : Bytes) (before after : SeqState) (update_state : Bool)
      (u v : SignedUpdate) (key owner : Bytes)
      → accept_update lib record_key update signature before update_state u (key, owner)
        ≡ ok (v, after)
      → (v ≡ u)
        × (key ≡ record_key)
        × (lib.verify owner (lib.sha256 update) signature ≡ some true)
        × Allows (lookup record_key before) u.seq owner
        × ((j : Bytes) → lookup j after ≡ entry_after update_state record_key u.seq owner before j)
  unfolding accept_update verify_ed25519_signature
  accept_sound record_key update signature before after update_state u v key owner h =
      present (lib.verify owner (lib.sha256 update) signature) (λ e. ground arith)
        λ valid signed.
          succeeded (enforce_seq_and_owner_binding record_key u.seq owner before update_state)
            (λ e x. ground arith)
            λ after' eq.
              let (allowed, entries) =
                enforce_sound record_key owner u.seq before after' update_state eq in
              let same : after' ≡ after = ground arith in
              (
                ground arith,
                ≟-true key record_key (ground arith),
                ground arith,
                allowed,
                rw (← same) entries,
              )

  both_sound :
      (record_key update signature : Bytes) (before after : SeqState) (update_state : Bool)
      (u v : SignedUpdate) (keys : Bytes × Bytes)
      → decode_signed_update_strict lib update ≡ ok u
      → extract_record_keys u ≡ ok keys
      → accept_update lib record_key update signature before update_state u keys ≡ ok (v, after)
      → (owner : Bytes) × IsAcceptable record_key update signature before v owner
        × ((j : Bytes) → lookup j after ≡ entry_after update_state record_key v.seq owner before j)
  both_sound record_key update signature before after update_state u v (key, owner) decoded
        extracted h =
      let (same, same_key, signed, allowed, entries) =
        accept_sound record_key update signature before after update_state u v key owner h in
      let (canonical, legacy) = decode_strict_sound update u decoded in
      rw same (
        owner,
        record {
          canonical = canonical;
          legacy = legacy;
          keys = rw (← same_key) extracted;
          signed = signed;
          allowed = allowed;
        },
        entries,
      )

  -- The result of the three validators, for an update that decodes.
  after_decode :
      (record_key update signature : Bytes) (before : SeqState) (update_state : Bool)
      (u : SignedUpdate)
      → decode_signed_update_strict lib update ≡ ok u
      → validate_signed_update_overwrite lib record_key update signature before update_state ≡ (
          extract_record_keys u
          >>= accept_update lib record_key update signature before update_state u)
  unfolding validate_signed_update_overwrite validate_identity_update validate_provider_update
  after_decode record_key update signature before update_state u decoded = ground arith

  -- An update that `validate_signed_update_overwrite` accepts is canonical, legacy, of the record key
  -- and signed by its owner; the entry of the key is absent, or has a smaller sequence number and the
  -- same owner. With `update_state` its entry becomes the owner and the new number; no other entry
  -- changes, and without the flag none does.
  pub validate_signed_update_overwrite-IsAcceptable :
      (record_key update signature : Bytes) (before after : SeqState) (update_state : Bool)
      (u : SignedUpdate)
      → validate_signed_update_overwrite lib record_key update signature before update_state
        ≡ ok (u, after)
      → (owner : Bytes) × IsAcceptable record_key update signature before u owner
        × ((j : Bytes) → lookup j after ≡ entry_after update_state record_key u.seq owner before j)
  unfolding validate_signed_update_overwrite
  validate_signed_update_overwrite-IsAcceptable record_key update signature before after
        update_state v h =
      succeeded (decode_signed_update_strict lib update) (λ e x. ground arith)
        λ u decoded.
          let (keys, extracted, rest) =
            >>=-eq-ok (extract_record_keys u) _
              (sym (after_decode record_key update signature before update_state u decoded) ∙ h) in
          both_sound record_key update signature before after update_state u v keys decoded
            extracted rest
