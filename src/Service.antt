-- ===== src/Service.antt =====
-- src/decent_registry/registry_service.py: `RegistryService` over a DHT. An operation takes the DHT's
-- state and returns the state that it leaves with its result or exception.
pub mod Builder
pub mod Withdrawing
use decent_registry.Prelude.{
  ℕ, Bool, true, false, not, Option, none, some, List, [], ◌∷◌, ◌==◌, ◌||◌, length, Result, Done,
  Error, ok, raise, value_error, type_error, provider_state_unavailable, provider_state_invalid,
  provider_state_conflict, precondition_failed, already_withdrawn, if◌then◌else◌, ◌>>=◌, ◌>>◌,
  raise_if, or_raise, rethrow,
}
use decent_registry.Cbor.{Bytes, Text, Library}
use decent_registry.Provider.Chars.{from_hex}
use decent_registry.Validator.Common.{
  ProviderGet, gone, ProviderOverwrite, tombstone, IdentityGet, IdentityRecordResult, to_hex,
}
use decent_registry.Validator.Transition.{is_missing}
use decent_registry.Validator.Providers.{validate_provider_get, validate_provider_overwrite}
use decent_registry.Service.Builder.{
  OwnerKey, build_provider_envelope, build_provider_withdrawal_envelope, build_identity_envelope,
}

-- `RegistryDHT`, on states `D`. A number is a quorum, except the time at which the conditional put
-- expires.
pub record RegistryDht (D : Type 0) : Type 0 where
  pub get_signed_provider_envelope : Text → ℕ → D → D × Result (Option Bytes)
  pub put_signed_provider_record : Text → Bytes → D → D × Result Done
  pub get_signed_provider_record : Text → ℕ → D → D × Result (Option ProviderGet)
  pub put_signed_identity_record : Text → Bytes → D → D × Result Done
  pub put_signed_identity_record_if_current : Text → Bytes → Bytes → ℕ → D → D × Result Done
  pub get_signed_identity_record : Text → ℕ → D → D × Result (Option IdentityGet)
  pub get_identity_envelope : Text → ℕ → D → D × Result (Option Bytes)
  pub get_identity_envelope_by_hash : Text → Bytes → D → D × Result (Option Bytes)
  pub confirm_identity_owner_key_rotation :
      Text → Bytes → D → D × Result (Option IdentityRecordResult)

-- The arguments of a provider put that signs.
pub record ProviderSigning : Type 0 where
  pub provider_urls : Option (List Text)
  pub owner_privkey_pem_path : Option Text
  pub seq : Option ℕ
  pub endpoints : Option (List Text)

-- What is computed before the DHT is called, and the call.
abbrev pub first : {D A B : Type 0} → Result A → (A → D → D × Result B) → D → D × Result B
first (raise e) call d = (d, raise e)
first (ok a) call d = call a d

-- `isinstance(current, ProviderWithdrawnResult)`
abbrev pub is_gone : ProviderGet → Bool
is_gone (gone r) = true
is_gone _ = false

abbrev pub is_tombstone : ProviderOverwrite → Bool
is_tombstone (tombstone r) = true
is_tombstone _ = false

-- `except ProviderStateConflict: raise`, and the other exceptions.
abbrev pub read_error : Error → Error
read_error provider_state_conflict = provider_state_conflict
read_error _ = provider_state_unavailable "could not read current Provider Record before withdrawal"

-- `except ProviderAlreadyWithdrawn: raise`, and the other exceptions.
abbrev pub overwrite_error : Error → Error
overwrite_error already_withdrawn = already_withdrawn
overwrite_error _ = value_error "withdrawal envelope is invalid for the selected Provider state"

abbrev pub overwrite_checked : Result ProviderOverwrite → Result ProviderOverwrite
overwrite_checked (ok r) = ok r
overwrite_checked (raise e) = raise (overwrite_error e)

-- `bytes.fromhex(...)`
abbrev pub key_of_hash : Text → Result Bytes
key_of_hash object_hash =
    or_raise (from_hex object_hash) (value_error "non-hexadecimal number found")

-- The text "Ed25519".
abbrev pub ed25519 : Text
ed25519 = 69 ∷ 100 ∷ 50 ∷ 53 ∷ 53 ∷ 49 ∷ 57 ∷ []

abbrev pub signing_missing : Error
signing_missing =
    type_error
      "legacy provider put requires provider_urls, owner_privkey_pem_path, seq, and endpoints"

abbrev pub given {ℓ} : {A : Type ℓ} → Option A → Bool
given o = not (is_missing o)

module _ (lib : Library) where
  -- `_derive_identity_object_hash_from_owner_name_hex`
  unfoldable pub derive_identity_object_hash : Text → Result Text
  derive_identity_object_hash owner_name_hex = do
    name ← or_raise (from_hex owner_name_hex) (value_error "owner_name must be valid hex")
    ok (to_hex (lib.sha256 name))

  -- The checks of `withdraw_provider` on the record that it has read.
  unfoldable pub check_withdrawal_of : Text → Bytes → Bytes → Result Done
  check_withdrawal_of object_hash candidate current_envelope = do
    current ←
        rethrow
          (key_of_hash object_hash >>= λ key. validate_provider_get lib key current_envelope none)
          (provider_state_invalid "current Provider Record is invalid")
    raise_if (is_gone current) already_withdrawn
    proposed ← overwrite_checked (
        key_of_hash object_hash >>= λ key.
        validate_provider_overwrite lib key candidate (some current_envelope))
    raise_if (not (is_tombstone proposed))
        (value_error "withdrawal envelope does not contain a Provider tombstone")

module _ (lib : Library) (load : Text → Result OwnerKey) {D : Type 0} (dht : RegistryDht D) where
  open dht use {
    get_signed_provider_envelope, put_signed_provider_record, get_signed_provider_record,
    put_signed_identity_record, put_signed_identity_record_if_current, get_signed_identity_record,
    get_identity_envelope, get_identity_envelope_by_hash, confirm_identity_owner_key_rotation,
  }

  unfoldable pub put_provider_envelope : Text → Bytes → D → D × Result Done
  put_provider_envelope object_hash envelope_cbor =
      put_signed_provider_record object_hash envelope_cbor

  unfoldable pub sign_provider : Text → ProviderSigning → Text → Result Bytes
  sign_provider object_hash a alg = do
    urls ← or_raise a.provider_urls signing_missing
    path ← or_raise a.owner_privkey_pem_path signing_missing
    seq ← or_raise a.seq signing_missing
    endpoints ← or_raise a.endpoints signing_missing
    build_provider_envelope lib load object_hash urls path seq endpoints alg

  unfoldable pub put_provider : Text → ProviderSigning → Text → Option Bytes → D → D × Result Done
  unfolding put_provider_envelope sign_provider
  put_provider object_hash a alg (some envelope_cbor) =
      first
        (raise_if
          (given a.provider_urls
            || given a.owner_privkey_pem_path
            || given a.seq
            || given a.endpoints)
          (value_error "envelope_cbor cannot be combined with legacy provider signing arguments"))
        λ checked. put_provider_envelope object_hash envelope_cbor
  put_provider object_hash a alg none =
      first (sign_provider object_hash a alg) (put_signed_provider_record object_hash)

  -- The envelope that `withdraw_provider` proposes.
  unfoldable pub withdrawal_candidate :
      Text → Option Text → Option ℕ → Option Text → Option Bytes → Result Bytes
  withdrawal_candidate object_hash path seq replacement (some envelope_cbor) = do
    raise_if (given path || given seq || given replacement)
        (value_error "finalized withdrawal cannot be combined with legacy signing arguments")
    ok envelope_cbor
  withdrawal_candidate object_hash path seq replacement none = do
    p ← or_raise path (type_error "legacy withdrawal requires owner_privkey_pem_path and seq")
    n ← or_raise seq (type_error "legacy withdrawal requires owner_privkey_pem_path and seq")
    build_provider_withdrawal_envelope lib load object_hash p n replacement ed25519

  -- What follows the read of the current record.
  unfoldable pub replace_current : Text → Bytes → D × Result (Option Bytes) → D × Result Done
  unfolding check_withdrawal_of
  replace_current object_hash candidate (d, raise e) = (d, raise (read_error e))
  replace_current object_hash candidate (d, ok none) = (
    d,
    raise
        (provider_state_unavailable "no valid active Provider Record was available for withdrawal"),
  )
  replace_current object_hash candidate (d, ok (some current)) =
      first (check_withdrawal_of lib object_hash candidate current)
        (λ checked. put_signed_provider_record object_hash candidate) d

  unfoldable pub withdraw_provider :
      Text → Option Text → Option ℕ → Option Text → Option Bytes → D → D × Result Done
  unfolding withdrawal_candidate replace_current
  withdraw_provider object_hash path seq replacement envelope_cbor =
      first (withdrawal_candidate object_hash path seq replacement envelope_cbor) λ candidate d.
        replace_current object_hash candidate (get_signed_provider_envelope object_hash 0 d)

  unfoldable pub get_provider : Text → ℕ → D → D × Result (Option ProviderGet)
  get_provider object_hash quorum = get_signed_provider_record object_hash quorum

  unfoldable pub put_identity_envelope : Text → Bytes → D → D × Result Done
  unfolding derive_identity_object_hash
  put_identity_envelope owner_name_hex envelope_cbor =
      first (derive_identity_object_hash lib owner_name_hex)
        λ key. put_signed_identity_record key envelope_cbor

  -- The lookup key and the envelope of an identity put that signs.
  unfoldable pub sign_identity : Text → Option Text → Option ℕ → Result (Text × Bytes)
  sign_identity owner_name_hex path seq = do
    p ← or_raise path (type_error "legacy identity put requires owner_privkey_pem_path and seq")
    n ← or_raise seq (type_error "legacy identity put requires owner_privkey_pem_path and seq")
    key ← derive_identity_object_hash lib owner_name_hex
    envelope ← build_identity_envelope lib load owner_name_hex p n
    ok (key, envelope)

  unfoldable pub put_identity : Text → Option Text → Option ℕ → Option Bytes → D → D × Result Done
  unfolding put_identity_envelope sign_identity
  put_identity owner_name_hex path seq (some envelope_cbor) =
      first
        (raise_if (given path || given seq)
          (value_error "envelope_cbor cannot be combined with legacy identity signing arguments"))
        λ checked. put_identity_envelope owner_name_hex envelope_cbor
  put_identity owner_name_hex path seq none =
      first (sign_identity owner_name_hex path seq)
        λ signed. put_signed_identity_record signed.0 signed.1

  unfoldable pub expected_head : Text → Option Bytes → Result (Text × Bytes)
  expected_head owner_name_hex none =
      raise (precondition_failed "DHT reads cannot prove that the Identity key is absent")
  expected_head owner_name_hex (some hash) = do
    raise_if (not (length hash == 32)) (value_error "expected_state_hash must be exactly 32 bytes")
    key ← derive_identity_object_hash lib owner_name_hex
    ok (key, hash)

  unfoldable pub put_identity_envelope_if_current :
      Text → Bytes → Option Bytes → ℕ → D → D × Result Done
  unfolding expected_head
  put_identity_envelope_if_current owner_name_hex envelope_cbor expected expires_at =
      first (expected_head owner_name_hex expected)
        λ head. put_signed_identity_record_if_current head.0 envelope_cbor head.1 expires_at

  unfoldable pub get_identity : Text → ℕ → D → D × Result (Option IdentityGet)
  get_identity owner_name_hex quorum =
      first (derive_identity_object_hash lib owner_name_hex)
        λ key. get_signed_identity_record key quorum

  unfoldable pub get_current_identity_envelope : Text → ℕ → D → D × Result (Option Bytes)
  get_current_identity_envelope owner_name_hex quorum =
      first (derive_identity_object_hash lib owner_name_hex) λ key. get_identity_envelope key quorum

  unfoldable pub get_accepted_identity_envelope : Text → Bytes → D → D × Result (Option Bytes)
  get_accepted_identity_envelope owner_name_hex state_hash =
      first (derive_identity_object_hash lib owner_name_hex)
        λ key. get_identity_envelope_by_hash key state_hash

  unfoldable pub confirm_rotation : Text → Bytes → D → D × Result (Option IdentityRecordResult)
  confirm_rotation owner_name_hex expected_envelope_cbor =
      confirm_identity_owner_key_rotation owner_name_hex expected_envelope_cbor
