-- ===== src/Service/Withdrawing.antt =====
-- src/decent_registry/registry_service.py: the outcomes of `withdraw_provider`.
use decent_registry.Prelude.{
  ℕ, true, Option, none, some, ◌≡◌, refl, arith, Result, Done, Error, ok, raise,
  provider_state_unavailable, rethrow, succeeded,
}
use decent_registry.Cbor.{Bytes, Text, Library}
use decent_registry.Validator.Common.{
  ProviderGet, ProviderOverwrite, ProviderWithdrawnResult, written, tombstone,
}
use decent_registry.Validator.Providers.{validate_provider_get, validate_provider_overwrite}
use decent_registry.Validator.Providers.Replaced.{IsWithdrawal}
use decent_registry.Validator.Providers.Withdrawals.{validate_provider_overwrite-IsWithdrawal}
use decent_registry.Service.Builder.{OwnerKey}
use decent_registry.Service.{
  RegistryDht, first, key_of_hash, overwrite_checked, read_error, is_tombstone, check_withdrawal_of,
  withdrawal_candidate, replace_current, withdraw_provider,
}

module _ (lib : Library) where
  -- What the checks have found out about a candidate over the current record.
  pub record Replaces (object_hash : Text) (candidate current : Bytes) : Type 0 where
    pub key : Bytes
    pub shown : ProviderGet
    pub result : ProviderWithdrawnResult
    pub known_key : key_of_hash object_hash ≡ ok key
    pub readable : validate_provider_get lib key current none ≡ ok shown
    pub accepted :
        validate_provider_overwrite lib key candidate (some current) ≡ ok (tombstone result)
    pub replaces : IsWithdrawal lib key candidate (some current) result

  is_tombstone-eq :
      (o : ProviderOverwrite)
      → is_tombstone o ≡ true
      → (r : ProviderWithdrawnResult) × (o ≡ tombstone r)
  is_tombstone-eq (tombstone r) h = (r, refl)
  is_tombstone-eq (written r) h = cc

  rethrow-ok : {A : Type 0} (m : Result A) (e : Error) (a : A) → rethrow m e ≡ ok a → m ≡ ok a
  rethrow-ok (ok b) e a h = h
  rethrow-ok (raise x) e a h = cc

  overwrite_checked-ok :
      (m : Result ProviderOverwrite) (a : ProviderOverwrite) → overwrite_checked m ≡ ok a → m ≡ ok a
  overwrite_checked-ok (ok b) a h = h
  overwrite_checked-ok (raise x) a h = cc

  check_withdrawal_of-Replaces :
      (object_hash : Text) (candidate current : Bytes)
      → check_withdrawal_of lib object_hash candidate current ≡ ok tt
      → Replaces object_hash candidate current
  unfolding check_withdrawal_of
  check_withdrawal_of-Replaces object_hash candidate current h =
      succeeded (key_of_hash object_hash) (λ x y. ground arith)
        λ key known.
          succeeded (validate_provider_get lib key current none) (λ x y. ground arith)
            λ shown readable.
              succeeded (validate_provider_overwrite lib key candidate (some current))
                (λ x y. ground arith)
                λ o accepted.
                  let (r, is_r) = is_tombstone-eq o (ground arith) in
                  let over : validate_provider_overwrite lib key candidate (some current)
                      ≡ ok (tombstone r) =
                    rw (← is_r) accepted in
                  record {
                    key = key;
                    shown = shown;
                    result = r;
                    known_key = known;
                    readable = readable;
                    accepted = over;
                    replaces =
                        validate_provider_overwrite-IsWithdrawal lib key candidate (some current) r
                          over;
                  }

module _ (lib : Library) {D : Type 0} (dht : RegistryDht D) where
  open dht use {get_signed_provider_envelope, put_signed_provider_record}

  -- How a withdrawal of the candidate may end, given what the read answered.
  pub data Withdrawing (object_hash : Text) (candidate : Result Bytes) (d : D)
      : D × Result Done → Type 0 where
    unsigned : (e : Error) → candidate ≡ raise e → Withdrawing object_hash candidate d (d, raise e)
    refused :
        (e : Error)
        → Withdrawing object_hash candidate d
            ((get_signed_provider_envelope object_hash 0 d).0, raise e)
    published :
        (proposed current : Bytes)
        → candidate ≡ ok proposed
        → (get_signed_provider_envelope object_hash 0 d).1 ≡ ok (some current)
        → Replaces lib object_hash proposed current
        → Withdrawing object_hash candidate d (
            put_signed_provider_record object_hash proposed
              (get_signed_provider_envelope object_hash 0 d).0)

  module _ (load : Text → Result OwnerKey) (object_hash : Text) where
    checked-Withdrawing :
        (candidate : Result Bytes) (d : D) (proposed current : Bytes) (checked : Result Done)
        → candidate ≡ ok proposed
        → (get_signed_provider_envelope object_hash 0 d).1 ≡ ok (some current)
        → check_withdrawal_of lib object_hash proposed current ≡ checked
        → Withdrawing object_hash candidate d (
            first checked
              (λ c. put_signed_provider_record object_hash proposed)
              (get_signed_provider_envelope object_hash 0 d).0)
    checked-Withdrawing candidate d proposed current (raise e) is_proposed read h = refused e
    checked-Withdrawing candidate d proposed current (ok tt) is_proposed read h =
        published proposed current is_proposed read
          (check_withdrawal_of-Replaces lib object_hash proposed current h)

    answered-Withdrawing :
        (candidate : Result Bytes) (d : D) (proposed : Bytes) (answer : Result (Option Bytes))
        → candidate ≡ ok proposed
        → (get_signed_provider_envelope object_hash 0 d).1 ≡ answer
        → Withdrawing object_hash candidate d (
            replace_current lib load dht object_hash proposed
              ((get_signed_provider_envelope object_hash 0 d).0, answer))
    unfolding replace_current
    answered-Withdrawing candidate d proposed (raise e) is_proposed read = refused (read_error e)
    answered-Withdrawing candidate d proposed (ok none) is_proposed read =
        refused (
          provider_state_unavailable "no valid active Provider Record was available for withdrawal")
    answered-Withdrawing candidate d proposed (ok (some current)) is_proposed read =
        checked-Withdrawing candidate d proposed current
          (check_withdrawal_of lib object_hash proposed current) is_proposed read refl

    started-Withdrawing :
        (candidate : Result Bytes) (d : D)
        → Withdrawing object_hash candidate d (
            first candidate
              (λ proposed d'.
                replace_current lib load dht object_hash proposed
                  (get_signed_provider_envelope object_hash 0 d'))
              d)
    started-Withdrawing (raise e) d = unsigned e refl
    started-Withdrawing (ok proposed) d =
        answered-Withdrawing (ok proposed) d proposed
          (get_signed_provider_envelope object_hash 0 d).1 refl refl

    -- A withdrawal ends in one of three ways. The envelope cannot be built from the arguments, and
    -- the DHT is not called. Or the current record is read and nothing is written, with an
    -- exception. Or the envelope given or built is what is written at the object's key, with the
    -- DHT's answer, once the read has given a valid record and the validator has accepted the
    -- envelope as a withdrawal of it: of a record that is active, of the same owner and with a
    -- smaller sequence number.
    pub withdraw_provider-Withdrawing :
        (path : Option Text) (seq : Option ℕ) (replacement : Option Text)
        (envelope_cbor : Option Bytes) (d : D)
        → Withdrawing object_hash
            (withdrawal_candidate lib load dht object_hash path seq replacement envelope_cbor)
            d
            (withdraw_provider lib load dht object_hash path seq replacement envelope_cbor d)
    unfolding withdraw_provider
    withdraw_provider-Withdrawing path seq replacement envelope_cbor d =
        started-Withdrawing
          (withdrawal_candidate lib load dht object_hash path seq replacement envelope_cbor) d
