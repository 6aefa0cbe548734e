-- ===== src/Tests/Services.antt =====
-- registry_service.py over a DHT that holds one envelope.
use decent_registry.Prelude.{
  ◌≡◌, refl, Option, none, some, Result, Done, ok, raise, key_error, provider_state_invalid,
}
use decent_registry.Cbor.{Bytes, Text}
use decent_registry.Validator.Providers.{validate_provider_get, get_legacy}
use decent_registry.Service.Builder.{OwnerKey}
use decent_registry.Service.{
  RegistryDht, check_withdrawal_of, withdrawal_candidate, replace_current, withdraw_provider,
}
use decent_registry.Service.Withdrawing.{Withdrawing, withdraw_provider-Withdrawing}
use decent_registry.Tests.Toy.{envelope}
use decent_registry.Tests.Providers.{object_hash}
use decent_registry.Tests.Validators.{shop, overwrite}

abbrev no_key : Text → Result OwnerKey
no_key path = raise key_error

abbrev shelf : RegistryDht (Option Bytes)
shelf = record {
  get_signed_provider_envelope = λ h quorum d. (d, ok d);
  put_signed_provider_record = λ h e d. (some e, ok tt);
  get_signed_provider_record = λ h quorum d. (d, ok none);
  put_signed_identity_record = λ h e d. (some e, ok tt);
  put_signed_identity_record_if_current = λ h e hash t d. (some e, ok tt);
  get_signed_identity_record = λ h quorum d. (d, ok none);
  get_identity_envelope = λ h quorum d. (d, ok d);
  get_identity_envelope_by_hash = λ h hash d. (d, ok d);
  confirm_identity_owner_key_rotation = λ h e d. (d, ok none);
}

withdraw : Option Bytes → Option Bytes → Option Bytes × Result Done
unfolding overwrite get_legacy validate_provider_get check_withdrawal_of withdrawal_candidate
    replace_current withdraw_provider
withdraw = withdraw_provider shop no_key shelf object_hash none none none

withdrawn_on_shelf :
    withdraw_provider shop no_key shelf object_hash none none none
      (some (envelope 20))
      (some (envelope 19))
    ≡ (some (envelope 20), ok tt)
unfolding withdraw
withdrawn_on_shelf = refl

withdraw_provider-Withdrawing_example :
    Withdrawing shop shelf object_hash
      (withdrawal_candidate shop no_key shelf object_hash none none none (some (envelope 20)))
      (some (envelope 19))
      (withdraw_provider shop no_key shelf object_hash none none none
        (some (envelope 20))
        (some (envelope 19)))
withdraw_provider-Withdrawing_example =
    withdraw_provider-Withdrawing shop shelf no_key object_hash none none none (some (envelope 20))
      (some (envelope 19))

-- A record that is withdrawn already is reported as invalid.
withdrawn_again :
    withdraw_provider shop no_key shelf object_hash none none none
      (some (envelope 20))
      (some (envelope 20))
    ≡ (some (envelope 20), raise (provider_state_invalid "current Provider Record is invalid"))
unfolding withdraw
withdrawn_again = refl
