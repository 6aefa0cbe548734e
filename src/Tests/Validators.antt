-- ===== src/Tests/Validators.antt =====
-- record_validator.py on small data.
use decent_registry.Prelude.{
  ℕ, zero, true, false, Option, none, some, List, [], ◌∷◌, ◌≡◌, ◌≢◌, refl, Result, ok, replicate,
  ◌==◌, if◌then◌else◌, bytes_eq, texts_eq, optional_eq, pairs_eq, proofs_eq,
}
use decent_registry.Prelude.Dictionary
use decent_registry.Prelude.Sorting.{bytes_le, sort}
use decent_registry.Cbor.{Bytes, Library, Value, Entries, entry, end, int, bytes}
use decent_registry.Provider.Chars.{
  hex_digit, one_of, unreserved, sub_delimiter, pchar, uri_allowed, partition, bad_percent_escape,
  object_hash_shape, from_hex,
}
use decent_registry.Provider.Uri.{is_scheme, validate_provider_uri}
use decent_registry.Provider.Payload.{
  ProviderWithdrawnPayloadV2, withdrawn, validate_endpoints, normalize_sorted_provider_urls,
  validate_object_hash, same_hash, check_replacement, decode_replacement, decode_withdrawn,
  decode_active, decode_provider_payload_dict,
}
use decent_registry.Encoding.Authorization.{
  Authorization, require_uint, validate_signer_entries, validate_authorization_map,
}
use decent_registry.Encoding.Update.{
  SignedUpdate, update_value, is_bytes, check_32_bytes, validate_uint_keys,
  validate_record_kind_binding, is_canonical_cbor, validate_decoded_signed_update,
  decode_canonical_signed_update, decode_multisignature_signed_update,
}
use decent_registry.Envelope.{
  MultisignatureEnvelope, envelope_value, legacy_envelope_value, validate_proofs,
  decode_signed_envelope, decode_multisignature_envelope,
}
use decent_registry.Verification.Candidate.{
  MultisignatureState, verify_ed25519_signature, extract_identity_and_keys,
  extract_provider_and_keys,
}
use decent_registry.Verification.Legacy.{
  check_prev, enforce_seq_and_owner_binding, decode_signed_update_strict, accept_update,
  validate_identity_update, validate_provider_update, validate_signed_update_overwrite,
}
use decent_registry.Verification.Replay.Lineage.{Lineage}
use decent_registry.Verification.Replay.Invariants.{IsSuccessor}
use decent_registry.Validator.Common.{
  ProviderWithdrawnResult, ProviderOverwrite, tombstone, IdentityRecordResult, to_hex, python_bytes,
  field_bytes, last_of, require_history_ending_at, is_multisignature_envelope,
  extract_prev_seq_state,
}
use decent_registry.Validator.Transition.{
  candidate_payload, existing_state, predecessor_of, check_withdrawal,
  validate_multisignature_transition,
}
use decent_registry.Validator.Accepted.{
  validate_multisignature_transition-IsSuccessor, validate_multisignature_transition-legacy,
}
use decent_registry.Validator.Providers.{
  withdraw_legacy, legacy_overwrite, validate_provider_overwrite,
}
use decent_registry.Validator.Providers.Replaced.{IsWithdrawal}
use decent_registry.Validator.Providers.Withdrawals.{validate_provider_overwrite-IsWithdrawal}
use decent_registry.Tests.Toy.{
  toy, key, key_a, sign, signers, two_proofs, name, envelope, toy_sha256,
}
use decent_registry.Tests.Lineages.{replay, genesis, updated}
use decent_registry.Tests.Providers.{object_hash, replacement, payload, withdrawal}

transition : Bytes → Option Bytes → Option (List Bytes) → Result MultisignatureState
unfolding replay is_multisignature_envelope last_of require_history_ending_at candidate_payload
    existing_state predecessor_of check_withdrawal validate_multisignature_transition
transition = validate_multisignature_transition toy key

second_over_first :
    validate_multisignature_transition toy key
      (envelope 2)
      (some (envelope 1))
      (some (envelope 1 ∷ []))
    ≡ ok updated
unfolding transition
second_over_first = refl

first_is_multisignature : is_multisignature_envelope toy (envelope 1) ≡ true
unfolding is_multisignature_envelope
first_is_multisignature = refl

validate_multisignature_transition-IsSuccessor_example :
    (s : MultisignatureState) × Lineage toy key (envelope 1 ∷ []) s
    × (last_of (envelope 1 ∷ []) ≡ some (envelope 1))
    × IsSuccessor toy key (envelope 2) s updated
validate_multisignature_transition-IsSuccessor_example =
    validate_multisignature_transition-IsSuccessor toy key (envelope 2) (envelope 1)
      (envelope 1 ∷ []) updated first_is_multisignature second_over_first

abbrev shown : IdentityRecordResult
shown = record {
  record_key = key;
  object_key_hex = to_hex key;
  owner_public_key = key_a;
  owner_name_hex = to_hex name;
  seq = 2;
  authorization = record {
    version = 1;
    operation = 2;
    epoch = 1;
    threshold = 2;
    signer_set = signers;
    predecessor_state_hash = toy_sha256 (1 ∷ []);
    state_hash = toy_sha256 (2 ∷ []);
  };
}

-- Provider Records by their `seq`: 19 a legacy one, 20 its legacy withdrawal, 21 a multisignature
-- withdrawal.
abbrev shop_authorization : Authorization
shop_authorization = record {
  scheme = 1;
  record_kind = 2;
  operation = 2;
  epoch = 1;
  threshold = 2;
  signer_set = signers;
  predecessor = toy_sha256 (19 ∷ []);
}

abbrev shop_update : ℕ → Entries → Option Authorization → SignedUpdate
shop_update seq fields auth = record {
  record_fields = entry (int 1) (bytes key_a) end;
  payload = fields;
  seq = seq;
  authorization = auth;
}

abbrev shop_updates : ℕ → SignedUpdate
shop_updates n =
    if n == 19
    then shop_update 19 payload none
    else if n == 20
    then shop_update 20 withdrawal none
    else shop_update 21 withdrawal (some shop_authorization)

abbrev shop_envelope : ℕ → Value
shop_envelope n =
    if n == 21
    then envelope_value (n ∷ []) two_proofs
    else legacy_envelope_value (n ∷ []) (sign key_a)

abbrev shop_loads : Bytes → Option Value
shop_loads (zero ∷ n ∷ []) = some (shop_envelope n)
shop_loads (n ∷ []) = some (update_value (shop_updates n))
shop_loads _ = none

abbrev pub shop : Library
shop = record toy { loads = shop_loads }

abbrev pub object_key : Bytes
object_key = replicate 32 170

abbrev tombstone_20 : ProviderWithdrawnResult
tombstone_20 = record {
  object_hash = object_hash;
  seq = 20;
  replacement_object_hash = some replacement;
  authorization = none;
  predecessor_envelope_cbor = some (envelope 19);
}

unfoldable pub overwrite : Bytes → Option Bytes → Result ProviderOverwrite
unfolding bytes_eq texts_eq optional_eq pairs_eq proofs_eq bytes_le sort hex_digit one_of unreserved
    sub_delimiter pchar uri_allowed partition bad_percent_escape object_hash_shape from_hex
    is_scheme validate_provider_uri validate_endpoints normalize_sorted_provider_urls
    validate_object_hash same_hash check_replacement decode_replacement decode_withdrawn
    decode_active decode_provider_payload_dict require_uint validate_signer_entries
    validate_authorization_map validate_uint_keys is_bytes check_32_bytes
    validate_record_kind_binding is_canonical_cbor validate_decoded_signed_update
    decode_canonical_signed_update decode_multisignature_signed_update validate_proofs
    decode_signed_envelope decode_multisignature_envelope extract_identity_and_keys
    extract_provider_and_keys verify_ed25519_signature check_prev enforce_seq_and_owner_binding
    decode_signed_update_strict accept_update validate_identity_update validate_provider_update
    validate_signed_update_overwrite Dictionary.lookup Dictionary.insert is_multisignature_envelope
    extract_prev_seq_state python_bytes field_bytes withdraw_legacy legacy_overwrite
    candidate_payload validate_provider_overwrite
overwrite = validate_provider_overwrite shop object_key

withdrawn_over_active :
    validate_provider_overwrite shop object_key (envelope 20) (some (envelope 19))
    ≡ ok (tombstone tombstone_20)
unfolding overwrite
withdrawn_over_active = refl

validate_provider_overwrite-IsWithdrawal_example :
    IsWithdrawal shop object_key (envelope 20) (some (envelope 19)) tombstone_20
validate_provider_overwrite-IsWithdrawal_example =
    validate_provider_overwrite-IsWithdrawal shop object_key (envelope 20) (some (envelope 19))
      tombstone_20 withdrawn_over_active

abbrev shop_opened : MultisignatureEnvelope
shop_opened = record { version = 1; signed_update_bytes = 21 ∷ []; proofs = two_proofs }

abbrev gone_payload : ProviderWithdrawnPayloadV2
gone_payload = record {
  alg = b's' ∷ b'h' ∷ b'a' ∷ [];
  version = 2;
  object_hash = object_hash;
  replacement_object_hash = some replacement;
}

opened : decode_multisignature_envelope shop (envelope 21) ≡ ok shop_opened
unfolding overwrite
opened = refl

read : decode_multisignature_signed_update shop (21 ∷ []) ≡ ok (shop_updates 21, shop_authorization)
unfolding overwrite
read = refl

known :
    candidate_payload shop (shop_updates 21, shop_authorization)
    ≡ ok (some (withdrawn gone_payload))
unfolding overwrite
known = refl

legacy : is_multisignature_envelope shop (envelope 19) ≡ false
unfolding overwrite
legacy = refl

validate_multisignature_transition-legacy_example :
    validate_multisignature_transition shop object_key (envelope 21) (some (envelope 19)) none
    ≢ ok genesis
validate_multisignature_transition-legacy_example =
    validate_multisignature_transition-legacy shop object_key (envelope 21) (envelope 19) none
      shop_opened (shop_updates 21, shop_authorization) gone_payload genesis opened read known
      legacy
