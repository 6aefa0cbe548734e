-- ===== src/Validator/Common.antt =====
-- src/decent_registry/record_validator.py: the results and what the validators share.
use decent_registry.Prelude.{
  ℕ, ◌+◌, ◌/◌, ◌%◌, Bool, true, false, not, Option, none, some, List, [], ◌∷◌, ltb, ◌==◌,
  if◌then◌else◌, length, replicate, Result, Done, ok, raise, value_error, type_error, key_error,
  String, ◌>>=◌, ◌>>◌, raise_if, or_raise, ◌≟◌, bytes_eq, optional_eq,
}
use decent_registry.Cbor.{
  Text, Bytes, Library, Value, bool, int, bytes, array, dict, Items, nil, cons, Entries, end, entry,
  get, has_keys,
}
use decent_registry.Provider.Payload.{ProviderPayloadV3}
use decent_registry.Encoding.Authorization.{Authorization, Signer, record_kind_provider}
use decent_registry.Encoding.Update.{
  SignedUpdate, update_value, canonical_cbor, decode_canonical_signed_update,
  decode_multisignature_signed_update,
}
use decent_registry.Envelope.{Proof, decode_multisignature_envelope, decode_signed_envelope}
use decent_registry.Verification.Candidate.{
  MultisignatureState, expected_key, verify_ed25519_signature,
}
use decent_registry.Verification.Legacy.{SeqStateEntry, SeqState}

pub record AuthorizationMetadata : Type 0 where
  pub version : ℕ
  pub operation : ℕ
  pub epoch : ℕ
  pub threshold : ℕ
  pub signer_set : List Signer
  pub predecessor_state_hash : Bytes
  pub state_hash : Bytes

pub record ProviderWithdrawnResult : Type 0 where
  pub object_hash : Text
  pub seq : ℕ
  pub replacement_object_hash : Option Text
  pub authorization : Option AuthorizationMetadata
  pub predecessor_envelope_cbor : Option Bytes

pub record ProviderRecordResult : Type 0 where
  pub payload : ProviderPayloadV3
  pub seq : ℕ
  pub authorization : AuthorizationMetadata

pub record IdentityRecordResult : Type 0 where
  pub record_key : Bytes
  pub object_key_hex : Text
  pub owner_public_key : Bytes
  pub owner_name_hex : Text
  pub seq : ℕ
  pub authorization : AuthorizationMetadata

pub record ProviderOverwriteResult : Type 0 where
  pub record_key : Bytes
  pub object_hash_hex : Text
  pub owner_public_key : Bytes
  pub seq : ℕ
  pub authorization : Option AuthorizationMetadata
  pub state : Option MultisignatureState

pub record IdentityOverwriteResult : Type 0 where
  pub record_key : Bytes
  pub object_key_hex : Text
  pub owner_public_key : Bytes
  pub owner_name_hex : Text
  pub seq : ℕ
  pub authorization : Option AuthorizationMetadata
  pub state : Option MultisignatureState

-- What the two overwrites and the two reads return, one constructor for each class.
pub data ProviderOverwrite : Type 0 where
  written : ProviderOverwriteResult → ProviderOverwrite
  tombstone : ProviderWithdrawnResult → ProviderOverwrite

pub data ProviderGet : Type 0 where
  legacy_payload : ProviderPayloadV3 → ProviderGet
  gone : ProviderWithdrawnResult → ProviderGet
  found : ProviderRecordResult → ProviderGet

pub data IdentityGet : Type 0 where
  legacy_identity : IdentityOverwriteResult → IdentityGet
  identity_found : IdentityRecordResult → IdentityGet

hex_digit_of : ℕ → ℕ
hex_digit_of n = if ltb n 10 then n + 48 else n + 87

-- `b.hex()`
unfoldable pub to_hex : Bytes → Text
unfolding hex_digit_of
to_hex [] = []
to_hex (b ∷ bs) = hex_digit_of (b / 16) ∷ hex_digit_of (b % 16) ∷ to_hex bs

-- `bytes(v)` of a decoded value: a number gives as many zero bytes, and an array or the keys of a
-- map give their numbers; other objects are taken to raise.
byte_of : Value → Result ℕ
byte_of (bool true) = ok 1
byte_of (bool false) = ok 0
byte_of (int n) = if ltb n 256 then ok n else raise (value_error "bytes must be in range(0, 256)")
byte_of (Value.negative n) = raise (value_error "bytes must be in range(0, 256)")
byte_of _ = raise (type_error "object cannot be interpreted as an integer")

item_bytes : Items → Result Bytes
unfolding byte_of
item_bytes nil = ok []
item_bytes (cons v vs) = do b ← byte_of v; rest ← item_bytes vs; ok (b ∷ rest)

key_bytes : Entries → Result Bytes
unfolding byte_of
key_bytes end = ok []
key_bytes (entry k v d) = do b ← byte_of k; rest ← key_bytes d; ok (b ∷ rest)

unfoldable pub python_bytes : Value → Result Bytes
unfolding item_bytes key_bytes
python_bytes (bytes b) = ok b
python_bytes (bool true) = ok (0 ∷ [])
python_bytes (bool false) = ok []
python_bytes (int n) = ok (replicate n 0)
python_bytes (Value.negative n) = raise (value_error "negative count")
python_bytes (array vs) = item_bytes vs
python_bytes (dict d) = key_bytes d
python_bytes _ = raise (type_error "cannot convert object to bytes")

-- `bytes(fields[n])`
unfoldable pub field_bytes : Entries → ℕ → Result Bytes
unfolding python_bytes
field_bytes d n = do v ← or_raise (get d n) key_error; python_bytes v

-- A field that has to be `bytes`; a missing one is refused in the same words.
abbrev pub checked_bytes : Option Value → String → Result Bytes
checked_bytes (some (bytes b)) message = ok b
checked_bytes _ message = raise (value_error message)

abbrev is_multisignature_map : Option Value → Bool
is_multisignature_map (some (dict d)) = has_keys d (1 ∷ 2 ∷ 3 ∷ [])
is_multisignature_map _ = false

-- `chain[-1]`
unfoldable pub last_of : List Bytes → Option Bytes
last_of [] = none
last_of (e ∷ []) = some e
last_of (e ∷ f ∷ es) = last_of (f ∷ es)

unfoldable pub require_history_ending_at : List Bytes → Bytes → Result Done
require_history_ending_at chain envelope =
    raise_if (not (last_of chain ≟ some envelope))
      (value_error "predecessor history does not end at the given state")

-- `try: …; except Exception: return None`
abbrev pub or_none {ℓ} : {A : Type ℓ} → Result (Option A) → Option A
or_none (ok o) = o
or_none (raise e) = none

abbrev entry_of : Option Value → ℕ → Option SeqStateEntry
entry_of (some (bytes owner)) seq = some (record { owner_public_key = owner; seq = seq })
entry_of _ seq = none

-- The entries of the sequence numbers that an overwrite starts from.
abbrev pub seq_state_of : Bytes → Option SeqStateEntry → SeqState
seq_state_of record_key none = []
seq_state_of record_key (some prev) = (record_key, prev) ∷ []

module _ (lib : Library) where
  unfoldable pub is_multisignature_envelope : Bytes → Bool
  is_multisignature_envelope b = is_multisignature_map (lib.loads b)

  -- `AuthorizationMetadata.from_state`
  unfoldable pub metadata_from_state : MultisignatureState → Result AuthorizationMetadata
  metadata_from_state s = do
    decoded ← decode_multisignature_signed_update lib s.signed_update_bytes
    ok (record {
      version = 1;
      operation = decoded.1.operation;
      epoch = decoded.1.epoch;
      threshold = decoded.1.threshold;
      signer_set = s.signer_set;
      predecessor_state_hash = decoded.1.predecessor;
      state_hash = s.state_hash;
    })

  -- The two `_extract_…_prev_seq_state`, which differ in the field of the owner.
  unfoldable pub extract_prev_seq_state : ℕ → Bytes → Option SeqStateEntry
  extract_prev_seq_state owner_field existing = or_none (do
    envelope ← decode_signed_envelope lib existing
    u ← decode_canonical_signed_update lib envelope.0
    ok (entry_of (get u.record_fields owner_field) u.seq))

  abbrev pub prev_entry : ℕ → Option Bytes → Option SeqStateEntry
  prev_entry owner_field none = none
  prev_entry owner_field (some existing) = extract_prev_seq_state owner_field existing

  unfoldable pub check_tombstone_proofs : Bytes → List Signer → List Proof → Result Done
  check_tombstone_proofs update signer_set [] = ok tt
  check_tombstone_proofs update signer_set (p ∷ ps) = do
    key ← or_raise (expected_key signer_set p.0) (value_error "invalid withdrawal proof")
    valid ← verify_ed25519_signature lib key update p.1
    raise_if (not valid) (value_error "invalid withdrawal proof")
    check_tombstone_proofs update signer_set ps

  unfoldable pub verify_provider_tombstone_signatures : Bytes → Authorization → Result Done
  unfolding check_tombstone_proofs
  verify_provider_tombstone_signatures envelope_cbor a = do
    envelope ← decode_multisignature_envelope lib envelope_cbor
    raise_if (not (a.record_kind == record_kind_provider))
        (value_error "expected a Provider Record withdrawal")
    raise_if (ltb (length envelope.proofs) a.threshold) (value_error "insufficient quorum")
    check_tombstone_proofs envelope.signed_update_bytes a.signer_set envelope.proofs

  unfoldable pub metadata_from_signed_update :
      SignedUpdate × Authorization → Result AuthorizationMetadata
  metadata_from_signed_update (u, a) = do
    encoded ← canonical_cbor lib (update_value u)
    ok (record {
      version = a.scheme;
      operation = a.operation;
      epoch = a.epoch;
      threshold = a.threshold;
      signer_set = a.signer_set;
      predecessor_state_hash = a.predecessor;
      state_hash = lib.sha256 encoded;
    })

  unfoldable pub metadata_from_envelope : Bytes → Result AuthorizationMetadata
  unfolding metadata_from_signed_update
  metadata_from_envelope envelope_cbor = do
    envelope ← decode_multisignature_envelope lib envelope_cbor
    decoded ← decode_multisignature_signed_update lib envelope.signed_update_bytes
    metadata_from_signed_update decoded

  unfoldable pub provider_payload_from_envelope : Bytes → Result Entries
  provider_payload_from_envelope envelope_cbor = do
    update ←
        if is_multisignature_envelope envelope_cbor
        then (do e ← decode_multisignature_envelope lib envelope_cbor; ok e.signed_update_bytes)
        else (do e ← decode_signed_envelope lib envelope_cbor; ok e.0)
    u ← decode_canonical_signed_update lib update
    ok u.payload
