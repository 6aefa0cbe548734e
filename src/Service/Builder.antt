-- ===== src/Service/Builder.antt =====
-- src/decent_registry/envelope_builder.py: legacy envelopes from their fields and a file of a key.
use decent_registry.Prelude.{
  ℕ, Option, none, List, Result, value_error, library_error, ◌>>=◌, or_raise,
}
use decent_registry.Cbor.{Bytes, Text, Library, int, bytes, Entries, entry, end}
use decent_registry.Provider.Chars.{from_hex}
use decent_registry.Provider.Payload.{
  build_provider_payload_dict, build_provider_withdrawal_payload_dict,
}
use decent_registry.Encoding.Update.{encode_signed_update}
use decent_registry.Envelope.{encode_signed_envelope}

-- The key pair of a PEM file; `sign` gives `none` where it raises.
pub record OwnerKey : Type 0 where
  pub public_key : Bytes
  pub sign : Bytes → Option Bytes

-- `load` is `load_ed25519_keypair_from_privkey_pem_path`, a file of a key by its path.
module _ (lib : Library) (load : Text → Result OwnerKey) where
  open lib use {sha256}

  unfoldable pub make_signed_update_signature : Bytes → OwnerKey → Result Bytes
  make_signed_update_signature update owner = or_raise (owner.sign (sha256 update)) library_error

  -- The update of the fields, signed, as an envelope.
  unfoldable pub sign_fields : OwnerKey → Entries → Entries → ℕ → Result Bytes
  unfolding make_signed_update_signature
  sign_fields owner record_fields payload seq = do
    update ← encode_signed_update lib record_fields payload seq none
    signature ← make_signed_update_signature update owner
    encode_signed_envelope lib update signature

  unfoldable pub build_provider_envelope :
      Text → List Text → Text → ℕ → List Text → Text → Result Bytes
  unfolding sign_fields
  build_provider_envelope object_hash provider_urls path seq endpoints alg = do
    owner ← load path
    payload ← build_provider_payload_dict lib alg object_hash provider_urls endpoints
    sign_fields owner (entry (int 1) (bytes owner.public_key) end) payload seq

  unfoldable pub build_provider_withdrawal_envelope :
      Text → Text → ℕ → Option Text → Text → Result Bytes
  unfolding sign_fields
  build_provider_withdrawal_envelope object_hash path seq replacement alg = do
    owner ← load path
    payload ← build_provider_withdrawal_payload_dict alg object_hash replacement
    sign_fields owner (entry (int 1) (bytes owner.public_key) end) payload seq

  unfoldable pub build_identity_envelope : Text → Text → ℕ → Result Bytes
  unfolding sign_fields
  build_identity_envelope owner_name_hex path seq = do
    owner ← load path
    name ← or_raise (from_hex owner_name_hex) (value_error "owner_name must be valid hex")
    sign_fields owner (entry (int 1) (bytes name) (entry (int 2) (bytes owner.public_key) end)) end
        seq
