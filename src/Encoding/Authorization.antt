-- ===== src/Encoding/Authorization.antt =====
-- src/decent_registry/encoding.py: the authorization map of a multisignature SignedUpdate.
pub mod Valid
pub mod Roundtrip
use decent_registry.Prelude.{
  ℕ, Bool, true, false, ◌&&◌, ◌||◌, not, Option, some, List, [], ◌∷◌, ltb, leb, ◌==◌, length, map,
  Result, ok, raise, value_error, type_error, ◌>>=◌, ◌>>◌, raise_if, ◌≟◌, bytes_eq, pairs_eq,
  contains,
}
use decent_registry.Prelude.Sorting.{sort}
use decent_registry.Cbor.{
  Text, Bytes, Value, int, text, bytes, array, dict, cons, entry, end, get, has_keys, of_list,
  elements,
}

abbrev pub authorization_scheme_ed25519 : ℕ
authorization_scheme_ed25519 = 1

abbrev pub record_kind_identity : ℕ
record_kind_identity = 1

abbrev pub record_kind_provider : ℕ
record_kind_provider = 2

abbrev pub operation_genesis : ℕ
operation_genesis = 1

abbrev pub operation_ordinary_update : ℕ
operation_ordinary_update = 2

abbrev pub operation_replace_signers : ℕ
operation_replace_signers = 3

abbrev pub operation_upgrade : ℕ
operation_upgrade = 4

abbrev pub operation_owner_key_rotation : ℕ
operation_owner_key_rotation = 5

-- An entry of a Signer Set: the identifier and the public key.
abbrev pub Signer : Type 0
Signer = List ℕ × List ℕ

-- What `validate_authorization_map` returns, its keys 1 to 7 in order.
pub record Authorization : Type 0 where
  pub scheme : ℕ
  pub record_kind : ℕ
  pub operation : ℕ
  pub epoch : ℕ
  pub threshold : ℕ
  pub signer_set : List Signer
  pub predecessor : Bytes

-- `_require_uint`
unfoldable pub require_uint : Option Value → Result ℕ
require_uint (some (int n)) = ok n
require_uint _ = raise (type_error "must be a non-negative integer")

abbrev check_signer_id : Option Value → Result Text
check_signer_id (some (text (c ∷ s))) = do
  raise_if (ltb 256 (length (c ∷ s))) (value_error "signer_id must be at most 256 UTF-8 bytes")
  ok (c ∷ s)
check_signer_id _ = raise (value_error "signer_id must be a non-empty text string")

abbrev check_public_key : Option Value → Result Bytes
check_public_key (some (bytes b)) = do
  raise_if (not (length b == 32)) (value_error "signer public key must be exactly 32 bytes")
  ok b
check_public_key _ = raise (type_error "signer public key must be bytes")

-- One round of the loop over the entries.
check_signer : Value → List Text → List Bytes → Result Signer
check_signer (dict d) seen_ids seen_keys = do
  raise_if (not (has_keys d (1 ∷ 2 ∷ [])))
      (value_error "signer entry must be a map with keys {1,2}")
  signer_id ← check_signer_id (get d 1)
  public_key ← check_public_key (get d 2)
  raise_if (contains signer_id seen_ids) (value_error "duplicate signer identifier")
  raise_if (contains public_key seen_keys) (value_error "duplicate public key")
  ok (signer_id, public_key)
check_signer _ seen_ids seen_keys = raise (value_error "signer entry must be a map with keys {1,2}")

check_signers : List Value → List Text → List Bytes → Result (List Signer)
unfolding check_signer
check_signers [] seen_ids seen_keys = ok []
check_signers (v ∷ vs) seen_ids seen_keys = do
  signer ← check_signer v seen_ids seen_keys
  rest ← check_signers vs (signer.0 ∷ seen_ids) (signer.1 ∷ seen_keys)
  ok (signer ∷ rest)

-- `sorted(normalized, key=lambda item: _signer_sort_key(item[1]))`
abbrev pub sorted_signers : List Signer → List Signer
sorted_signers = sort (λ (s : Signer). s.0)

finish_signers : List Signer → Bool → Result (List Signer)
finish_signers normalized true = ok (sorted_signers normalized)
finish_signers normalized false = do
  raise_if (not (normalized ≟ sorted_signers normalized))
      (value_error "signer entries must be canonically ordered")
  ok normalized

-- `_validate_signer_entries(entries, sort_entries=sort, require_sorted=not sort)`
unfoldable pub validate_signer_entries : Option Value → Bool → Result (List Signer)
unfolding check_signers finish_signers
validate_signer_entries (some (array (cons v vs))) sort_entries = do
  normalized ← check_signers (v ∷ elements vs) [] []
  finish_signers normalized sort_entries
validate_signer_entries _ sort_entries = raise (value_error "signer_set must be a non-empty list")

check_predecessor : Option Value → Result Bytes
check_predecessor (some (bytes b)) = do
  raise_if (not (length b == 32)) (value_error "predecessor_state_hash must be exactly 32 bytes")
  ok b
check_predecessor _ = raise (type_error "predecessor_state_hash must be bytes")

unfoldable pub validate_authorization_map : Value → Bool → Result Authorization
unfolding check_predecessor
validate_authorization_map (dict d) sort_signers = do
  raise_if (not (has_keys d (1 ∷ 2 ∷ 3 ∷ 4 ∷ 5 ∷ 6 ∷ 7 ∷ [])))
      (value_error "authorization must contain keys {1,2,3,4,5,6,7}")
  scheme ← require_uint (get d 1)
  raise_if (not (scheme == authorization_scheme_ed25519))
      (value_error "unsupported authorization scheme")
  record_kind ← require_uint (get d 2)
  raise_if (not (record_kind == record_kind_identity || record_kind == record_kind_provider))
      (value_error "unsupported record_kind")
  operation ← require_uint (get d 3)
  raise_if (not (leb operation_genesis operation && leb operation operation_owner_key_rotation))
      (value_error "unsupported operation")
  epoch ← require_uint (get d 4)
  threshold ← require_uint (get d 5)
  signer_set ← validate_signer_entries (get d 6) sort_signers
  raise_if (ltb threshold 1 || ltb (length signer_set) threshold)
      (value_error "threshold must be between 1 and the signer-set size")
  predecessor ← check_predecessor (get d 7)
  ok (record {
    scheme = scheme;
    record_kind = record_kind;
    operation = operation;
    epoch = epoch;
    threshold = threshold;
    signer_set = signer_set;
    predecessor = predecessor;
  })
validate_authorization_map _ sort_signers = raise (type_error "authorization must be a CBOR map")

abbrev pub signer_value : Signer → Value
signer_value (i, k) = dict (entry (int 1) (text i) (entry (int 2) (bytes k) end))

-- The dict that is returned.
abbrev pub authorization_value : Authorization → Value
authorization_value a = dict (
    entry (int 1) (int a.scheme) (
      entry (int 2) (int a.record_kind) (
        entry (int 3) (int a.operation) (
          entry (int 4) (int a.epoch) (
            entry (int 5) (int a.threshold) (
              entry (int 6) (array (of_list (map signer_value a.signer_set)))
                (entry (int 7) (bytes a.predecessor) end)))))))
