-- ===== src/Encoding/Authorization/Valid.antt =====
-- src/decent_registry/encoding.py: the predicates on authorizations, and the validation.
use mathlib.Core.List.{Nodup}
use mathlib.Core.List.Perm
use decent_registry.Prelude.{
  succeeded, ◌≤◌, Bool, true, false, Option, some, List, [], ◌∷◌, ◌≡◌, arith, ok, length, map, All,
  contains, bytes_eq, pairs_eq,
}
use decent_registry.Prelude.Sorting.{IsSorted, sort-IsSorted, sort-perm, All-sort}
use decent_registry.Prelude.Distinct.{Fresh, Fresh-Nodup}
use decent_registry.Cbor.{Bytes, Text, Value, array, dict, cons, elements, get}
use decent_registry.Encoding.Authorization.{
  Authorization, Signer, sorted_signers, check_signer_id, check_public_key, check_signer,
  check_signers, finish_signers, validate_signer_entries, check_predecessor,
  validate_authorization_map,
}

abbrev pub signer_id : Signer → Text
signer_id s = s.0

abbrev pub public_key : Signer → Bytes
public_key s = s.1

-- An identifier of 1 to 256 bytes and a key of 32.
abbrev pub IsSigner : Signer → Type 0
IsSigner s = (1 ≤ length s.0) × (length s.0 ≤ 256) × (length s.1 ≡ 32)

pub record IsSignerSet (ss : List Signer) : Type 0 where
  pub signers : All IsSigner ss
  pub ids : Nodup (map signer_id ss)
  pub keys : Nodup (map public_key ss)
  pub ordered : IsSorted signer_id ss

check_signer_id_sound :
    (v : Option Value) (i : Text) → check_signer_id v ≡ ok i → (1 ≤ length i) × (length i ≤ 256)
check_signer_id_sound (some (Value.text (c ∷ i))) j h = ground arith
check_signer_id_sound v i h = absurd (ground arith)

check_public_key_sound : (v : Option Value) (k : Bytes) → check_public_key v ≡ ok k → length k ≡ 32
check_public_key_sound (some (Value.bytes b)) k h = ground arith
check_public_key_sound v k h = absurd (ground arith)

check_signer_sound :
    (v : Value) (ids : List Text) (keys : List Bytes) (s : Signer)
    → check_signer v ids keys ≡ ok s
    → IsSigner s × (contains s.0 ids ≡ false) × (contains s.1 keys ≡ false)
unfolding check_signer
check_signer_sound (dict d) ids keys (i, k) h =
    succeeded (check_signer_id (get d 1)) (λ e x. ground arith)
      λ i' eq.
        succeeded (check_public_key (get d 2)) (λ e x. ground arith)
          λ k' eq'.
            ground (
              arith,
              check_signer_id_sound (get d 1) i' eq,
              check_public_key_sound (get d 2) k' eq',
            )
check_signer_sound v ids keys s h = absurd (ground arith)

check_signers_sound :
    (vs : List Value) (ids : List Text) (keys : List Bytes) (ss : List Signer)
    → check_signers vs ids keys ≡ ok ss
    → All IsSigner ss × Fresh (map signer_id ss) ids × Fresh (map public_key ss) keys
unfolding check_signers
check_signers_sound [] ids keys [] h = (tt, tt, tt)
check_signers_sound [] ids keys (s ∷ ss) h = absurd (ground arith)
check_signers_sound (v ∷ vs) ids keys ss h =
    succeeded (check_signer v ids keys) (λ e x. ground arith)
      λ s one.
        succeeded (check_signers vs (s.0 ∷ ids) (s.1 ∷ keys)) (λ e x. ground arith)
          λ rest more.
            let (signer, new_id, new_key) = check_signer_sound v ids keys s one in
            let (signers, new_ids, new_keys) =
              check_signers_sound vs (s.0 ∷ ids) (s.1 ∷ keys) rest more in
            let whole : s ∷ rest ≡ ss = ground arith in
            rw (← whole) ((signer, signers), (new_id, new_ids), (new_key, new_keys))

sorted-IsSignerSet :
    (ss : List Signer)
    → All IsSigner ss
    → Nodup (map signer_id ss)
    → Nodup (map public_key ss)
    → IsSignerSet (sorted_signers ss)
sorted-IsSignerSet ss valid ids keys = record {
  signers = All-sort signer_id IsSigner ss valid;
  ids = Perm.nodup (Perm.symm (Perm.map signer_id (sort-perm signer_id ss))) ids;
  keys = Perm.nodup (Perm.symm (Perm.map public_key (sort-perm signer_id ss))) keys;
  ordered = sort-IsSorted signer_id ss;
}

finish_signers_sound :
    (ss : List Signer) (b : Bool) (out : List Signer)
    → finish_signers ss b ≡ ok out
    → out ≡ sorted_signers ss
unfolding finish_signers
finish_signers_sound ss true out h = ground arith
finish_signers_sound ss false out h = ground arith

pub validate_signer_entries-IsSignerSet :
    (v : Option Value) (b : Bool) (ss : List Signer)
    → validate_signer_entries v b ≡ ok ss
    → IsSignerSet ss
unfolding validate_signer_entries
validate_signer_entries-IsSignerSet (some (array (cons v vs))) b ss h =
    succeeded (check_signers (v ∷ elements vs) [] []) (λ e x. ground arith)
      λ all run.
        let (valid, ids, keys) = check_signers_sound (v ∷ elements vs) [] [] all run in
        let set =
          sorted-IsSignerSet all valid (Fresh-Nodup (map signer_id all) [] ids)
            (Fresh-Nodup (map public_key all) [] keys) in
        rw (finish_signers_sound all b ss (ground arith)) set
validate_signer_entries-IsSignerSet v b ss h = absurd (ground arith)

-- The well-formed authorizations.
pub record IsAuthorization (a : Authorization) : Type 0 where
  pub scheme : a.scheme ≡ 1
  pub record_kind : (1 ≤ a.record_kind) × (a.record_kind ≤ 2)
  pub operation : (1 ≤ a.operation) × (a.operation ≤ 5)
  pub threshold : (1 ≤ a.threshold) × (a.threshold ≤ length a.signer_set)
  pub signer_set : IsSignerSet a.signer_set
  pub predecessor : length a.predecessor ≡ 32

check_predecessor_sound :
    (v : Option Value) (b : Bytes) → check_predecessor v ≡ ok b → length b ≡ 32
unfolding check_predecessor
check_predecessor_sound (some (Value.bytes b)) k h = ground arith
check_predecessor_sound v k h = absurd (ground arith)

-- Whatever value is validated, with the signers sorted or required to be: the authorization has
-- scheme 1, a kind of 1 or 2, an operation of 1 to 5, a predecessor of 32 bytes and a threshold of
-- 1 to the number of signers. Each signer has an identifier of 1 to 256 bytes and a key of 32; no
-- identifier and no key occurs twice, and the identifiers are sorted.
pub validate_authorization_map-IsAuthorization :
    (v : Value) (b : Bool) (a : Authorization)
    → validate_authorization_map v b ≡ ok a
    → IsAuthorization a
unfolding validate_authorization_map
validate_authorization_map-IsAuthorization (dict d) b a h =
    succeeded (validate_signer_entries (get d 6) b) (λ e x. ground arith)
      λ ss set.
        succeeded (check_predecessor (get d 7)) (λ e x. ground arith)
          λ p prev.
            let members : a.signer_set ≡ ss = ground arith in
            record {
              scheme = ground arith;
              record_kind = ground arith;
              operation = ground arith;
              threshold = ground arith;
              signer_set = rw members (validate_signer_entries-IsSignerSet (get d 6) b ss set);
              predecessor = ground (arith, check_predecessor_sound (get d 7) p prev);
            }
validate_authorization_map-IsAuthorization v b a h = absurd (ground arith)
