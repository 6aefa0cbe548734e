-- ===== src/Encoding/Authorization/Roundtrip.antt =====
-- src/decent_registry/encoding.py: the round trip of authorization maps.
use decent_registry.Prelude.{
  ◌≤◌, Bool, true, false, some, List, [], ◌∷◌, ◌≡◌, refl, arith, ok, length, map, All, contains,
  bytes_eq, pairs_eq,
}
use decent_registry.Prelude.Sorting.{sort_of_IsSorted}
use decent_registry.Prelude.Distinct.{Fresh, Nodup-Fresh_nil}
use decent_registry.Cbor.{Bytes, Text, array, of_list, elements-of_list}
use decent_registry.Encoding.Authorization.{
  Authorization, Signer, require_uint, check_signer, check_signers, finish_signers,
  validate_signer_entries, check_predecessor, validate_authorization_map, signer_value,
  authorization_value,
}
use decent_registry.Encoding.Authorization.Valid.{
  signer_id, public_key, IsSigner, IsSignerSet, IsAuthorization,
}

check_signer-signer_value :
    (s : Signer) (ids : List Text) (keys : List Bytes)
    → IsSigner s
    → contains s.0 ids ≡ false
    → contains s.1 keys ≡ false
    → check_signer (signer_value s) ids keys ≡ ok s
unfolding check_signer
check_signer-signer_value ([], k) ids keys (short, long, size) new_id new_key = absurd (omega arith)
check_signer-signer_value (c ∷ i, k) ids keys (short, long, size) new_id new_key = ground arith

check_signers-signer_value :
    (ss : List Signer) (ids : List Text) (keys : List Bytes)
    → All IsSigner ss
    → Fresh (map signer_id ss) ids
    → Fresh (map public_key ss) keys
    → check_signers (map signer_value ss) ids keys ≡ ok ss
unfolding check_signers
check_signers-signer_value [] ids keys v f g = refl
check_signers-signer_value (s ∷ ss) ids keys (v, vs) (f, fs) (g, gs) = rw (
  check_signer-signer_value s ids keys v f g,
  check_signers-signer_value ss (s.0 ∷ ids) (s.1 ∷ keys) vs fs gs,
)

finish_signers-sorted : (ss : List Signer) (b : Bool) → IsSignerSet ss → finish_signers ss b ≡ ok ss
unfolding finish_signers
finish_signers-sorted ss true v = rw (sort_of_IsSorted signer_id ss v.ordered)
finish_signers-sorted ss false v = ground (arith, sort_of_IsSorted signer_id ss v.ordered)

validate_signer_entries-signer_value :
    (ss : List Signer) (b : Bool)
    → IsSignerSet ss
    → 1 ≤ length ss
    → validate_signer_entries (some (array (of_list (map signer_value ss)))) b ≡ ok ss
unfolding validate_signer_entries
validate_signer_entries-signer_value [] b v h = absurd (omega arith)
validate_signer_entries-signer_value (s ∷ ss) b v h =
    rw
      (
        elements-of_list (map signer_value ss),
        check_signers-signer_value (s ∷ ss) [] [] v.signers
            (Nodup-Fresh_nil (map signer_id (s ∷ ss)) v.ids)
            (Nodup-Fresh_nil (map public_key (s ∷ ss)) v.keys),
      )
      (finish_signers-sorted (s ∷ ss) b v)

-- The map of a well-formed authorization validates to that authorization, with the signers sorted
-- or required to be.
pub validate-authorization_value :
    (a : Authorization) (b : Bool)
    → IsAuthorization a
    → validate_authorization_map (authorization_value a) b ≡ ok a
unfolding validate_authorization_map require_uint check_predecessor
validate-authorization_value a b v =
    rw
      (validate_signer_entries-signer_value a.signer_set b v.signer_set
        (omega (arith, v.threshold.0, v.threshold.1)))
      (ground arith)
