-- ===== src/Store.antt =====
-- src/decent_registry/durable_store.py: `LMDBDatastore`. A database is a map of bytes to bytes, and
-- a transaction is a function on the three of them. Opening the files is not modelled.
pub mod Keys
pub mod Writes
pub mod Reads
pub mod Refinement
pub mod Stale
use decent_registry.Prelude.{
  ℕ, Bool, true, false, not, Option, none, some, List, [], ◌∷◌, ◌++◌, ltb, ◌==◌, if◌then◌else◌,
  length, map, Result, Done, ok, raise, value_error, library_error, ◌>>=◌, ◌>>◌, raise_if, or_raise,
  ◌≟◌, bytes_eq,
}
use decent_registry.Prelude.Dictionary.{lookup, insert, erase}
use decent_registry.Cbor.{
  Bytes, Library, Value, int, bytes, array, dict, Items, nil, cons, entry, end, get, has_keys,
  of_list,
}

pub data Kind : Type 0 where
  provider identity : Kind

abbrev pub Database : Type 0
Database = List (List ℕ × List ℕ)

pub record Datastore : Type 0 where
  pub provider_db : Database
  pub identity_db : Database
  pub accepted_db : Database

abbrev pub db_of : Kind → Datastore → Database
db_of provider s = s.provider_db
db_of identity s = s.identity_db

abbrev with_db : Kind → Database → Datastore → Datastore
with_db provider db s = record s { provider_db = db }
with_db identity db s = record s { identity_db = db }

-- `kind.encode("ascii")`
abbrev pub kind_name : Kind → Bytes
kind_name provider = b'p' ∷ b'r' ∷ b'o' ∷ b'v' ∷ b'i' ∷ b'd' ∷ b'e' ∷ b'r' ∷ []
kind_name identity = b'i' ∷ b'd' ∷ b'e' ∷ b'n' ∷ b't' ∷ b'i' ∷ b't' ∷ b'y' ∷ []

-- The separator is the four characters `\x00`, not a zero byte.
unfoldable pub metadata_key : Kind → Bytes → Bytes
metadata_key kind key = kind_name kind ++ 0x5c ∷ b'x' ∷ b'0' ∷ b'0' ∷ key

-- `b"history:" + cls._metadata_key(kind=kind, key=key)`
unfoldable pub history_key : Kind → Bytes → Bytes
history_key kind key = b'h' ∷ b'i' ∷ b's' ∷ b't' ∷ b'o' ∷ b'r' ∷ b'y' ∷ b':' ∷ metadata_key kind key

-- `LMDBDatastore.put`
unfoldable pub put : Kind → Bytes → Bytes → Datastore → Datastore
put kind key value s = with_db kind (insert key value (db_of kind s)) s

-- `LMDBDatastore.get`
unfoldable pub get_value : Kind → Bytes → Datastore → Option Bytes
get_value kind key s = lookup key (db_of kind s)

-- A sequence number that was read back; an `int` may be negative.
pub data CurrentSeq : Type 0 where
  unknown below_zero : CurrentSeq
  at : ℕ → CurrentSeq

-- The element with index 3: `signed_update[3]` reads a map, an array or bytes.
abbrev fourth_byte : Bytes → Option Value
fourth_byte (a ∷ b ∷ c ∷ d ∷ r) = some (int d)
fourth_byte _ = none

abbrev fourth_item : Items → Option Value
fourth_item (cons a (cons b (cons c (cons d r)))) = some d
fourth_item _ = none

abbrev subscript_3 : Option Value → Option Value
subscript_3 (some (dict d)) = get d 3
subscript_3 (some (array vs)) = fourth_item vs
subscript_3 (some (bytes b)) = fourth_byte b
subscript_3 _ = none

abbrev natural_seq : Option Value → CurrentSeq
natural_seq (some (int n)) = at n
natural_seq _ = unknown

-- The metadata: a map with the keys 1 and 2, the first an `int` and no `bool`.
abbrev integer_seq : Option Value → CurrentSeq
integer_seq (some (int n)) = at n
integer_seq (some (Value.negative n)) = below_zero
integer_seq _ = unknown

abbrev pub byte_items : Items → Option (List Bytes)
byte_items nil = some []
byte_items (cons (bytes b) vs) = elim (byte_items vs) [ none ↦ none | some bs ↦ some (b ∷ bs) ]
byte_items (cons _ vs) = none

abbrev pub metadata_value : ℕ → Bytes → Value
metadata_value seq state_hash =
    dict (entry (int 1) (int seq) (entry (int 2) (bytes state_hash) end))

abbrev pub history_value : List Bytes → Value
history_value history = array (of_list (map bytes history))

abbrev pub write_history : Bytes → Option Bytes → Database → Database
write_history key none db = erase key db
write_history key (some h) db = insert key h db

-- The three writes of the transaction.
unfoldable pub install : Kind → Bytes → Bytes → Bytes → Option Bytes → Datastore → Datastore
unfolding put
install kind key value metadata history s = record (put kind key value s) {
  accepted_db =
      write_history (history_key kind key) history
        (insert (metadata_key kind key) metadata s.accepted_db);
}

abbrev pub check_history : Option (List Bytes) → Result Done
check_history (some []) =
    raise (value_error "history must be a non-empty sequence of byte envelopes")
check_history _ = ok tt

module _ (lib : Library) where
  abbrev nested_update : Option Value → Option Value
  nested_update (some (bytes b)) = lib.loads b
  nested_update _ = none

  abbrev envelope_seq : Option Value → CurrentSeq
  envelope_seq (some (dict d)) =
      if has_keys d (1 ∷ 2 ∷ [])
      then natural_seq (subscript_3 (nested_update (get d 1)))
      else if has_keys d (1 ∷ 2 ∷ 3 ∷ [])
      then natural_seq (subscript_3 (nested_update (get d 2)))
      else unknown
  envelope_seq _ = unknown

  -- `_extract_seq`
  unfoldable pub extract_seq : Bytes → CurrentSeq
  extract_seq value = envelope_seq (lib.loads value)

  abbrev decoded_seq : Option Value → CurrentSeq
  decoded_seq (some (dict d)) = if has_keys d (1 ∷ 2 ∷ []) then integer_seq (get d 1) else unknown
  decoded_seq _ = unknown

  abbrev pub metadata_seq : Option Bytes → CurrentSeq
  metadata_seq none = unknown
  metadata_seq (some b) = decoded_seq (lib.loads b)

  abbrev or_extracted : CurrentSeq → Bytes → CurrentSeq
  or_extracted unknown current = extract_seq current
  or_extracted known current = known

  -- The sequence number of the value that is stored.
  unfoldable pub current_seq : Bytes → Option Bytes → CurrentSeq
  current_seq current metadata = or_extracted (metadata_seq metadata) current

  abbrev exceeds : ℕ → CurrentSeq → Bool
  exceeds seq unknown = false
  exceeds seq below_zero = true
  exceeds seq (at n) = ltb n seq

  -- Whether the transaction goes on to write.
  unfoldable pub is_newer : ℕ → Option Bytes → Option Bytes → Bool
  unfolding current_seq
  is_newer seq (some current) metadata = exceeds seq (current_seq current metadata)
  is_newer seq none (some metadata) = false
  is_newer seq none none = true

  abbrev pub encode_history : Option (List Bytes) → Result (Option Bytes)
  encode_history none = ok none
  encode_history (some h) = do b ← or_raise (lib.dumps (history_value h)) library_error; ok (some b)

  -- `LMDBDatastore.put_if_newer`; `seq` is a natural number.
  unfoldable pub put_if_newer :
      Kind → Bytes → Bytes → ℕ → Bytes → Option (List Bytes) → Datastore → Result (Bool × Datastore)
  put_if_newer kind key value seq state_hash history s = do
    raise_if (not (length state_hash == 32)) (value_error "state_hash must be exactly 32 bytes")
    check_history history
    metadata ← or_raise (lib.dumps (metadata_value seq state_hash)) library_error
    encoded ← encode_history history
    if is_newer seq (get_value kind key s) (lookup (metadata_key kind key) s.accepted_db)
        then ok (true, install kind key value metadata encoded s)
        else ok (false, s)

  abbrev nonempty : Option (List Bytes) → Option (List Bytes)
  nonempty (some (b ∷ bs)) = some (b ∷ bs)
  nonempty _ = none

  abbrev pub decode_history : Option Value → Bytes → Option (List Bytes)
  decode_history (some (array vs)) encoded = elim (lib.dumps (array vs)) [
    | none ↦ none
    | some b ↦ if b ≟ encoded then nonempty (byte_items vs) else none
  ]
  decode_history _ encoded = none

  abbrev pub read_history : Option Bytes → Option (List Bytes)
  read_history none = none
  read_history (some encoded) = decode_history (lib.loads encoded) encoded

  -- `LMDBDatastore.get_history`
  unfoldable pub get_history : Kind → Bytes → Datastore → Option (List Bytes)
  get_history kind key s = read_history (lookup (history_key kind key) s.accepted_db)
