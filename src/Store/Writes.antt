-- ===== src/Store/Writes.antt =====
-- src/decent_registry/durable_store.py: what the transaction of `put_if_newer` writes.
use decent_registry.Prelude.{
  ◌≡◌, refl, Bool, true, false, Option, none, some, ◌≟◌, bytes_eq, sym, ≟-apart, ≟-same, ≟-true,
  if◌then◌else◌, ◌&&◌, arith,
}
use decent_registry.Prelude.Dictionary.{lookup, insert, lookup-insert, lookup-erase}
use decent_registry.Cbor.{Bytes}
use decent_registry.Store.{
  Kind, provider, identity, Datastore, Database, metadata_key, history_key, put, get_value, install,
  write_history,
}
use decent_registry.Store.Keys.{metadata_key-inj, history_key-inj, history_key-metadata_key}

abbrev same_kind : Kind → Kind → Bool
same_kind provider provider = true
same_kind identity identity = true
same_kind _ _ = false

abbrev pub same_slot : Kind → Bytes → Kind → Bytes → Bool
same_slot kind key kind' key' = same_kind kind kind' && key ≟ key'

slot_apart :
    (kind kind' : Kind) (key key' : Bytes)
    → same_slot kind key kind' key' ≡ false
    → (kind ≡ kind') × (key ≡ key')
    → ⊥
slot_apart provider provider key key' h (k, e) = ground arith
slot_apart identity identity key key' h (k, e) = ground arith
slot_apart provider identity key key' h (k, e) = absurd cc
slot_apart identity provider key key' h (k, e) = absurd cc

lookup-write_history :
    (j k : Bytes) (h : Option Bytes) (db : Database)
    → lookup j (write_history k h db) ≡ (if j ≟ k then h else lookup j db)
lookup-write_history j k none db = lookup-erase j k db
lookup-write_history j k (some h) db = lookup-insert j k h db

-- What the transaction leaves in the database of accepted states.
accepted-lookup :
    (j : Bytes) (kind : Kind) (key value metadata : Bytes) (history : Option Bytes) (s : Datastore)
    → lookup j (install kind key value metadata history s).accepted_db ≡ (
        if j ≟ history_key kind key
        then history
        else if j ≟ metadata_key kind key
        then some metadata
        else lookup j s.accepted_db)
unfolding install
accepted-lookup j kind key value metadata history s =
    rw
      (lookup-write_history j (history_key kind key) history
        (insert (metadata_key kind key) metadata s.accepted_db))
      (ground (arith, lookup-insert j (metadata_key kind key) metadata s.accepted_db))

pub get_value-install :
    (kind kind' : Kind) (key key' value metadata : Bytes) (history : Option Bytes) (s : Datastore)
    → get_value kind' key' (install kind key value metadata history s)
      ≡ (if same_slot kind key kind' key' then some value else get_value kind' key' s)
unfolding install put get_value
get_value-install provider provider key key' value metadata history s =
    ground (arith, lookup-insert key' key value s.provider_db)
get_value-install identity identity key key' value metadata history s =
    ground (arith, lookup-insert key' key value s.identity_db)
get_value-install provider identity key key' value metadata history s = refl
get_value-install identity provider key key' value metadata history s = refl

-- The entries of the key that is written.
module _ (kind : Kind) (key value metadata : Bytes) (history : Option Bytes) (s : Datastore) where
  pub metadata-install :
      lookup (metadata_key kind key) (install kind key value metadata history s).accepted_db
      ≡ some metadata
  metadata-install = rw (
    accepted-lookup (metadata_key kind key) kind key value metadata history s,
    ≟-apart (metadata_key kind key) (history_key kind key)
        (λ e. history_key-metadata_key kind kind key key (sym e)),
    ≟-same (metadata_key kind key) (metadata_key kind key) refl,
  )

  pub history-install :
      lookup (history_key kind key) (install kind key value metadata history s).accepted_db
      ≡ history
  history-install = rw (
    accepted-lookup (history_key kind key) kind key value metadata history s,
    ≟-same (history_key kind key) (history_key kind key) refl,
  )

-- The entries of another key.
module _ (kind kind' : Kind) (key key' value metadata : Bytes) (history : Option Bytes)
    (s : Datastore) (other : same_slot kind key kind' key' ≡ false) where
  pub metadata-install_other :
      lookup (metadata_key kind' key') (install kind key value metadata history s).accepted_db
      ≡ lookup (metadata_key kind' key') s.accepted_db
  metadata-install_other = rw (
    accepted-lookup (metadata_key kind' key') kind key value metadata history s,
    ≟-apart (metadata_key kind' key') (history_key kind key)
        (λ e. history_key-metadata_key kind kind' key key' (sym e)),
    ≟-apart (metadata_key kind' key') (metadata_key kind key)
        (λ e. slot_apart kind kind' key key' other (metadata_key-inj kind kind' key key' (sym e))),
  )

  pub history-install_other :
      lookup (history_key kind' key') (install kind key value metadata history s).accepted_db
      ≡ lookup (history_key kind' key') s.accepted_db
  history-install_other = rw (
    accepted-lookup (history_key kind' key') kind key value metadata history s,
    ≟-apart (history_key kind' key') (history_key kind key)
        (λ e. slot_apart kind kind' key key' other (history_key-inj kind kind' key key' (sym e))),
    ≟-apart (history_key kind' key') (metadata_key kind key)
        (history_key-metadata_key kind' kind key' key),
  )

pub slot_same :
    (kind kind' : Kind) (key key' : Bytes)
    → same_slot kind key kind' key' ≡ true
    → (kind ≡ kind') × (key ≡ key')
slot_same provider provider key key' h = (refl, ≟-true key key' h)
slot_same identity identity key key' h = (refl, ≟-true key key' h)
slot_same provider identity key key' h = absurd cc
slot_same identity provider key key' h = absurd cc

pub same_slot_refl : (kind : Kind) (key : Bytes) → same_slot kind key kind key ≡ true
same_slot_refl provider key = ≟-same key key refl
same_slot_refl identity key = ≟-same key key refl
