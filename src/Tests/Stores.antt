-- ===== src/Tests/Stores.antt =====
-- durable_store.py on small data.
use decent_registry.Prelude.{
  true, [], ◌∷◌, Option, none, some, ◌≡◌, refl, replicate, if◌then◌else◌, ok, bytes_eq,
}
use decent_registry.Prelude.Dictionary
use decent_registry.Cbor.{Bytes}
use decent_registry.Store.{
  Kind, provider, identity, Datastore, metadata_key, history_key, put, get_value, get_history,
  current_seq, is_newer, install, put_if_newer, metadata_value, history_value,
}
use decent_registry.Store.Keys.{metadata_key-inj}
use decent_registry.Store.Writes.{same_slot}
use decent_registry.Store.Refinement.{Accepted, supersedes, accept, Holds, put_if_newer-accept}
use decent_registry.Tests.Wire.{wire, wire_dumps, wire-IsCodec, code_value}

abbrev empty_store : Datastore
empty_store = record { provider_db = []; identity_db = []; accepted_db = [] }

abbrev state_hash : Bytes
state_hash = replicate 32 9

abbrev no_records : Kind → Bytes → Option Accepted
no_records k j = none

empty_store-Holds : (k : Kind) (j : Bytes) → Holds wire k j (no_records k j) empty_store
unfolding get_value get_history Dictionary.lookup
empty_store-Holds provider j = (refl, refl, refl)
empty_store-Holds identity j = (refl, refl, refl)

abbrev one_store : Datastore
one_store = record {
  provider_db = [];
  identity_db = (7 ∷ [], 1 ∷ 2 ∷ []) ∷ [];
  accepted_db =
      (metadata_key identity (7 ∷ []), wire_dumps (metadata_value 5 state_hash))
      ∷ (history_key identity (7 ∷ []), wire_dumps (history_value ((3 ∷ []) ∷ (4 ∷ []) ∷ [])))
      ∷ [];
}

stored :
    put_if_newer wire identity
      (7 ∷ [])
      (1 ∷ 2 ∷ [])
      5
      state_hash
      (some ((3 ∷ []) ∷ (4 ∷ []) ∷ []))
      empty_store
    ≡ ok (true, one_store)
unfolding bytes_eq metadata_key history_key put get_value current_seq is_newer install put_if_newer
    code_value Dictionary.lookup Dictionary.insert
stored = refl

put_if_newer-accept_example :
    (true ≡ supersedes 5 (no_records identity (7 ∷ [])))
    × ((k : Kind) (j : Bytes)
        → Holds wire k j
            (if same_slot identity (7 ∷ []) k j
              then accept
                  (record {
                    value = 1 ∷ 2 ∷ [];
                    seq = 5;
                    history = some ((3 ∷ []) ∷ (4 ∷ []) ∷ []);
                  })
                  (no_records k j)
              else no_records k j)
            one_store)
put_if_newer-accept_example =
    put_if_newer-accept wire wire-IsCodec no_records identity (7 ∷ []) (1 ∷ 2 ∷ []) 5 state_hash
      (some ((3 ∷ []) ∷ (4 ∷ []) ∷ [])) empty_store one_store true empty_store-Holds stored

abbrev slot : Bytes
slot = 7 ∷ 8 ∷ []

metadata_key-inj_example : (identity ≡ identity) × (slot ≡ slot)
metadata_key-inj_example = metadata_key-inj identity identity slot slot refl
