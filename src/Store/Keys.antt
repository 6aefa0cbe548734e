-- ===== src/Store/Keys.antt =====
-- src/decent_registry/durable_store.py: the keys of the database of accepted states.
use decent_registry.Prelude.{◌≡◌, ◌≢◌, refl, ap, ℕ, [], ◌∷◌, arith}
use decent_registry.Cbor.{Bytes}
use decent_registry.Store.{Kind, provider, identity, metadata_key, history_key}

abbrev first : Bytes → ℕ
first [] = 0
first (a ∷ r) = a

-- Two equal metadata keys are of the same kind and the same key.
pub metadata_key-inj :
    (kind kind' : Kind) (key key' : Bytes)
    → metadata_key kind key ≡ metadata_key kind' key'
    → (kind ≡ kind') × (key ≡ key')
unfolding metadata_key
metadata_key-inj provider provider key key' h = (refl, cc)
metadata_key-inj identity identity key key' h = (refl, cc)
metadata_key-inj provider identity key key' h = absurd (omega (arith, ap first h))
metadata_key-inj identity provider key key' h = absurd (omega (arith, ap first h))

pub history_key-inj :
    (kind kind' : Kind) (key key' : Bytes)
    → history_key kind key ≡ history_key kind' key'
    → (kind ≡ kind') × (key ≡ key')
unfolding history_key
history_key-inj kind kind' key key' h = metadata_key-inj kind kind' key key' cc

-- No history is stored under the key of a metadata.
pub history_key-metadata_key :
    (kind kind' : Kind) (key key' : Bytes) → history_key kind key ≢ metadata_key kind' key'
unfolding history_key metadata_key
history_key-metadata_key kind provider key key' h = absurd (omega (arith, ap first h))
history_key-metadata_key kind identity key key' h = absurd (omega (arith, ap first h))
