-- ===== src/Cbor.antt =====
-- The Python values that `cbor2.loads` gives and `cbor2.dumps` takes, and the calls of other
-- packages, which are parameters: cbor2, hashlib, libp2p's Ed25519, urllib and ipaddress.
pub mod Codec
use decent_registry.Prelude.{
  ◌≡◌, refl, ap, ℕ, Bool, true, false, ◌&&◌, ◌||◌, Option, none, some, List, [], ◌∷◌, ◌==◌,
  if◌then◌else◌, arith,
}

abbrev pub Bytes : Type 0
Bytes = List ℕ

-- A `str` is its UTF-8 encoding: `cbor2` decodes no lone surrogate, equal texts have equal
-- encodings, and the order of code points is the order of the encodings.
abbrev pub Text : Type 0
Text = List ℕ

-- `negative n` is the integer -1 - n. A `float` holds the natural number that it equals, if any,
-- and its bits. `other` is any further object (a tag, a simple value, a date).
mutual
  pub data Value : Type 0 where
    null : Value
    bool : Bool → Value
    int : ℕ → Value
    negative : ℕ → Value
    float : Option ℕ → ℕ → Value
    bytes : List ℕ → Value
    text : List ℕ → Value
    array : Items → Value
    dict : Entries → Value
    other : ℕ → Value

  pub data Items : Type 0 where
    nil : Items
    cons : Value → Items → Items

  pub data Entries : Type 0 where
    end : Entries
    entry : Value → Value → Entries → Entries

abbrev pub elements : Items → List Value
elements nil = []
elements (cons v vs) = v ∷ elements vs

abbrev pub of_list : List Value → Items
of_list [] = nil
of_list (v ∷ vs) = cons v (of_list vs)

-- `v == n`, where `True == 1`, `False == 0` and `2.0 == 2`.
abbrev pub equals_number : Value → ℕ → Bool
equals_number (bool true) n = n == 1
equals_number (bool false) n = n == 0
equals_number (int m) n = m == n
equals_number (float (some m) _) n = m == n
equals_number _ n = false

-- `d.get(n)`; the keys of a dict differ.
abbrev pub get : Entries → ℕ → Option Value
get end n = none
get (entry k v d) n = if equals_number k n then some v else get d n

abbrev pub has_key : Entries → ℕ → Bool
has_key end n = false
has_key (entry k v d) n = equals_number k n || has_key d n

abbrev pub is_one_of : Value → List ℕ → Bool
is_one_of k [] = false
is_one_of k (n ∷ ns) = equals_number k n || is_one_of k ns

-- `set(d) <= ns`
abbrev pub keys_within : Entries → List ℕ → Bool
keys_within end ns = true
keys_within (entry k v d) ns = is_one_of k ns && keys_within d ns

-- `ns <= set(d)`
abbrev pub covers : Entries → List ℕ → Bool
covers d [] = true
covers d (n ∷ ns) = has_key d n && covers d ns

-- `set(d) == ns`
abbrev pub has_keys : Entries → List ℕ → Bool
has_keys d ns = keys_within d ns && covers d ns

abbrev pub is_empty : Entries → Bool
is_empty end = true
is_empty (entry _ _ _) = false

-- `urllib.parse.urlsplit`
pub record SplitResult : Type 0 where
  pub scheme : Text
  pub netloc : Text
  pub path : Text
  pub query : Text
  pub fragment : Text

-- What the program calls and does not implement. `none` is an exception.
pub record Library : Type 0 where
  -- `cbor2.loads(data)`
  pub loads : Bytes → Option Value
  -- `cbor2.dumps(value, canonical=True)`
  pub dumps : Value → Option Bytes
  -- `hashlib.sha256(data).digest()`
  pub sha256 : Bytes → Bytes
  -- `_pubkey_from_bytes(raw).verify(data, signature)`
  pub verify : Bytes → Bytes → Bytes → Option Bool
  -- `urllib.parse.urlsplit(url)`
  pub urlsplit : Text → Option SplitResult
  -- whether `ipaddress.IPv6Address(text)` returns
  pub is_ipv6 : Text → Bool

pub elements-of_list : (vs : List Value) → elements (of_list vs) ≡ vs
elements-of_list [] = refl
elements-of_list (v ∷ vs) = ap (◌∷◌ v) (elements-of_list vs)

pub get-has_key : (d : Entries) (n : ℕ) → has_key d n ≡ false → get d n ≡ none
get-has_key end n h = refl
get-has_key (entry k v d) n h = ground (arith, get-has_key d n)
