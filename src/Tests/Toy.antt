-- ===== src/Tests/Toy.antt =====
-- A stand-in for the packages that the program calls, and a lineage of three updates under it.
use decent_registry.Prelude.{
  ℕ, zero, false, Option, none, some, List, [], ◌∷◌, ◌++◌, ◌≟◌, bytes_eq, take, replicate, ◌==◌,
  if◌then◌else◌,
}
use decent_registry.Cbor.{Bytes, Library, Value, int, bytes, dict, Entries, entry, end, get}
use decent_registry.Encoding.Authorization.{Authorization, Signer}
use decent_registry.Encoding.Update.{SignedUpdate, update_value}
use decent_registry.Envelope.{Proof, envelope_value, legacy_envelope_value}
use decent_registry.Verification.Candidate.{MultisignatureState, zero_hash}

abbrev pub key_a : Bytes
key_a = replicate 32 1

abbrev pub key_b : Bytes
key_b = replicate 32 2

abbrev pub key_c : Bytes
key_c = replicate 32 3

abbrev pub key_d : Bytes
key_d = replicate 32 4

-- The digest is the data, padded.
abbrev pub toy_sha256 : Bytes → Bytes
toy_sha256 b = take 32 (b ++ zero_hash)

-- A signature is the key twice.
abbrev pub sign : Bytes → Bytes
sign key = key ++ key

abbrev pub signers : List Signer
signers = (b'a' ∷ [], key_a) ∷ (b'b' ∷ [], key_b) ∷ (b'c' ∷ [], key_c) ∷ []

abbrev pub new_signers : List Signer
new_signers = (b'a' ∷ [], key_a) ∷ (b'b' ∷ [], key_b) ∷ (b'd' ∷ [], key_d) ∷ []

-- The identity is called by the byte 7.
abbrev pub name : Bytes
name = 7 ∷ []

abbrev pub key : Bytes
key = toy_sha256 name

abbrev pub identity : Bytes → Entries
identity owner = entry (int 1) (bytes name) (entry (int 2) (bytes owner) end)

abbrev pub authorization : ℕ → ℕ → List Signer → Bytes → Authorization
authorization operation epoch set predecessor = record {
  scheme = 1;
  record_kind = 1;
  operation = operation;
  epoch = epoch;
  threshold = 2;
  signer_set = set;
  predecessor = predecessor;
}

abbrev pub update : Bytes → ℕ → Option Authorization → SignedUpdate
update owner seq auth = record {
  record_fields = identity owner;
  payload = end;
  seq = seq;
  authorization = auth;
}

-- Updates by their `seq`: 1 genesis, 2 ordinary, 3 replacement of the signers; 4 legacy, 5 its
-- rotation, 8 its upgrade, 9 a rotation of the upgrade.
abbrev pub updates : ℕ → Option SignedUpdate
updates n =
    if n == 1
    then some (update key_a 1 (some (authorization 1 1 signers zero_hash)))
    else if n == 2
    then some (update key_a 2 (some (authorization 2 1 signers (toy_sha256 (1 ∷ [])))))
    else if n == 3
    then some (update key_a 3 (some (authorization 3 2 new_signers (toy_sha256 (2 ∷ [])))))
    else if n == 4
    then some (update key_a 4 none)
    else if n == 5
    then some (update key_b 5 (some (authorization 5 1 signers (toy_sha256 (4 ∷ [])))))
    else if n == 8
    then some (update key_a 8 (some (authorization 4 1 signers (toy_sha256 (4 ∷ [])))))
    else if n == 9
    then some (update key_b 9 (some (authorization 5 1 signers (toy_sha256 (8 ∷ [])))))
    else none

abbrev pub two_proofs : List Proof
two_proofs = (some (b'a' ∷ []), sign key_a) ∷ (some (b'b' ∷ []), sign key_b) ∷ []

abbrev pub proofs_of : ℕ → List Proof
proofs_of n =
    if n == 8
    then (some (b'a' ∷ []), sign key_a) ∷ []
    else if n == 5
    then (none, sign key_a) ∷ []
    else two_proofs

abbrev envelope_of : ℕ → Value
envelope_of n =
    if n == 4
    then legacy_envelope_value (4 ∷ []) (sign key_a)
    else envelope_value (n ∷ []) (proofs_of n)

-- The encoding of an update is its `seq`; that of an envelope begins with a zero.
abbrev toy_loads : Bytes → Option Value
toy_loads (n ∷ []) = elim (updates n) [ none ↦ none | some u ↦ some (update_value u) ]
toy_loads (zero ∷ n ∷ []) = some (envelope_of n)
toy_loads _ = none

abbrev bytes_code : Option Value → Option Bytes
bytes_code (some (bytes b)) = some (0 ∷ b)
bytes_code _ = none

-- An update has a number at key 3, a multisignature envelope has proofs there.
abbrev dict_code : Option Value → Entries → Option Bytes
dict_code (some (int n)) d = some (n ∷ [])
dict_code none d = bytes_code (get d 1)
dict_code (some _) d = bytes_code (get d 2)

abbrev toy_dumps : Value → Option Bytes
toy_dumps (dict d) = dict_code (get d 3) d
toy_dumps _ = none

abbrev pub toy : Library
toy = record {
  loads = toy_loads;
  dumps = toy_dumps;
  sha256 = toy_sha256;
  verify = λ k message signature. some (k ≟ take 32 signature);
  urlsplit = λ url. none;
  is_ipv6 = λ literal. false;
}

abbrev pub envelope : ℕ → Bytes
envelope n = 0 ∷ n ∷ []

abbrev pub state : Bytes → ℕ → ℕ → List Signer → List Bytes → MultisignatureState
state owner seq epoch set history = record {
  record_key = key;
  record_kind = 1;
  owner_public_key = owner;
  signed_update_bytes = seq ∷ [];
  state_hash = toy_sha256 (seq ∷ []);
  epoch = epoch;
  seq = seq;
  threshold = 2;
  signer_set = set;
  history = some history;
}
