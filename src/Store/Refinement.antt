-- ===== src/Store/Refinement.antt =====
-- src/decent_registry/durable_store.py: `put_if_newer` against a map of accepted records.
use decent_registry.Prelude.{
  ◌≡◌, ℕ, Bool, true, false, Option, none, some, List, ltb, bytes_eq, Bool-cases, inl, inr,
  if◌then◌else◌, ok, succeeded, present, arith,
}
use decent_registry.Prelude.Dictionary.{lookup}
use decent_registry.Cbor.{Bytes, Library}
use decent_registry.Cbor.Codec.{IsCodec}
use decent_registry.Store.{
  Kind, Datastore, at, metadata_key, get_value, get_history, metadata_value, check_history,
  encode_history, current_seq, is_newer, install, put_if_newer,
}
use decent_registry.Store.Writes.{
  same_slot, same_slot_refl, slot_same, get_value-install, metadata-install, history-install,
  metadata-install_other, history-install_other,
}
use decent_registry.Store.Reads.{metadata_value-read, read_history-encode_history}

-- What the store holds for one key.
pub record Accepted : Type 0 where
  pub value : Bytes
  pub seq : ℕ
  pub history : Option (List Bytes)

-- The abstract step: a record replaces none, or one with a smaller sequence number.
abbrev pub supersedes : ℕ → Option Accepted → Bool
supersedes seq none = true
supersedes seq (some a) = ltb a.seq seq

abbrev pub accept : Accepted → Option Accepted → Option Accepted
accept a old = if supersedes a.seq old then some a else old

module _ (lib : Library) where
  -- What the store gives for a key, and the sequence number that the next call compares with.
  abbrev pub Holds : Kind → Bytes → Option Accepted → Datastore → Type 0
  Holds kind key none s =
      (get_value kind key s ≡ none)
      × (lookup (metadata_key kind key) s.accepted_db ≡ none)
      × (get_history lib kind key s ≡ none)
  Holds kind key (some a) s =
      (get_value kind key s ≡ some a.value)
      × (current_seq lib a.value (lookup (metadata_key kind key) s.accepted_db) ≡ at a.seq)
      × (get_history lib kind key s ≡ a.history)

  -- The slot that is written holds the record.
  install-Holds :
      IsCodec lib
      → (kind : Kind) (key value : Bytes) (seq : ℕ) (state_hash metadata : Bytes)
        (history : Option (List Bytes)) (encoded : Option Bytes) (s : Datastore)
      → lib.dumps (metadata_value seq state_hash) ≡ some metadata
      → check_history history ≡ ok tt
      → encode_history lib history ≡ ok encoded
      → Holds kind key
          (some (record { value = value; seq = seq; history = history }))
          (install kind key value metadata encoded s)
  unfolding get_history
  install-Holds codec kind key value seq state_hash metadata history encoded s wrote nonempty
        coded =
      (
        rw (get_value-install kind kind key key value metadata encoded s, same_slot_refl kind key),
        rw (metadata-install kind key value metadata encoded s)
            (metadata_value-read lib codec value seq state_hash metadata wrote),
        rw (history-install kind key value metadata encoded s)
            (read_history-encode_history lib codec history encoded nonempty coded),
      )

  -- Every other slot is left as it was.
  install-Holds_other :
      (kind kind' : Kind) (key key' value metadata : Bytes) (encoded : Option Bytes)
      (o : Option Accepted) (s : Datastore)
      → same_slot kind key kind' key' ≡ false
      → Holds kind' key' o s
      → Holds kind' key' o (install kind key value metadata encoded s)
  unfolding get_history
  install-Holds_other kind kind' key key' value metadata encoded none s other h =
      rw
        (
          get_value-install kind kind' key key' value metadata encoded s,
          other,
          metadata-install_other kind kind' key key' value metadata encoded s other,
          history-install_other kind kind' key key' value metadata encoded s other,
        )
        h
  install-Holds_other kind kind' key key' value metadata encoded (some a) s other h =
      rw
        (
          get_value-install kind kind' key key' value metadata encoded s,
          other,
          metadata-install_other kind kind' key key' value metadata encoded s other,
          history-install_other kind kind' key key' value metadata encoded s other,
        )
        h

  is_newer-supersedes :
      (kind : Kind) (key : Bytes) (seq : ℕ) (o : Option Accepted) (s : Datastore)
      → Holds kind key o s
      → is_newer lib seq (get_value kind key s) (lookup (metadata_key kind key) s.accepted_db)
        ≡ supersedes seq o
  unfolding is_newer
  is_newer-supersedes kind key seq none s (v, m, h) = rw (v, m)
  is_newer-supersedes kind key seq (some a) s (v, m, h) = rw (v, m)

  -- The slots after a record that is accepted, and after one that is not.
  accepted :
      IsCodec lib
      → (f : Kind → Bytes → Option Accepted) (kind : Kind) (key value : Bytes) (seq : ℕ)
        (state_hash metadata : Bytes) (history : Option (List Bytes)) (encoded : Option Bytes)
        (s : Datastore)
      → ((k : Kind) (j : Bytes) → Holds k j (f k j) s)
      → supersedes seq (f kind key) ≡ true
      → lib.dumps (metadata_value seq state_hash) ≡ some metadata
      → check_history history ≡ ok tt
      → encode_history lib history ≡ ok encoded
      → (k : Kind) (j : Bytes)
      → Holds k j
          (if same_slot kind key k j
            then accept (record { value = value; seq = seq; history = history }) (f k j)
            else f k j)
          (install kind key value metadata encoded s)
  accepted codec f kind key value seq state_hash metadata history encoded s holds newer wrote
        nonempty coded k j =
      elim (Bool-cases (same_slot kind key k j)) [
        | inl same ↦
            let (e, e') = slot_same kind k key j same in
            rw (same, ← e, ← e', newer)
              (install-Holds codec kind key value seq state_hash metadata history encoded s wrote
                nonempty coded)
        | inr other ↦
            rw other
              (install-Holds_other kind k key j value metadata encoded (f k j) s other (holds k j))
      ]

  refused :
      (f : Kind → Bytes → Option Accepted) (kind : Kind) (key : Bytes) (a : Accepted)
      (s : Datastore)
      → ((k : Kind) (j : Bytes) → Holds k j (f k j) s)
      → supersedes a.seq (f kind key) ≡ false
      → (k : Kind) (j : Bytes)
      → Holds k j (if same_slot kind key k j then accept a (f k j) else f k j) s
  refused f kind key a s holds older k j = elim (Bool-cases (same_slot kind key k j)) [
    | inl same ↦
        let (e, e') = slot_same kind k key j same in rw (same, ← e, ← e', older) (holds kind key)
    | inr other ↦ rw other (holds k j)
  ]

  -- On a store that holds the map `f`, a call that returns, returns whether its slot is empty or has
  -- a smaller sequence number, and afterwards the store holds the map in which the slot has accepted
  -- the record. What the store holds is what `get` and `get_history` return and the number that the
  -- next call compares with. `loads` reads back what `dumps` wrote.
  pub put_if_newer-accept :
      IsCodec lib
      → (f : Kind → Bytes → Option Accepted) (kind : Kind) (key value : Bytes) (seq : ℕ)
        (state_hash : Bytes) (history : Option (List Bytes)) (s s' : Datastore) (b : Bool)
      → ((k : Kind) (j : Bytes) → Holds k j (f k j) s)
      → put_if_newer lib kind key value seq state_hash history s ≡ ok (b, s')
      → (b ≡ supersedes seq (f kind key))
        × ((k : Kind) (j : Bytes)
            → Holds k j
                (if same_slot kind key k j
                  then accept (record { value = value; seq = seq; history = history }) (f k j)
                  else f k j)
                s')
  unfolding put_if_newer
  put_if_newer-accept codec f kind key value seq state_hash history s s' b holds h =
      succeeded (check_history history) (λ e x. ground arith)
        λ done nonempty.
          present (lib.dumps (metadata_value seq state_hash)) (λ e. ground arith)
            λ metadata wrote.
              succeeded (encode_history lib history) (λ e x. ground arith)
                λ encoded coded.
                  let newer = is_newer-supersedes kind key seq (f kind key) s (holds kind key) in
                  elim (Bool-cases (supersedes seq (f kind key))) [
                    | inl newer_seq ↦
                        let written : s' ≡ install kind key value metadata encoded s =
                          ground arith in
                        (
                          ground arith,
                          rw written (
                              accepted codec f kind key value seq state_hash metadata history
                                encoded s holds newer_seq wrote nonempty coded),
                        )
                    | inr older_seq ↦
                        let unchanged : s' ≡ s = ground arith in
                        (
                          ground arith,
                          rw unchanged (
                              refused f kind key
                                (record { value = value; seq = seq; history = history }) s holds
                                older_seq),
                        )
                  ]
