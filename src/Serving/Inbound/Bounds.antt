-- ===== src/Serving/Inbound/Bounds.antt =====
-- src/decent_registry/dht/serving_eligibility.py: how much the reads of a
-- `BoundedInboundDHTStream` return, in any sequence of calls.
use native.Mathlib.Nat.{add-zero}
use decent_registry.Prelude.{
  ℕ, ◌+◌, ◌≤◌, ◌<◌, Option, none, some, List, [], ◌∷◌, ◌++◌, ◌≡◌, refl, arith, length,
  length-append, ℤ, Result, Done, ok, raise, ltb, ◌≟◌, bytes_eq, take, Bool-cases, inl, inr, ltb,
}
use decent_registry.Cbor.{Bytes}
use decent_registry.Serving.Frames.{decode_varint_prefix}
use decent_registry.Serving.Frames.Prefix.{decode_varint_prefix_bounds, decode_varint_prefix_short}
use decent_registry.Serving.Deadline.{Readings, deadline_of, with_deadline}
use decent_registry.Serving.Inbound.{
  Inbound, declare_length, after_prefix, observe_chunk, receive_chunk, read_requested, inbound_read,
  inbound_write,
}

-- A call of the stream, with the clock and what the stream below answers.
pub data Call : Type 0 where
  reading : Option ℤ → Readings → (ℕ → Result Bytes) → Call
  writing : Bytes → Readings → (Bytes → Result Done) → Call

-- The bytes that a read returns.
abbrev pub read_size : Result Bytes → ℕ
read_size (ok chunk) = length chunk
read_size (raise _) = 0

module _ (encode : ℕ → Bytes) (max_bytes timeout : ℕ) where
  unfoldable pub after_call : Call → Inbound → Inbound
  after_call (reading n t answer) s = (inbound_read encode max_bytes timeout s n t answer).0
  after_call (writing sent t answer) s = (inbound_write encode max_bytes timeout s sent t answer).0

  -- The bytes that the reads of a sequence of calls return.
  unfoldable pub received : List Call → Inbound → ℕ
  unfolding after_call
  received [] s = 0
  received (reading n t answer ∷ calls) s =
      read_size (inbound_read encode max_bytes timeout s n t answer).1
      + received calls (after_call (reading n t answer) s)
  received (writing sent t answer ∷ calls) s = received calls (after_call (writing sent t answer) s)

  -- The bytes that its writes give to the stream below, those of writes that then raise included.
  unfoldable pub passed_on : List Call → Inbound → ℕ
  unfolding after_call
  passed_on [] s = 0
  passed_on (reading n t answer ∷ calls) s = passed_on calls (after_call (reading n t answer) s)
  passed_on (writing sent t answer ∷ calls) s =
      length (inbound_write encode max_bytes timeout s sent t answer).1
      + passed_on calls (after_call (writing sent t answer) s)

  -- After `r` bytes have been read: no more than the frame has, and so for each chunk.
  abbrev pub Counted : Option ℕ → Bytes → ℕ → ℕ → Type 0
  Counted none prefix payload_read r = (r ≤ length prefix) × (r < 10)
  Counted (some n) prefix payload_read r = (n ≤ max_bytes) × (r ≤ payload_read + 10) × (r ≤ n + 10)

  abbrev pub Accounts : Inbound → ℕ → Type 0
  Accounts s r = Counted s.declared s.prefix s.payload_read r

  abbrev Reads : Inbound × Result Bytes → ℕ → Type 0
  Reads (s, result) r = Accounts s (r + read_size result)

  -- Nothing is declared yet, and the chunk that ends in `s.prefix` is the last.
  record IsOpen (s : Inbound) (r : ℕ) (chunk : Bytes) : Type 0 where
    undeclared : s.declared ≡ none
    few : r < 10
    account : r + length chunk ≤ length s.prefix

  refused-Accounts : (s : Inbound) (r : ℕ) (chunk : Bytes) → IsOpen s r chunk → Accounts s (r + 0)
  refused-Accounts s r chunk w = rw (w.undeclared) (omega arith)

  declare_length-Reads :
      (s : Inbound) (n prefix_size r : ℕ) (chunk : Bytes)
      → IsOpen s r chunk
      → prefix_size ≤ 10
      → prefix_size ≤ length s.prefix
      → Reads (declare_length encode max_bytes timeout s n prefix_size chunk) r
  unfolding declare_length
  declare_length-Reads s n prefix_size r chunk w short there = elim (Bool-cases (ltb max_bytes n)) [
    | inl over ↦ rw over (refused-Accounts s r chunk w)
    | inr fits ↦ elim (Bool-cases (encode n ≟ take prefix_size s.prefix)) [
      | inr differs ↦ rw (fits, differs) (refused-Accounts s r chunk w)
      | inl same ↦ rw (fits, same) (ground arith)
    ]
  ]

  after_prefix-Reads :
      (s : Inbound) (r : ℕ) (chunk : Bytes)
      → IsOpen s r chunk
      → (decoded : Result (Option (ℕ × ℕ))) → decode_varint_prefix s.prefix ≡ decoded
      → Reads (after_prefix encode max_bytes timeout s decoded chunk) r
  unfolding after_prefix
  after_prefix-Reads s r chunk w (raise e) at_front = refused-Accounts s r chunk w
  after_prefix-Reads s r chunk w (ok none) at_front =
      let short = decode_varint_prefix_short s.prefix at_front in rw (w.undeclared) (ground arith)
  after_prefix-Reads s r chunk w (ok (some (n, prefix_size))) at_front =
      let (_, short, there) = decode_varint_prefix_bounds s.prefix at_front in
      declare_length-Reads s n prefix_size r chunk w short there

  observe_chunk-Reads :
      (s : Inbound) (r : ℕ) (chunk : Bytes) (declared : Option ℕ)
      → s.declared ≡ declared
      → Counted declared s.prefix s.payload_read r
      → Reads (observe_chunk encode max_bytes timeout s declared chunk) r
  unfolding observe_chunk
  observe_chunk-Reads s r chunk none at_start (account, few) =
      after_prefix-Reads (record s { prefix = s.prefix ++ chunk }) r chunk
        (record {
          undeclared = at_start;
          few = few;
          account = omega (arith, length-append s.prefix chunk);
        })
        (decode_varint_prefix (s.prefix ++ chunk)) refl
  observe_chunk-Reads s r chunk (some n) at_start (fits, account, total) =
      rw at_start (ground arith)

  receive_chunk-Reads :
      (s : Inbound) (r : ℕ) (outcome : Result Bytes)
      → Accounts s r
      → Reads (receive_chunk encode max_bytes timeout s outcome) r
  unfolding receive_chunk
  receive_chunk-Reads s r (raise e) a = rw add-zero a
  receive_chunk-Reads s r (ok chunk) a = elim (Bool-cases (ltb (max_bytes + 10) (length chunk))) [
    | inl over ↦ rw (over, add-zero) a
    | inr fits ↦ rw fits (observe_chunk-Reads s r chunk s.declared refl a)
  ]

  read_requested-Reads :
      (s : Inbound) (r : ℕ) (requested : Result ℕ) (t : Readings) (answer : ℕ → Result Bytes)
      → Accounts s r
      → Reads (read_requested encode max_bytes timeout s requested t answer) r
  unfolding read_requested
  read_requested-Reads s r (raise e) t answer a = rw add-zero a
  read_requested-Reads s r (ok n) t answer a =
      let deadline = deadline_of s.read_deadline timeout t in
      receive_chunk-Reads (record s { read_deadline = some deadline }) r
        (with_deadline deadline t "inbound DHT request frame timed out" (answer n)) a

  inbound_read-Reads :
      (s : Inbound) (r : ℕ) (n : Option ℤ) (t : Readings) (answer : ℕ → Result Bytes)
      → Accounts s r
      → Reads (inbound_read encode max_bytes timeout s n t answer) r
  unfolding inbound_read
  inbound_read-Reads s r n t answer a = read_requested-Reads s r _ t answer a

  Counted-le :
      (declared : Option ℕ) (prefix : Bytes) (payload_read r : ℕ)
      → Counted declared prefix payload_read r
      → r ≤ max_bytes + 10
  Counted-le none prefix payload_read r a = omega arith
  Counted-le (some n) prefix payload_read r a = omega arith

  inbound_write-Accounts :
      (s : Inbound) (r : ℕ) (sent : Bytes) (t : Readings) (answer : Bytes → Result Done)
      → Accounts s r
      → Accounts (inbound_write encode max_bytes timeout s sent t answer).0 r
  unfolding inbound_write
  inbound_write-Accounts s r sent t answer a =
      elim (Bool-cases (ltb (max_bytes + 10) (s.written_bytes + length sent))) [
        | inl over ↦ rw over a
        | inr fits ↦ rw fits a
      ]

  pub received-le_after :
      (calls : List Call) (s : Inbound) (r : ℕ)
      → Accounts s r
      → r + received calls s ≤ max_bytes + 10
  unfolding received after_call
  received-le_after [] s r a = omega (arith, Counted-le s.declared s.prefix s.payload_read r a)
  received-le_after (reading n t answer ∷ calls) s r a =
      let (s', result) = inbound_read encode max_bytes timeout s n t answer in
      omega (
        arith,
        received-le_after calls s' (r + read_size result) (inbound_read-Reads s r n t answer a),
      )
  received-le_after (writing sent t answer ∷ calls) s r a =
      received-le_after calls (inbound_write encode max_bytes timeout s sent t answer).0 r
        (inbound_write-Accounts s r sent t answer a)
