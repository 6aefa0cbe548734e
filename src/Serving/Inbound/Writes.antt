-- ===== src/Serving/Inbound/Writes.antt =====
-- src/decent_registry/dht/serving_eligibility.py: how much a `BoundedInboundDHTStream` lets through
-- in any sequence of reads and writes.
use decent_registry.Prelude.{
  ℕ, ◌+◌, ◌≤◌, Option, none, some, List, [], ◌∷◌, ◌++◌, ◌≡◌, refl, arith, length, ℤ, Result, Done,
  ok, raise,
}
use decent_registry.Cbor.{Bytes}
use decent_registry.Serving.Frames.{decode_varint_prefix}
use decent_registry.Serving.Deadline.{Readings, deadline_of}
use decent_registry.Serving.Inbound.{
  Inbound, new_inbound, declare_length, after_prefix, observe_chunk, receive_chunk, read_requested,
  inbound_read, write_with_deadline, inbound_write,
}
use decent_registry.Serving.Inbound.Bounds.{
  Call, reading, writing, after_call, received, passed_on, received-le_after,
}

module _ (encode : ℕ → Bytes) (max_bytes timeout : ℕ) where
  declare_length-written :
      (s : Inbound) (n prefix_size : ℕ) (chunk : Bytes)
      → (declare_length encode max_bytes timeout s n prefix_size chunk).0.written_bytes
        ≡ s.written_bytes
  unfolding declare_length
  declare_length-written s n prefix_size chunk = ground arith

  after_prefix-written :
      (s : Inbound) (decoded : Result (Option (ℕ × ℕ))) (chunk : Bytes)
      → (after_prefix encode max_bytes timeout s decoded chunk).0.written_bytes ≡ s.written_bytes
  unfolding after_prefix
  after_prefix-written s (raise e) chunk = refl
  after_prefix-written s (ok none) chunk = refl
  after_prefix-written s (ok (some (n, size))) chunk = declare_length-written s n size chunk

  observe_chunk-written :
      (s : Inbound) (declared : Option ℕ) (chunk : Bytes)
      → (observe_chunk encode max_bytes timeout s declared chunk).0.written_bytes ≡ s.written_bytes
  unfolding observe_chunk
  observe_chunk-written s none chunk =
      after_prefix-written (record s { prefix = s.prefix ++ chunk })
        (decode_varint_prefix (s.prefix ++ chunk)) chunk
  observe_chunk-written s (some n) chunk = refl

  receive_chunk-written :
      (s : Inbound) (outcome : Result Bytes)
      → (receive_chunk encode max_bytes timeout s outcome).0.written_bytes ≡ s.written_bytes
  unfolding receive_chunk
  receive_chunk-written s (raise e) = refl
  receive_chunk-written s (ok chunk) = ground (arith, observe_chunk-written s s.declared chunk)

  read_requested-written :
      (s : Inbound) (requested : Result ℕ) (t : Readings) (answer : ℕ → Result Bytes)
      → (read_requested encode max_bytes timeout s requested t answer).0.written_bytes
        ≡ s.written_bytes
  unfolding read_requested
  read_requested-written s (raise e) t answer = refl
  read_requested-written s (ok n) t answer =
      receive_chunk-written
        (record s { read_deadline = some (deadline_of s.read_deadline timeout t) }) _

  inbound_read-written :
      (s : Inbound) (n : Option ℤ) (t : Readings) (answer : ℕ → Result Bytes)
      → (inbound_read encode max_bytes timeout s n t answer).0.written_bytes ≡ s.written_bytes
  unfolding inbound_read
  inbound_read-written s n t answer = read_requested-written s _ t answer

  -- A write counts its bytes, and gives them to the stream below only within the bound.
  inbound_write_within :
      (s : Inbound) (w : ℕ) (sent : Bytes) (t : Readings) (answer : Bytes → Result Done)
      → (w ≤ s.written_bytes) × (w ≤ max_bytes + 10)
      → let (s', given, _) = inbound_write encode max_bytes timeout s sent t answer in
        (w + length given ≤ s'.written_bytes) × (w + length given ≤ max_bytes + 10)
  unfolding inbound_write write_with_deadline
  inbound_write_within s w sent t answer a = ground arith

  passed_on-le_after :
      (calls : List Call) (s : Inbound) (w : ℕ)
      → (w ≤ s.written_bytes) × (w ≤ max_bytes + 10)
      → w + passed_on encode max_bytes timeout calls s ≤ max_bytes + 10
  unfolding passed_on after_call
  passed_on-le_after [] s w a = omega arith
  passed_on-le_after (reading n t answer ∷ calls) s w a =
      passed_on-le_after calls (inbound_read encode max_bytes timeout s n t answer).0 w
        (omega (arith, inbound_read-written s n t answer))
  passed_on-le_after (writing sent t answer ∷ calls) s w a =
      let (s', given, _) = inbound_write encode max_bytes timeout s sent t answer in
      omega (
        arith,
        passed_on-le_after calls s' (w + length given) (inbound_write_within s w sent t answer a),
      )

  -- Whatever the other side sends and however it is cut into chunks, the reads of a stream return
  -- together no more than the bound and ten bytes of prefix. Its writes give no more than that to the
  -- stream below, in any sequence of calls, the bytes of writes that then raise or time out
  -- included.
  pub stream_bounds :
      (calls : List Call)
      → (received encode max_bytes timeout calls new_inbound ≤ max_bytes + 10)
        × (passed_on encode max_bytes timeout calls new_inbound ≤ max_bytes + 10)
  stream_bounds calls = (
    omega (arith, received-le_after encode max_bytes timeout calls new_inbound 0 (omega arith)),
    omega (arith, passed_on-le_after calls new_inbound 0 (omega arith)),
  )
