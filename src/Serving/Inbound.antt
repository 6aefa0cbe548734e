-- ===== src/Serving/Inbound.antt =====
-- src/decent_registry/dht/serving_eligibility.py: `BoundedInboundDHTStream`, the server's side.
-- A method returns the object as it leaves it, with its result or exception.
pub mod Bounds
pub mod Writes
pub mod Chunks
use decent_registry.Prelude.{
  ℕ, ◌+◌, ◌-◌, Bool, not, Option, none, some, List, [], ◌∷◌, ◌++◌, ltb, leb, if◌then◌else◌, length,
  take, ℤ, Result, Done, ok, raise, value_error, timeout_error, ◌>>=◌, ◌>>◌, raise_if, ◌≟◌,
  bytes_eq,
}
use decent_registry.Cbor.{Bytes}
use decent_registry.Serving.Frames.{decode_varint_prefix}
use decent_registry.Serving.Deadline.{Readings, deadline_of, with_deadline, requested_size}

pub record Inbound : Type 0 where
  pub prefix : Bytes
  pub declared : Option ℕ
  pub payload_read : ℕ
  pub read_deadline : Option ℕ
  pub write_deadline : Option ℕ
  pub written_bytes : ℕ

abbrev pub new_inbound : Inbound
new_inbound = record {
  prefix = [];
  declared = none;
  payload_read = 0;
  read_deadline = none;
  write_deadline = none;
  written_bytes = 0;
}

-- The last test of `read`.
abbrev pub within_declared : Inbound → ℕ → Bytes → Inbound × Result Bytes
within_declared s declared chunk = (
  s,
  raise_if (ltb declared s.payload_read) (value_error "inbound DHT frame exceeds declared length")
      >> ok chunk,
)

module _ (encode : ℕ → Bytes) (max_bytes timeout : ℕ) where
  -- The length that the prefix declares; `s` holds the prefix.
  unfoldable pub declare_length : Inbound → ℕ → ℕ → Bytes → Inbound × Result Bytes
  declare_length s n prefix_size chunk =
      if ltb max_bytes n
      then (s, raise (value_error "oversize inbound DHT frame"))
      else if not (encode n ≟ take prefix_size s.prefix)
      then (s, raise (value_error "non-canonical inbound DHT frame length"))
      else within_declared
          (record s { declared = some n; payload_read = length s.prefix - prefix_size }) n chunk

  unfoldable pub after_prefix : Inbound → Result (Option (ℕ × ℕ)) → Bytes → Inbound × Result Bytes
  unfolding declare_length
  after_prefix s (raise e) chunk = (s, raise e)
  after_prefix s (ok none) chunk = (
    s,
    raise_if (leb 10 (length s.prefix)) (value_error "malformed inbound DHT frame length")
        >> ok chunk,
  )
  after_prefix s (ok (some (n, prefix_size))) chunk = declare_length s n prefix_size chunk

  -- What `read` does with a chunk once its size has been checked.
  unfoldable pub observe_chunk : Inbound → Option ℕ → Bytes → Inbound × Result Bytes
  unfolding after_prefix
  observe_chunk s none chunk =
      let prefix = s.prefix ++ chunk in
      after_prefix (record s { prefix = prefix }) (decode_varint_prefix prefix) chunk
  observe_chunk s (some n) chunk =
      within_declared (record s { payload_read = s.payload_read + length chunk }) n chunk

  unfoldable pub receive_chunk : Inbound → Result Bytes → Inbound × Result Bytes
  unfolding observe_chunk
  receive_chunk s (raise e) = (s, raise e)
  receive_chunk s (ok chunk) =
      if ltb (max_bytes + 10) (length chunk)
      then (s, raise (value_error "oversize inbound DHT frame"))
      else observe_chunk s s.declared chunk

  -- `answer` is `read` of the stream below.
  unfoldable pub read_requested :
      Inbound → Result ℕ → Readings → (ℕ → Result Bytes) → Inbound × Result Bytes
  unfolding receive_chunk
  read_requested s (raise e) t answer = (s, raise e)
  read_requested s (ok requested) t answer =
      let deadline = deadline_of s.read_deadline timeout t in
      receive_chunk (record s { read_deadline = some deadline })
        (with_deadline deadline t "inbound DHT request frame timed out" (answer requested))

  unfoldable pub inbound_read :
      Inbound → Option ℤ → Readings → (ℕ → Result Bytes) → Inbound × Result Bytes
  unfolding read_requested
  inbound_read s n t answer =
      read_requested s
        (requested_size n max_bytes (max_bytes + 11) "negative inbound DHT stream read length"
          "oversize inbound DHT frame")
        t answer

  -- `write` of the stream below, under the deadline.
  unfoldable pub write_with_deadline :
      ℕ → Bytes → Readings → (Bytes → Result Done) → Bytes × Result Done
  write_with_deadline deadline sent t answer =
      if leb deadline t.now
      then ([], raise (timeout_error "inbound DHT response write timed out"))
      else (sent, answer sent)

  -- `answer` is `write` of the stream below, whose exceptions include the one of `fail_after`. The
  -- second part of the result is what that stream has been given, whatever it answers.
  unfoldable pub inbound_write :
      Inbound → Bytes → Readings → (Bytes → Result Done) → Inbound × Bytes × Result Done
  unfolding write_with_deadline
  inbound_write s sent t answer =
      let written = s.written_bytes + length sent in
      if ltb (max_bytes + 10) written
      then (
        record s { written_bytes = written },
        [],
        raise (value_error "oversize inbound DHT response"),
      )
      else let deadline = deadline_of s.write_deadline timeout t in
        let outcome = write_with_deadline deadline sent t answer in
        (record s { written_bytes = written; write_deadline = some deadline }, outcome.0, outcome.1)
