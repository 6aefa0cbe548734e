-- ===== src/Tests/Streams.antt =====
-- Frames and streams of src/decent_registry/dht/serving_eligibility.py on small data.
use decent_registry.Prelude.{
  ℕ, zero, suc, ◌+◌, ◌/◌, ◌%◌, ◌<◌, ◌≤◌, true, none, some, List, [], ◌∷◌, ◌++◌, ◌≡◌, refl, ap, ◌↔◌,
  arith, ltb, if◌then◌else◌, length, Bool-cases, inl, inr, ok, pos, bytes_eq, All,
}
use decent_registry.Cbor.{Bytes}
use decent_registry.Serving.Frames.{
  IsVarint, max_dht_message_size, decode_varint_prefix, read_bounded_dht_frame,
}
use decent_registry.Serving.Frames.Canonical.{read_bounded_dht_frame_iff}
use decent_registry.Serving.Deadline.{Readings}
use decent_registry.Serving.Inbound.{Inbound, new_inbound}
use decent_registry.Serving.Inbound.Bounds as Served
use decent_registry.Serving.Inbound.Writes.{stream_bounds}
use decent_registry.Serving.Inbound.Chunks.{Round, read_rounds, read_rounds_frame}
use decent_registry.Serving.Messages.{
  Message, MessageLibrary, scan_fields, contains_type_field, validate_dht_response,
}
use decent_registry.Serving.Messages.Fields.{contains_type_field_returns}
use decent_registry.Serving.Outbound.{
  new_outbound, outbound_write, outbound_read, track_request, write_tracked, observe_request,
  framed_request, parsed_request, request_response, receive_response, observe_response,
  declare_response, finish_response, check_response,
}
use decent_registry.Serving.Outbound.Proofs.{IsProof}
use decent_registry.Serving.Outbound.Calls as Asked
use decent_registry.Serving.Outbound.Calls.{recordings, recordings-IsProof}

-- The encoding that `varint` documents, with fuel.
groups : ℕ → ℕ → Bytes
groups zero n = []
groups (suc f) n =
    let rest = (n % 128 + 128) ∷ groups f (n / 128) in if ltb n 128 then n ∷ [] else rest

groups-fuel : (f g n : ℕ) → n < f → n < g → groups f n ≡ groups g n
unfolding groups
groups-fuel zero g n h k = elim h [ ]
groups-fuel (suc f) zero n h k = elim k [ ]
groups-fuel (suc f) (suc g) n h k = elim (Bool-cases (ltb n 128)) [
  | inl small ↦ rw small refl
  | inr large ↦
      rw large (ap (◌∷◌ (n % 128 + 128)) (groups-fuel f g (n / 128) (ground arith) (ground arith)))
]

encode_varint : ℕ → Bytes
unfolding groups
encode_varint n = groups (suc n) n

encode_varint-IsVarint : IsVarint encode_varint
unfolding encode_varint groups
encode_varint-IsVarint = record {
  last_group = λ n h. ground arith;
  more_groups = λ n h. ground (arith, groups-fuel n (suc (n / 128)) (n / 128));
}

abbrev frame : Bytes
frame = 3 ∷ 8 ∷ 4 ∷ 1 ∷ []

abbrev payload : Bytes
payload = 8 ∷ 4 ∷ 1 ∷ []

abbrev at : ℕ → Readings
at t = record { begun = t; now = t }

decode_two_bytes : decode_varint_prefix (172 ∷ 2 ∷ 9 ∷ []) ≡ ok (some (300, 2))
unfolding decode_varint_prefix
decode_two_bytes = refl

read_bounded_dht_frame_iff_example :
    (read_bounded_dht_frame encode_varint max_dht_message_size frame ≡ ok payload) ↔ (
      (frame ≡ encode_varint (length payload) ++ payload) × (length payload ≤ max_dht_message_size))
read_bounded_dht_frame_iff_example =
    read_bounded_dht_frame_iff encode_varint encode_varint-IsVarint max_dht_message_size frame
      payload (omega arith)

-- Two reads of the frame and the write of an answer.
abbrev served : List Served.Call
served =
    Served.reading none (at 5) (λ n. ok (3 ∷ 8 ∷ []))
    ∷ Served.reading (some (pos 2)) (at 6) (λ n. ok (4 ∷ 1 ∷ []))
    ∷ Served.writing frame (at 7) (λ b. ok tt)
    ∷ []

stream_bounds_example :
    (Served.received encode_varint 100 15 served new_inbound ≤ 110)
    × (Served.passed_on encode_varint 100 15 served new_inbound ≤ 110)
stream_bounds_example = stream_bounds encode_varint 100 15 served

abbrev rounds : List Round
rounds =
    record { size = none; clock = at 5; chunk = 3 ∷ 8 ∷ [] }
    ∷ record { size = some (pos 2); clock = at 6; chunk = 4 ∷ 1 ∷ [] }
    ∷ []

read_rounds_frame_example :
    (s : Inbound) × (read_rounds encode_varint 100 15 new_inbound rounds ≡ ok s)
    × (s.declared ≡ some (length payload))
    × (s.payload_read ≡ length payload)
unfolding encode_varint groups
read_rounds_frame_example =
    read_rounds_frame encode_varint 100 15 payload 5 rounds encode_varint-IsVarint (omega arith)
      (omega arith) refl (omega arith)

abbrev answer_message : Message
answer_message = record {
  byte_size = 3;
  kind = 4;
  key = 1 ∷ [];
  record_key = none;
  closer_peers = [];
  provider_peers = [];
}

abbrev messages : MessageLibrary
messages = record {
  parse = λ b. some answer_message;
  is_multihash = λ b. true;
  is_multiaddr = λ b. true;
  put_value = 0;
  get_value = 1;
  add_provider = 2;
  get_providers = 3;
  find_node = 4;
  ping = 5;
}

contains_type_field_returns_example :
    scan_fields messages 4 payload 0 ≡ some (contains_type_field messages payload)
contains_type_field_returns_example = contains_type_field_returns messages payload

-- A request, its answer in two chunks, and a chunk too many.
abbrev asked : List Asked.Call
asked =
    Asked.writing frame (at 5) (λ b. ok tt)
    ∷ Asked.reading none (at 6) (λ n. ok (3 ∷ 8 ∷ [])) (ok tt)
    ∷ Asked.reading none (at 7) (λ n. ok (4 ∷ 1 ∷ [])) (ok tt)
    ∷ Asked.reading none (at 8) (λ n. ok (1 ∷ [])) (ok tt)
    ∷ []

recordings-IsProof_example :
    All
      (IsProof messages encode_varint none 100 15)
      (recordings messages encode_varint none 100 15 asked new_outbound)
    × (length (recordings messages encode_varint none 100 15 asked new_outbound) ≤ 1)
recordings-IsProof_example = recordings-IsProof messages encode_varint none 100 15 asked

-- The answer is reported once.
recorded_once :
    ◌≡◌ {A = ℕ} (length (recordings messages encode_varint none 100 15 asked new_outbound)) 1
unfolding recordings outbound_write outbound_read track_request write_tracked observe_request
    framed_request parsed_request request_response receive_response observe_response
    declare_response finish_response check_response validate_dht_response contains_type_field
    scan_fields decode_varint_prefix encode_varint groups bytes_eq
recorded_once = refl
