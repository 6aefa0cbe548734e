-- ===== src/Serving/Outbound.antt =====
-- src/decent_registry/dht/serving_eligibility.py: `BoundedDHTStream`, the client's side. A method
-- returns the object as it leaves it, with its result or exception.
pub mod Proofs
pub mod Calls
use decent_registry.Prelude.{
  ℕ, ◌+◌, Bool, true, false, ◌||◌, ◌&&◌, not, Option, none, some, List, [], ◌∷◌, ◌++◌, ltb, leb,
  ◌==◌, if◌then◌else◌, length, take, drop, ℤ, Result, Done, ok, raise, value_error, library_error,
  ◌>>=◌, ◌>>◌, raise_if, or_raise, rethrow, ◌≟◌, bytes_eq,
}
use decent_registry.Cbor.{Bytes}
use decent_registry.Serving.Frames.{decode_varint_prefix}
use decent_registry.Serving.Deadline.{Readings, deadline_of, with_deadline, requested_size}
use decent_registry.Serving.Messages.{
  Message, MessageLibrary, contains_type_field, validate_dht_response,
}

pub record Outbound : Type 0 where
  pub request : Bytes
  pub request_message : Option Message
  pub response_prefix : Bytes
  pub response_length : Option ℕ
  pub response_payload : Bytes
  pub proof_recorded : Bool
  pub tracking : Bool
  pub read_deadline : Option ℕ
  pub write_deadline : Option ℕ
  pub written_bytes : ℕ

abbrev pub new_outbound : Outbound
new_outbound = record {
  request = [];
  request_message = none;
  response_prefix = [];
  response_length = none;
  response_payload = [];
  proof_recorded = false;
  tracking = true;
  read_deadline = none;
  write_deadline = none;
  written_bytes = 0;
}

-- What a `read` leaves: `recorded` tells whether it has called `on_valid_response`.
pub record ReadOutcome : Type 0 where
  pub after : Outbound
  pub recorded : Bool
  pub result : Result Bytes

abbrev pub is_seen : Option Message → Bool
is_seen none = false
is_seen (some m) = true

abbrev pub is_nonempty : Bytes → Bool
is_nonempty [] = false
is_nonempty (x ∷ xs) = true

-- The callback has run, and the chunk is returned.
abbrev pub return_chunk : Bytes → Result Done → Outbound × Result Bool → ReadOutcome
return_chunk chunk callback (s, raise e) = record { after = s; recorded = false; result = raise e }
return_chunk chunk callback (s, ok false) = record {
  after = s;
  recorded = false;
  result = ok chunk;
}
return_chunk chunk callback (s, ok true) = record {
  after = s;
  recorded = true;
  result = callback >> ok chunk;
}

abbrev pub stop_tracking : Outbound → Outbound × Result Done
stop_tracking s = (record s { tracking = false }, ok tt)

abbrev pub check_signed_record : Option (Message → Option Bool) → Message → Result Done
check_signed_record none response = ok tt
check_signed_record (some validate) response = do
  valid ← or_raise (validate response) library_error
  raise_if (not valid) (value_error "DHT response failed signed-record validation")

abbrev pub record_proof : Outbound → Result Done → Outbound × Result Bool
record_proof s (raise e) = (s, raise (value_error "invalid DHT response frame"))
record_proof s (ok _) = (record s { proof_recorded = true }, ok true)

-- `encode` is `varint.encode`; `accepts` is `validate_response` for the peer, `none` as its result
-- being an exception.
module _ (lib : MessageLibrary) (encode : ℕ → Bytes) (accepts : Option (Message → Option Bool))
    (max_bytes timeout : ℕ) where
  open lib use {parse}

  -- A complete request: whether it is one that a response can answer.
  unfoldable pub parsed_request : Outbound → Bytes → Option Message → Outbound × Result Done
  parsed_request s payload none = stop_tracking s
  parsed_request s payload (some request) =
      if request.byte_size == 0 then stop_tracking s else elim (contains_type_field lib payload) [
        | raise e ↦ (s, raise e)
        | ok true ↦ (record s { request_message = some request }, ok tt)
        | ok false ↦ stop_tracking s
      ]

  unfoldable pub framed_request : Outbound → ℕ → ℕ → Outbound × Result Done
  unfolding parsed_request
  framed_request s n prefix_size =
      if not (encode n ≟ take prefix_size s.request)
      then (s, raise (value_error "non-canonical outbound DHT frame length"))
      else if n == 0
      then stop_tracking s
      else if ltb max_bytes n
      then (s, raise (value_error "oversize outbound DHT frame"))
      else if ltb (length s.request) (prefix_size + n)
      then (s, ok tt)
      else if not (length s.request == prefix_size + n)
      then stop_tracking s
      else parsed_request s (take n (drop prefix_size s.request))
          (parse (drop prefix_size s.request))

  unfoldable pub observe_request : Outbound → Result (Option (ℕ × ℕ)) → Outbound × Result Done
  unfolding framed_request
  observe_request s (raise e) = (s, raise e)
  observe_request s (ok none) = (s, ok tt)
  observe_request s (ok (some (n, prefix_size))) = framed_request s n prefix_size

  unfoldable pub track_request : Outbound → Bytes → Outbound × Result Done
  unfolding observe_request
  track_request s sent =
      if ltb (max_bytes + 10) (length s.request + length sent)
      then (s, raise (value_error "oversize outbound DHT frame"))
      else let request = s.request ++ sent in
        observe_request (record s { request = request }) (decode_varint_prefix request)

  unfoldable pub write_tracked :
      Bytes → Readings → (Bytes → Result Done) → Outbound × Result Done → Outbound × Result Done
  write_tracked sent t answer (s, raise e) = (s, raise e)
  write_tracked sent t answer (s, ok _) =
      let deadline = deadline_of s.write_deadline timeout t in
      (
        record s { write_deadline = some deadline },
        with_deadline deadline t "DHT request frame write timed out" (answer sent),
      )

  -- `answer` is `write` of the stream below.
  unfoldable pub outbound_write :
      Outbound → Bytes → Readings → (Bytes → Result Done) → Outbound × Result Done
  unfolding track_request write_tracked
  outbound_write s sent t answer =
      let written = s.written_bytes + length sent in
      let s' = record s { written_bytes = written } in
      if ltb (max_bytes + 10) written
      then (s', raise (value_error "oversize outbound DHT frame"))
      else write_tracked sent t answer (if s.tracking then track_request s' sent else (s', ok tt))

  -- What is tried on a complete response.
  unfoldable pub check_response : Option Message → Bytes → Result Done
  check_response request_message payload = do
    typed ← contains_type_field lib payload
    raise_if (not typed) (value_error "DHT response omitted its message type")
    response ← or_raise (parse payload) library_error
    request ← or_raise request_message library_error
    validate_dht_response lib request response
    check_signed_record accepts response

  -- From the comparison with the declared length on; `ok true` calls `on_valid_response`.
  unfoldable pub finish_response : Outbound → ℕ → Outbound × Result Bool
  unfolding check_response
  finish_response s n =
      if ltb n (length s.response_payload)
      then (s, raise (value_error "DHT response exceeds declared frame length"))
      else if not (length s.response_payload == n) || s.proof_recorded
      then (s, ok false)
      else record_proof s (check_response s.request_message s.response_payload)

  unfoldable pub declare_response : Outbound → Result (Option (ℕ × ℕ)) → Outbound × Result Bool
  unfolding finish_response
  declare_response s (raise e) = (s, raise e)
  declare_response s (ok none) = (
    s,
    raise_if (ltb 10 (length s.response_prefix)) (value_error "malformed DHT response length")
        >> ok false,
  )
  declare_response s (ok (some (n, prefix_size))) =
      if not (encode n ≟ take prefix_size s.response_prefix)
      then (s, raise (value_error "non-canonical DHT response length"))
      else if ltb max_bytes n
      then (s, raise (value_error "oversize DHT response"))
      else finish_response
          (record s {
            response_length = some n;
            response_prefix = [];
            response_payload = s.response_payload ++ drop prefix_size s.response_prefix;
          })
          n

  unfoldable pub observe_response : Outbound → Option ℕ → Bytes → Outbound × Result Bool
  unfolding declare_response
  observe_response s none chunk =
      let prefix = s.response_prefix ++ chunk in
      declare_response (record s { response_prefix = prefix }) (decode_varint_prefix prefix)
  observe_response s (some n) chunk =
      finish_response (record s { response_payload = s.response_payload ++ chunk }) n

  unfoldable pub receive_response : Outbound → Result Done → Result Bytes → ReadOutcome
  unfolding observe_response
  receive_response s callback (raise e) = record { after = s; recorded = false; result = raise e }
  receive_response s callback (ok chunk) = return_chunk chunk callback (
      if ltb (max_bytes + 1) (length chunk)
      then (s, raise (value_error "oversize DHT frame read"))
      else if s.tracking && is_seen s.request_message && is_nonempty chunk
      then observe_response s s.response_length chunk
      else (s, ok false))

  unfoldable pub request_response :
      Outbound → Result ℕ → Readings → (ℕ → Result Bytes) → Result Done → ReadOutcome
  unfolding receive_response
  request_response s (raise e) t answer callback = record {
    after = s;
    recorded = false;
    result = raise e;
  }
  request_response s (ok requested) t answer callback =
      let deadline = deadline_of s.read_deadline timeout t in
      receive_response (record s { read_deadline = some deadline }) callback
        (with_deadline deadline t "DHT response frame timed out" (answer requested))

  -- `answer` is `read` of the stream below, and `callback` what `on_valid_response` does if called.
  unfoldable pub outbound_read :
      Outbound → Option ℤ → Readings → (ℕ → Result Bytes) → Result Done → ReadOutcome
  unfolding request_response
  outbound_read s n t answer callback =
      request_response s
        (requested_size n max_bytes (max_bytes + 1) "negative DHT stream read length"
          "oversize DHT frame read")
        t answer callback
