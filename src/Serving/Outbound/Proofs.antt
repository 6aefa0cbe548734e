-- ===== src/Serving/Outbound/Proofs.antt =====
-- src/decent_registry/dht/serving_eligibility.py: when a `BoundedDHTStream` reports a valid
-- response.
use decent_registry.Prelude.{
  ℕ, ◌+◌, ◌≤◌, Bool, true, false, Option, none, some, [], ◌++◌, ◌≡◌, refl, arith, length, take,
  drop, ltb, ltb-false, Bool-cases, inl, inr, Result, Done, ok, raise, ℤ, ◌==◌, ◌||◌, ◌&&◌, not,
  succeeded, present, ◌≟◌, bytes_eq,
}
use decent_registry.Cbor.{Bytes}
use decent_registry.Serving.Frames.{decode_varint_prefix}
use decent_registry.Serving.Deadline.{Readings, deadline_of, with_deadline}
use decent_registry.Serving.Messages.{
  Message, MessageLibrary, contains_type_field, validate_dht_response,
}
use decent_registry.Serving.Outbound.{
  Outbound, is_seen, is_nonempty, return_chunk, check_signed_record, check_response, record_proof,
  finish_response, declare_response, observe_response, receive_response, request_response,
  outbound_read,
}

module _ (lib : MessageLibrary) (encode : ℕ → Bytes) (accepts : Option (Message → Option Bool))
    (max_bytes timeout : ℕ) where
  -- A complete response to the request, within the bound, that passes all tests.
  pub record IsProof (s : Outbound) : Type 0 where
    pub request : Message
    pub response : Message
    pub declared : s.response_length ≡ some (length s.response_payload)
    pub fits : length s.response_payload ≤ max_bytes
    pub requested : s.request_message ≡ some request
    pub typed : contains_type_field lib s.response_payload ≡ ok true
    pub parsed : lib.parse s.response_payload ≡ some response
    pub answers : validate_dht_response lib request response ≡ ok tt
    pub signed : check_signed_record accepts response ≡ ok tt

  abbrev pub Fits : Option ℕ → Type 0
  Fits none = Unit
  Fits (some n) = n ≤ max_bytes

  -- What a step leaves that began with `before` as `proof_recorded`.
  pub record Leaves (before : Bool) (s : Outbound) (recorded : Bool) : Type 0 where
    pub fits : Fits s.response_length
    pub kept : before ≡ true → (s.proof_recorded ≡ true) × (recorded ≡ false)
    pub proved : recorded ≡ true → (s.proof_recorded ≡ true) × IsProof s

  abbrev records : Result Bool → Bool
  records (ok b) = b
  records (raise e) = false

  check_response-parts :
      (s : Outbound)
      → check_response lib encode accepts max_bytes timeout s.request_message s.response_payload
        ≡ ok tt
      → s.response_length ≡ some (length s.response_payload)
      → length s.response_payload ≤ max_bytes
      → IsProof s
  unfolding check_response
  check_response-parts s h declared fits =
      succeeded (contains_type_field lib s.response_payload) (λ e x. ground arith)
        λ found typed.
          present (lib.parse s.response_payload) (λ e. ground arith)
            λ response parsed.
              present s.request_message (λ e. ground arith)
                λ request requested. record {
                  request = request;
                  response = response;
                  declared = declared;
                  fits = fits;
                  requested = requested;
                  typed = ground arith;
                  parsed = parsed;
                  answers = ground arith;
                  signed = ground arith;
                }

  record_proof-Leaves :
      (s : Outbound) (result : Result Done)
      → Fits s.response_length
      → s.proof_recorded ≡ false
      → (result ≡ ok tt → IsProof s)
      → let (s', r) = record_proof s result in Leaves s.proof_recorded s' (records r)
  record_proof-Leaves s (raise e) fits new proof = record {
    fits = fits;
    kept = ground arith;
    proved = ground arith;
  }
  record_proof-Leaves s (ok tt) fits new proof = record {
    fits = fits;
    kept = ground arith;
    proved = λ _. (refl, again (proof refl));
  }
    where
      again : IsProof s → IsProof (record s { proof_recorded = true })
      again p = record {
        request = p.request;
        response = p.response;
        declared = p.declared;
        fits = p.fits;
        requested = p.requested;
        typed = p.typed;
        parsed = p.parsed;
        answers = p.answers;
        signed = p.signed;
      }

  -- A step that records nothing and leaves the flag.
  silent : (s : Outbound) → Fits s.response_length → Leaves s.proof_recorded s false
  silent s fits = record { fits = fits; kept = λ e. (e, refl); proved = ground arith }

  finish_response-Leaves :
      (s : Outbound) (n : ℕ)
      → s.response_length ≡ some n
      → n ≤ max_bytes
      → let (s', r) = finish_response lib encode accepts max_bytes timeout s n in
        Leaves s.proof_recorded s' (records r)
  unfolding finish_response
  finish_response-Leaves s n declared fits =
      let fits' : Fits s.response_length = rw declared fits in
      elim (Bool-cases (ltb n (length s.response_payload))) [
        | inl over ↦ rw over (silent s fits')
        | inr within ↦
            elim (Bool-cases (not (length s.response_payload == n) || s.proof_recorded)) [
              | inl waits ↦ rw (within, waits) (silent s fits')
              | inr whole ↦
                  let size : length s.response_payload ≡ n = ground arith in
                  rw (within, whole)
                    (record_proof-Leaves s _ fits' (ground arith)
                      (λ passed. check_response-parts s passed (rw size declared) (omega arith)))
            ]
      ]

  declare_response-Leaves :
      (s : Outbound) (decoded : Result (Option (ℕ × ℕ)))
      → s.response_length ≡ none
      → let (s', r) = declare_response lib encode accepts max_bytes timeout s decoded in
        Leaves s.proof_recorded s' (records r)
  unfolding declare_response
  declare_response-Leaves s (raise e) undeclared = silent s (rw undeclared tt)
  declare_response-Leaves s (ok none) undeclared =
      elim (Bool-cases (ltb 10 (length s.response_prefix))) [
        | inl over ↦ rw over (silent s (rw undeclared tt))
        | inr waits ↦ rw waits (silent s (rw undeclared tt))
      ]
  declare_response-Leaves s (ok (some (n, size))) undeclared =
      elim (Bool-cases (encode n ≟ take size s.response_prefix)) [
        | inr differs ↦ rw differs (silent s (rw undeclared tt))
        | inl same ↦ elim (Bool-cases (ltb max_bytes n)) [
          | inl over ↦ rw (same, over) (silent s (rw undeclared tt))
          | inr fits ↦
              rw (same, fits)
                (finish_response-Leaves
                  (record s {
                    response_length = some n;
                    response_prefix = [];
                    response_payload = s.response_payload ++ drop size s.response_prefix;
                  })
                  n refl (ltb-false max_bytes n fits))
        ]
      ]

  observe_response-Leaves :
      (s : Outbound) (declared : Option ℕ) (chunk : Bytes)
      → s.response_length ≡ declared
      → Fits declared
      → let (s', r) = observe_response lib encode accepts max_bytes timeout s declared chunk in
        Leaves s.proof_recorded s' (records r)
  unfolding observe_response
  observe_response-Leaves s none chunk at_start fits =
      declare_response-Leaves (record s { response_prefix = s.response_prefix ++ chunk })
        (decode_varint_prefix (s.response_prefix ++ chunk)) at_start
  observe_response-Leaves s (some n) chunk at_start fits =
      finish_response-Leaves (record s { response_payload = s.response_payload ++ chunk }) n
        at_start fits

  return_chunk-Leaves :
      (before : Bool) (chunk : Bytes) (callback : Result Done) (s : Outbound) (r : Result Bool)
      → Leaves before s (records r)
      → let out = return_chunk chunk callback (s, r) in Leaves before out.after out.recorded
  return_chunk-Leaves before chunk callback s (raise e) l = l
  return_chunk-Leaves before chunk callback s (ok true) l = l
  return_chunk-Leaves before chunk callback s (ok false) l = l

  receive_response-Leaves :
      (s : Outbound) (callback : Result Done) (outcome : Result Bytes)
      → Fits s.response_length
      → let out = receive_response lib encode accepts max_bytes timeout s callback outcome in
        Leaves s.proof_recorded out.after out.recorded
  unfolding receive_response
  receive_response-Leaves s callback (raise e) fits = silent s fits
  receive_response-Leaves s callback (ok chunk) fits =
      elim (Bool-cases (ltb (max_bytes + 1) (length chunk))) [
        | inl over ↦ rw over (silent s fits)
        | inr within ↦
            elim (Bool-cases (s.tracking && is_seen s.request_message && is_nonempty chunk)) [
              | inr idle ↦ rw (within, idle) (silent s fits)
              | inl tracks ↦
                  let (s', r) =
                    observe_response lib encode accepts max_bytes timeout s s.response_length
                      chunk in
                  rw (within, tracks)
                    (return_chunk-Leaves s.proof_recorded chunk callback s' r
                      (observe_response-Leaves s s.response_length chunk refl fits))
            ]
      ]

  request_response-Leaves :
      (s : Outbound) (requested : Result ℕ) (t : Readings) (answer : ℕ → Result Bytes)
      (callback : Result Done)
      → Fits s.response_length
      → let out =
          request_response lib encode accepts max_bytes timeout s requested t answer callback in
        Leaves s.proof_recorded out.after out.recorded
  unfolding request_response
  request_response-Leaves s (raise e) t answer callback fits = silent s fits
  request_response-Leaves s (ok n) t answer callback fits =
      let deadline = deadline_of s.read_deadline timeout t in
      receive_response-Leaves (record s { read_deadline = some deadline }) callback
        (with_deadline deadline t "DHT response frame timed out" (answer n)) fits

  pub outbound_read-Leaves :
      (s : Outbound) (n : Option ℤ) (t : Readings) (answer : ℕ → Result Bytes)
      (callback : Result Done)
      → Fits s.response_length
      → let out = outbound_read lib encode accepts max_bytes timeout s n t answer callback in
        Leaves s.proof_recorded out.after out.recorded
  unfolding outbound_read
  outbound_read-Leaves s n t answer callback fits =
      request_response-Leaves s _ t answer callback fits
