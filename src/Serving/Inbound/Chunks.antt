-- ===== src/Serving/Inbound/Chunks.antt =====
-- src/decent_registry/dht/serving_eligibility.py: a well-formed frame that reaches a
-- `BoundedInboundDHTStream` in chunks.
use mathlib.Core.List.{append-nil, append_assoc}
use decent_registry.Prelude.{
  false, String, ℕ, ◌+◌, ◌≤◌, ◌<◌, ◌^◌, ◌-◌, Option, none, some, List, [], ◌∷◌, ◌++◌, ◌≡◌, refl, ap,
  arith, length, length-append, ℤ, pos, negsuc, Result, ok, inl, inr, le-ltb, ◌∙◌, ◌>>◌, All, ◌⊎◌,
  subst, take, sym, leb, ≟-same, bytes_eq,
}
use decent_registry.Cbor.{Bytes}
use decent_registry.Serving.Frames.{IsVarint}
use decent_registry.Serving.Frames.Prefix.{decode_varint_prefix-Begun, encode-length}
use decent_registry.Serving.Deadline.{Readings, deadline_of, requested_size}
use decent_registry.Serving.Inbound.{
  Inbound, new_inbound, declare_length, after_prefix, observe_chunk, receive_chunk, read_requested,
  inbound_read,
}

leb-false : (xs : Bytes) → length xs < 10 → leb 10 (length xs) ≡ false
leb-false xs h = ground arith

take-of_prefix :
    (a xs ys p : Bytes) → length a ≤ length xs → xs ++ ys ≡ a ++ p → take (length a) xs ≡ a
take-of_prefix [] xs ys p long e = refl
take-of_prefix (x ∷ a) [] ys p long e = absurd (omega arith)
take-of_prefix (x ∷ a) (y ∷ xs) ys p long e = ground (arith, take-of_prefix a xs ys p)

-- A call of `read` for which the stream below has a chunk.
pub record Round : Type 0 where
  pub size : Option ℤ
  pub clock : Readings
  pub chunk : Bytes

abbrev pub joined : List Round → Bytes
joined [] = []
joined (r ∷ rs) = r.chunk ++ joined rs

in_time : (deadline : ℕ) (t : Readings) → t.now < deadline → leb deadline t.now ≡ false
in_time deadline t h = ground arith

module _ (encode : ℕ → Bytes) (max_bytes timeout : ℕ) where
  abbrev Admissible : Option ℤ → Type 0
  Admissible none = Unit
  Admissible (some (pos n)) = n ≤ max_bytes
  Admissible (some (negsuc n)) = ⊥

  -- The size asked for is allowed, and the call is made within the time from the start.
  abbrev pub IsTimely : ℕ → Round → Type 0
  IsTimely start r = Admissible r.size × (start ≤ r.clock.begun) × (r.clock.now < start + timeout)

  -- The calls in turn, each on the object as the one before has left it.
  unfoldable pub read_rounds : Inbound → List Round → Result Inbound
  read_rounds s [] = ok s
  read_rounds s (r ∷ rs) =
      let (s', result) = inbound_read encode max_bytes timeout s r.size r.clock (λ _. ok r.chunk) in
      let rest = read_rounds s' rs in result >> rest

  module _ (law : IsVarint encode) (n : ℕ) (payload : Bytes) (size : length payload ≡ n)
      (fits : n ≤ max_bytes) (range : max_bytes < 128 ^ 10) where
    -- The object once it has seen the first bytes of the frame.
    abbrev Seen : Bytes → Inbound → Type 0
    Seen seen s =
        ((s.declared ≡ none) × (s.prefix ≡ seen) × (length seen < length (encode n)))
        ⊎ ((s.declared ≡ some n) × (s.payload_read + length (encode n) ≡ length seen))

    -- What a chunk that is let through leaves.
    abbrev Continues : Bytes → Bytes → Option ℕ → Inbound × Result Bytes → Type 0
    Continues seen chunk deadline (s, result) =
        (result ≡ ok chunk) × Seen (seen ++ chunk) s × (s.read_deadline ≡ deadline)

    seen_le :
        (seen rest : Bytes)
        → seen ++ rest ≡ encode n ++ payload
        → length seen ≤ length (encode n) + n
    seen_le seen rest e =
        omega (arith, ap length e, length-append seen rest, length-append (encode n) payload)

    observe_begin :
        (s : Inbound) (chunk rest : Bytes)
        → s.declared ≡ none
        → (s.prefix ++ chunk) ++ rest ≡ encode n ++ payload
        → Continues s.prefix chunk s.read_deadline
            (observe_chunk encode max_bytes timeout s none chunk)
    unfolding observe_chunk after_prefix declare_length
    observe_begin s chunk rest undeclared e =
        let (_, ten) = encode-length encode law 9 n (omega arith) in
        elim (decode_varint_prefix-Begun encode law n (s.prefix ++ chunk) rest payload (omega arith)
          e) [
            | inl (waits, short) ↦
                rw (waits, leb-false (s.prefix ++ chunk) (omega arith))
                  (refl, inl (undeclared, refl, short), refl)
            | inr (found, long) ↦
                let total = seen_le (s.prefix ++ chunk) rest e in
                let head = take-of_prefix (encode n) (s.prefix ++ chunk) rest payload long e in
                rw
                  (
                    found,
                    le-ltb max_bytes n fits,
                    ≟-same (encode n) (take (length (encode n)) (s.prefix ++ chunk)) (sym head),
                    le-ltb n (length (s.prefix ++ chunk) - length (encode n)) (omega arith),
                  )
                  (refl, inr (refl, omega arith), refl)
          ]

    observe_more :
        (s : Inbound) (seen chunk rest : Bytes)
        → s.declared ≡ some n
        → s.payload_read + length (encode n) ≡ length seen
        → (seen ++ chunk) ++ rest ≡ encode n ++ payload
        → Continues seen chunk s.read_deadline
            (observe_chunk encode max_bytes timeout s (some n) chunk)
    unfolding observe_chunk
    observe_more s seen chunk rest declared count e =
        let total = seen_le (seen ++ chunk) rest e in
        rw (le-ltb n (s.payload_read + length chunk) (omega (arith, length-append seen chunk)))
          (refl, inr (declared, omega (arith, length-append seen chunk)), refl)

    observe_round :
        (s : Inbound) (seen chunk rest : Bytes) (declared : Option ℕ)
        → s.declared ≡ declared
        → Seen seen s
        → (seen ++ chunk) ++ rest ≡ encode n ++ payload
        → Continues seen chunk s.read_deadline
            (observe_chunk encode max_bytes timeout s declared chunk)
    observe_round s seen chunk rest none at (inl (undeclared, same, short)) e =
        subst
          (λ b.
            Continues b chunk s.read_deadline (observe_chunk encode max_bytes timeout s none chunk))
          same (observe_begin s chunk rest at (rw same e))
    observe_round s seen chunk rest none at (inr (declared, count)) e = cc
    observe_round s seen chunk rest (some m) at (inl (undeclared, same, short)) e = cc
    observe_round s seen chunk rest (some m) at (inr (declared, count)) e =
        let same : n ≡ m = cc in rw (← same) (observe_more s seen chunk rest declared count e)

    abbrev Later : ℕ → Option ℕ → Type 0
    Later start none = Unit
    Later start (some d) = start + timeout ≤ d

    requested_size-Admissible :
        (size : Option ℤ) (whole : ℕ) (negative oversize : String)
        → Admissible size
        → (k : ℕ) × (requested_size size max_bytes whole negative oversize ≡ ok k)
    requested_size-Admissible none whole negative oversize a = (whole, refl)
    requested_size-Admissible (some (pos k)) whole negative oversize a =
        (k, rw (le-ltb max_bytes k a) refl)
    requested_size-Admissible (some (negsuc k)) whole negative oversize a = absurd a

    deadline-Later :
        (start : ℕ) (d : Option ℕ) (t : Readings)
        → Later start d
        → start ≤ t.begun
        → start + timeout ≤ deadline_of d timeout t
    deadline-Later start none t l h = omega arith
    deadline-Later start (some d) t l h = l

    receive_round :
        (s : Inbound) (seen chunk rest : Bytes)
        → Seen seen s
        → (seen ++ chunk) ++ rest ≡ encode n ++ payload
        → Continues seen chunk s.read_deadline (receive_chunk encode max_bytes timeout s (ok chunk))
    unfolding receive_chunk
    receive_round s seen chunk rest known e =
        let total = seen_le (seen ++ chunk) rest e in
        let (_, ten) = encode-length encode law 9 n (omega arith) in
        rw (le-ltb (max_bytes + 10) (length chunk) (omega (arith, length-append seen chunk)))
          (observe_round s seen chunk rest s.declared refl known e)

    read_round :
        (s : Inbound) (start : ℕ) (seen rest : Bytes) (r : Round)
        → Seen seen s
        → Later start s.read_deadline
        → IsTimely start r
        → (seen ++ r.chunk) ++ rest ≡ encode n ++ payload
        → let (s', result) =
            inbound_read encode max_bytes timeout s r.size r.clock (λ _. ok r.chunk) in
          (result ≡ ok r.chunk) × Seen (seen ++ r.chunk) s' × Later start s'.read_deadline
    unfolding inbound_read read_requested
    read_round s start seen rest r known late (allowed, begun, now) e =
        let (k, asked) =
          requested_size-Admissible r.size (max_bytes + 11)
            "negative inbound DHT stream read length" "oversize inbound DHT frame" allowed in
        let deadline = deadline_of s.read_deadline timeout r.clock in
        let later = deadline-Later start s.read_deadline r.clock late begun in
        let (returned, seen', kept) =
          receive_round (record s { read_deadline = some deadline }) seen r.chunk rest known e in
        rw (asked, in_time deadline r.clock (omega arith)) (returned, seen', rw kept later)

    read_rounds-Seen :
        (start : ℕ) (rs : List Round) (s : Inbound) (seen : Bytes)
        → Seen seen s
        → Later start s.read_deadline
        → All (IsTimely start) rs
        → seen ++ joined rs ≡ encode n ++ payload
        → (s' : Inbound) × (read_rounds s rs ≡ ok s') × Seen (encode n ++ payload) s'
    unfolding read_rounds
    read_rounds-Seen start [] s seen known late timely e =
        (s, refl, subst (λ b. Seen b s) (sym (append-nil seen) ∙ e) known)
    read_rounds-Seen start (r ∷ rs) s seen known late (timely, others) e =
        let e' : (seen ++ r.chunk) ++ joined rs ≡ encode n ++ payload =
          append_assoc seen r.chunk (joined rs) ∙ e in
        let (returned, seen', late') = read_round s start seen (joined rs) r known late timely e' in
        let (end, run, whole) =
          read_rounds-Seen start rs
            (inbound_read encode max_bytes timeout s r.size r.clock (λ _. ok r.chunk)).0
            (seen ++ r.chunk) seen' late' others e' in
        (end, rw (returned, run) refl, whole)

    Seen-whole :
        (s : Inbound) → Seen (encode n ++ payload) s → (s.declared ≡ some n) × (s.payload_read ≡ n)
    Seen-whole s (inl (_, _, short)) = absurd (omega (arith, length-append (encode n) payload))
    Seen-whole s (inr (declared, count)) =
        (declared, omega (arith, length-append (encode n) payload))

  -- A frame of a payload within the bound is never refused, however it is cut into chunks: the
  -- reads that are made with allowed sizes and in time all return, and after them the object has
  -- the length of the payload as the declared and as the counted one.
  pub read_rounds_frame :
      (payload : Bytes) (start : ℕ) (rs : List Round)
      → IsVarint encode
      → max_bytes < 128 ^ 10
      → length payload ≤ max_bytes
      → joined rs ≡ encode (length payload) ++ payload
      → All (IsTimely start) rs
      → (s : Inbound) × (read_rounds new_inbound rs ≡ ok s)
        × (s.declared ≡ some (length payload))
        × (s.payload_read ≡ length payload)
  read_rounds_frame payload start rs law range fits whole timely =
      let n = length payload in
      let (few, _) = encode-length encode law 9 n (omega arith) in
      let (s, run, seen) =
        read_rounds-Seen law n payload refl fits range start rs new_inbound []
          (inl (refl, refl, few)) tt timely whole in
      let (declared, counted) = Seen-whole law n payload refl fits range s seen in
      (s, run, declared, counted)
