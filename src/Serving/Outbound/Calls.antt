-- ===== src/Serving/Outbound/Calls.antt =====
-- src/decent_registry/dht/serving_eligibility.py: the reports of a `BoundedDHTStream` in any
-- sequence of reads and writes.
use decent_registry.Prelude.{
  ℕ, ◌+◌, ◌≤◌, Bool, true, false, Option, none, some, List, [], ◌∷◌, ◌++◌, ◌≡◌, refl, arith, length,
  take, drop, ltb, Bool-cases, inl, inr, Result, Done, ok, raise, ℤ, All, if◌then◌else◌, sym, ◌∙◌,
  subst,
}
use decent_registry.Cbor.{Bytes}
use decent_registry.Serving.Frames.{decode_varint_prefix}
use decent_registry.Serving.Deadline.{Readings}
use decent_registry.Serving.Messages.{Message, MessageLibrary}
use decent_registry.Serving.Outbound.{
  Outbound, new_outbound, parsed_request, framed_request, observe_request, track_request,
  write_tracked, outbound_write, outbound_read,
}
use decent_registry.Serving.Outbound.Proofs.{IsProof, Fits, Leaves, outbound_read-Leaves}

-- A call of the stream, with the clock and what the stream below answers.
pub data Call : Type 0 where
  reading : Option ℤ → Readings → (ℕ → Result Bytes) → Result Done → Call
  writing : Bytes → Readings → (Bytes → Result Done) → Call

module _ (lib : MessageLibrary) (encode : ℕ → Bytes) (accepts : Option (Message → Option Bool))
    (max_bytes timeout : ℕ) where
  -- The object at each call of `on_valid_response`.
  unfoldable pub recordings : List Call → Outbound → List Outbound
  recordings [] s = []
  recordings (reading n t answer callback ∷ calls) s =
      let out = outbound_read lib encode accepts max_bytes timeout s n t answer callback in
      let later = recordings calls out.after in if out.recorded then out.after ∷ later else later
  recordings (writing sent t answer ∷ calls) s =
      recordings calls (outbound_write lib encode accepts max_bytes timeout s sent t answer).0

  -- A write changes nothing that has been seen of the response.
  abbrev Keeps : Outbound → Outbound × Result Done → Type 0
  Keeps s (s', r) =
      (s'.proof_recorded ≡ s.proof_recorded) × (s'.response_length ≡ s.response_length)

  parsed_request-Keeps :
      (s : Outbound) (payload : Bytes) (m : Option Message)
      → Keeps s (parsed_request lib encode accepts max_bytes timeout s payload m)
  unfolding parsed_request
  parsed_request-Keeps s payload none = (refl, refl)
  parsed_request-Keeps s payload (some request) = ground arith

  framed_request-Keeps :
      (s : Outbound) (n size : ℕ)
      → Keeps s (framed_request lib encode accepts max_bytes timeout s n size)
  unfolding framed_request
  framed_request-Keeps s n size = ground (
    arith,
    parsed_request-Keeps s (take n (drop size s.request)) (lib.parse (drop size s.request)),
  )

  observe_request-Keeps :
      (s : Outbound) (decoded : Result (Option (ℕ × ℕ)))
      → Keeps s (observe_request lib encode accepts max_bytes timeout s decoded)
  unfolding observe_request
  observe_request-Keeps s (raise e) = (refl, refl)
  observe_request-Keeps s (ok none) = (refl, refl)
  observe_request-Keeps s (ok (some (n, size))) = framed_request-Keeps s n size

  track_request-Keeps :
      (s : Outbound) (sent : Bytes)
      → Keeps s (track_request lib encode accepts max_bytes timeout s sent)
  unfolding track_request
  track_request-Keeps s sent =
      elim (Bool-cases (ltb (max_bytes + 10) (length s.request + length sent))) [
        | inl over ↦ rw over (refl, refl)
        | inr within ↦ rw within (
            observe_request-Keeps (record s { request = s.request ++ sent })
              (decode_varint_prefix (s.request ++ sent)))
      ]

  write_tracked-Keeps :
      (s : Outbound) (sent : Bytes) (t : Readings) (answer : Bytes → Result Done)
      (out : Outbound × Result Done)
      → Keeps s out
      → Keeps s (write_tracked lib encode accepts max_bytes timeout sent t answer out)
  unfolding write_tracked
  write_tracked-Keeps s sent t answer (s', raise e) k = k
  write_tracked-Keeps s sent t answer (s', ok d) k = k

  attempt-Keeps :
      (s : Outbound) (sent : Bytes) (t : Readings) (answer : Bytes → Result Done) (tracks : Bool)
      → Keeps s (
          write_tracked lib encode accepts max_bytes timeout sent t answer (
            if tracks
            then track_request lib encode accepts max_bytes timeout s sent
            else (s, ok tt)))
  attempt-Keeps s sent t answer true =
      write_tracked-Keeps s sent t answer
        (track_request lib encode accepts max_bytes timeout s sent) (track_request-Keeps s sent)
  attempt-Keeps s sent t answer false = write_tracked-Keeps s sent t answer (s, ok tt) (refl, refl)

  outbound_write-Keeps :
      (s : Outbound) (sent : Bytes) (t : Readings) (answer : Bytes → Result Done)
      → Keeps s (outbound_write lib encode accepts max_bytes timeout s sent t answer)
  unfolding outbound_write
  outbound_write-Keeps s sent t answer =
      let s' : Outbound = record s { written_bytes = s.written_bytes + length sent } in
      elim (Bool-cases (ltb (max_bytes + 10) (s.written_bytes + length sent))) [
        | inl over ↦ rw over (refl, refl)
        | inr within ↦ rw within (attempt-Keeps s' sent t answer s.tracking)
      ]

  -- The proof of one call, and of the calls after it.
  record Reports (before : Bool) (found : List Outbound) : Type 0 where
    proofs : All (IsProof lib encode accepts max_bytes timeout) found
    once : length found ≤ 1
    done : before ≡ true → found ≡ []

  extend-Reports :
      (before recorded : Bool) (s : Outbound) (found : List Outbound)
      → Leaves lib encode accepts max_bytes timeout before s recorded
      → Reports s.proof_recorded found
      → Reports before (if recorded then s ∷ found else found)
  extend-Reports before true s found l r =
      let (flag, proof) = l.proved refl in
      let none_later = r.done flag in
      record {
        proofs = (proof, r.proofs);
        once = rw none_later (omega arith);
        done = λ e. absurd (let (_, silent) = l.kept e in cc);
      }
  extend-Reports before false s found l r = record {
    proofs = r.proofs;
    once = r.once;
    done = λ e. r.done (l.kept e).0;
  }

  recordings-Reports :
      (calls : List Call) (s : Outbound)
      → Fits lib encode accepts max_bytes timeout s.response_length
      → Reports s.proof_recorded (recordings calls s)
  unfolding recordings
  recordings-Reports [] s fits = record { proofs = tt; once = omega arith; done = λ e. refl }
  recordings-Reports (writing sent t answer ∷ calls) s fits =
      let s' = (outbound_write lib encode accepts max_bytes timeout s sent t answer).0 in
      let (flag, declared) = outbound_write-Keeps s sent t answer in
      let rest =
        recordings-Reports calls s'
          (subst (Fits lib encode accepts max_bytes timeout) (sym declared) fits) in
      record { proofs = rest.proofs; once = rest.once; done = λ e. rest.done (flag ∙ e) }
  recordings-Reports (reading n t answer callback ∷ calls) s fits =
      let out = outbound_read lib encode accepts max_bytes timeout s n t answer callback in
      let leaves =
        outbound_read-Leaves lib encode accepts max_bytes timeout s n t answer callback fits in
      extend-Reports s.proof_recorded out.recorded out.after (recordings calls out.after) leaves
        (recordings-Reports calls out.after leaves.fits)

  -- In any sequence of calls `on_valid_response` is called at most once, and then for a response
  -- of exactly the declared length, within the bound, whose bytes carry a type and parse to a
  -- message that answers the parsed request and passes the check of signed records.
  pub recordings-IsProof :
      (calls : List Call)
      → All (IsProof lib encode accepts max_bytes timeout) (recordings calls new_outbound)
        × (length (recordings calls new_outbound) ≤ 1)
  recordings-IsProof calls = let r = recordings-Reports calls new_outbound tt in (r.proofs, r.once)
