-- ===== src/Serving/Deadline.antt =====
-- src/decent_registry/dht/serving_eligibility.py: what the two streams share, the sizes of reads
-- and the deadlines of reads and writes. Times are whole ticks of `trio.current_time()`.
use decent_registry.Prelude.{
  ℕ, ◌+◌, String, Option, none, some, ltb, leb, ℤ, pos, negsuc, Result, ok, raise, value_error,
  timeout_error, ◌>>◌, raise_if,
}

-- The two readings of the clock: for a new deadline, and for the time that remains.
pub record Readings : Type 0 where
  pub begun : ℕ
  pub now : ℕ

abbrev pub deadline_of : Option ℕ → ℕ → Readings → ℕ
deadline_of none timeout t = t.begun + timeout
deadline_of (some d) timeout t = d

-- The operation runs under `fail_after`, so its outcome may be an exception of trio.
abbrev pub with_deadline {ℓ} : {A : Type ℓ} → ℕ → Readings → String → Result A → Result A
with_deadline deadline t late outcome =
    raise_if (leb deadline t.now) (timeout_error late) >> outcome

-- The guards on the argument of `read`, and the size that is asked of the stream below.
abbrev pub requested_size : Option ℤ → ℕ → ℕ → String → String → Result ℕ
requested_size none max_bytes whole negative oversize = ok whole
requested_size (some (negsuc n)) max_bytes whole negative oversize = raise (value_error negative)
requested_size (some (pos n)) max_bytes whole negative oversize =
    raise_if (ltb max_bytes n) (value_error oversize) >> ok n
