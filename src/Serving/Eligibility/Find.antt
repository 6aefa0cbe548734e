-- ===== src/Serving/Eligibility/Find.antt =====
-- src/decent_registry/dht/serving_eligibility.py: the peers that `_guarded_find` gives.
use decent_registry.Prelude.{
  ℕ, zero, suc, ◌≤◌, ◌<◌, Bool, true, false, Option, none, some, List, [], ◌∷◌, ◌≡◌, refl, arith,
  leb, if◌then◌else◌, length, take, Bool-cases, inl, inr, bytes_eq, All,
}
use decent_registry.Prelude.Dictionary.{lookup, lookup-erase}
use decent_registry.Cbor.{Bytes}
use decent_registry.Serving.Eligibility.{
  RoutingTable, Eligibility, drop_peer, check_expiry, is_eligible, filter_eligible, guarded_find,
  larger,
}

take-All : {A : Type 0} (P : A → Type 0) (n : ℕ) (xs : List A) → All P xs → All P (take n xs)
take-All P zero xs h = tt
take-All P (suc n) [] h = tt
take-All P (suc n) (x ∷ xs) (p, h) = (p, take-All P n xs h)

length-take-le : {A : Type 0} (n : ℕ) (xs : List A) → length (take n xs) ≤ n
length-take-le zero xs = omega arith
length-take-le (suc n) [] = omega arith
length-take-le (suc n) (x ∷ xs) = omega (arith, length-take-le n xs)

module _ {T : Type 0} (routing : RoutingTable T) (clock : ℕ → ℕ) (ttl : ℕ)
    (start : Eligibility T) where
  -- The proof of the peer is recorded at the start, and has not expired then.
  abbrev pub Proven : Bytes → Type 0
  Proven i = (expiry : ℕ) × (lookup i start.expires ≡ some expiry) × (clock start.readings < expiry)

  -- Later in the call: only time has passed, and proofs have been dropped.
  record IsLater (s : Eligibility T) : Type 0 where
    time : start.readings ≤ s.readings
    fewer : (i : Bytes) (e : ℕ) → lookup i s.expires ≡ some e → lookup i start.expires ≡ some e

  module _ (monotone : (a b : ℕ) → a ≤ b → clock a ≤ clock b) where
    check_expiry-IsLater :
        (i : Bytes) (o : Option ℕ) (s : Eligibility T)
        → lookup i s.expires ≡ o
        → IsLater s
        → let (s', eligible) = check_expiry routing clock ttl i o s in
          IsLater s' × (eligible ≡ true → Proven i)
    unfolding check_expiry drop_peer
    check_expiry-IsLater i none s known l = (l, λ h. absurd (ground arith))
    check_expiry-IsLater i (some expiry) s known l =
        elim (Bool-cases (leb expiry (clock s.readings))) [
          | inl over ↦ rw over (
            record {
              time = omega (arith, l.time);
              fewer = λ j e h. l.fewer j e (ground (arith, lookup-erase j i s.expires));
            },
            λ h. absurd (ground arith),
          )
          | inr fresh ↦ rw fresh (
            record { time = omega (arith, l.time); fewer = l.fewer },
            λ h. (
              expiry,
              l.fewer i expiry known,
              ground (arith, monotone start.readings s.readings l.time),
            ),
          )
        ]

    filter_eligible-Proven :
        (is' : List Bytes) (s : Eligibility T)
        → IsLater s
        → All Proven (filter_eligible routing clock ttl is' s).1
    unfolding filter_eligible is_eligible
    filter_eligible-Proven [] s l = tt
    filter_eligible-Proven (i ∷ is') s l =
        let (s', eligible) = check_expiry routing clock ttl i (lookup i s.expires) s in
        let (later, proven) = check_expiry-IsLater i (lookup i s.expires) s refl l in
        extend i eligible (filter_eligible routing clock ttl is' s').1 proven
          (filter_eligible-Proven is' s' later)
      where
        extend :
            (i : Bytes) (eligible : Bool) (rest : List Bytes)
            → (eligible ≡ true → Proven i)
            → All Proven rest
            → All Proven (if eligible then i ∷ rest else rest)
        extend i true rest p h = (p refl, h)
        extend i false rest p h = h

    -- Where the clock does not go back, a search gives at most as many peers as asked for, each
    -- with a proof that is recorded and has not expired when the search begins.
    pub guarded_find-Proven :
        (key : Bytes) (count : ℕ)
        → let found = (guarded_find routing clock ttl key count start).1 in
          All Proven found × (length found ≤ count)
    unfolding guarded_find
    guarded_find-Proven key count =
        let peers =
          routing.find_local_closest_peers key (larger count (routing.size start.table))
            start.table in
        let eligible = (filter_eligible routing clock ttl peers start).1 in
        (
          take-All Proven count eligible (
              filter_eligible-Proven peers start
                (record { time = omega arith; fewer = λ i e h. h })),
          length-take-le count eligible,
        )
