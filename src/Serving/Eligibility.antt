-- ===== src/Serving/Eligibility.antt =====
-- src/decent_registry/dht/serving_eligibility.py: `RoutingEligibility`. Times are whole ticks, and
-- libp2p's routing table is a parameter.
pub mod Expiries
pub mod Gate
pub mod Find
use decent_registry.Prelude.{
  ℕ, ◌+◌, ◌*◌, Bool, true, false, ◌&&◌, not, Option, none, some, List, [], ◌∷◌, ltb, leb,
  if◌then◌else◌, length, take, map, bytes_eq, Result, ok,
}
use decent_registry.Prelude.Dictionary.{lookup, insert, erase}
use decent_registry.Cbor.{Bytes}

abbrev pub max_eligible_peers : ℕ
max_eligible_peers = 1024

-- What `add_peer` takes: the identifier of a peer, or a `PeerInfo` with its addresses.
pub data Peer : Type 0 where
  by_id : Bytes → Peer
  peer_info : Bytes → List Bytes → Peer

abbrev pub peer_id_of : Peer → Bytes
peer_id_of (by_id i) = i
peer_id_of (peer_info i addrs) = i

-- The methods of the routing table `T` that the gate takes over; `add_peer` may be told to skip
-- the check of the server mode, and may raise.
pub record RoutingTable (T : Type 0) : Type 0 where
  pub add_peer : Peer → Bool → T → T × Result Bool
  pub remove_peer : Bytes → T → T
  pub find_local_closest_peers : Bytes → ℕ → T → List Bytes
  pub size : T → ℕ
  -- the identifiers in the buckets
  pub peer_ids : T → List Bytes

-- `_expires` in the order of insertion, and how often the clock has been read.
pub record Eligibility (T : Type 0) : Type 0 where
  pub table : T
  pub expires : List (List ℕ × ℕ)
  pub readings : ℕ

abbrev pub older : List ℕ × ℕ → Option (List ℕ × ℕ) → List ℕ × ℕ
older p none = p
older p (some q) = if leb p.1 q.1 then p else q

-- `min(d, key=d.__getitem__)`: the first key with the least value.
unfoldable pub oldest : List (List ℕ × ℕ) → Option (List ℕ × ℕ)
oldest [] = none
oldest (p ∷ d) = some (older p (oldest d))

abbrev pub is_present {ℓ} : {A : Type ℓ} → Option A → Bool
is_present none = false
is_present (some a) = true

-- `max(a, b)`
abbrev pub larger : ℕ → ℕ → ℕ
larger a b = if ltb a b then b else a

module _ {T : Type 0} (routing : RoutingTable T) where
  open routing use {remove_peer, peer_ids}

  unfoldable pub remove_all : List Bytes → T → T
  remove_all [] t = t
  remove_all (i ∷ is') t = remove_all is' (remove_peer i t)

  -- The constructor empties the buckets.
  unfoldable pub new_eligibility : T → Eligibility T
  unfolding remove_all
  new_eligibility t = record { table = remove_all (peer_ids t) t; expires = []; readings = 0 }

  -- `self._expires.pop(peer_id, None)`, then `self._remove(peer_id)`.
  unfoldable pub drop_peer : Bytes → Eligibility T → Eligibility T
  drop_peer i s = record s { table = remove_peer i s.table; expires = erase i s.expires }

  unfoldable pub clear : Eligibility T → Eligibility T
  unfolding remove_all
  clear s = record s {
    table = remove_all (map (λ (p : List ℕ × ℕ). p.0) s.expires) s.table;
    expires = [];
  }

  unfoldable pub drop_found : Option (List ℕ × ℕ) → Eligibility T → Eligibility T
  unfolding drop_peer
  drop_found none s = s
  drop_found (some p) s = drop_peer p.0 s

  -- Before a new entry: the peer with the least expiry goes, where there are too many.
  unfoldable pub make_room : Bytes → Eligibility T → Eligibility T
  unfolding drop_found oldest
  make_room i s =
      if not (is_present (lookup i s.expires)) && leb max_eligible_peers (length s.expires)
      then drop_found (oldest s.expires) s
      else s

-- `clock` gives the readings of the clock in turn, and `ttl` is `SERVING_PROOF_TTL_SECONDS`.
module _ {T : Type 0} (routing : RoutingTable T) (clock : ℕ → ℕ) (ttl : ℕ) where
  open routing use {add_peer, find_local_closest_peers, size}

  unfoldable pub check_expiry : Bytes → Option ℕ → Eligibility T → Eligibility T × Bool
  check_expiry i none s = (s, false)
  check_expiry i (some expiry) s =
      let s' = record s { readings = s.readings + 1 } in
      if leb expiry (clock s.readings) then (drop_peer routing i s', false) else (s', true)

  unfoldable pub is_eligible : Bytes → Eligibility T → Eligibility T × Bool
  unfolding check_expiry
  is_eligible i s = check_expiry i (lookup i s.expires) s

  unfoldable pub record_valid_response : Bytes → Eligibility T → Eligibility T × Result Bool
  record_valid_response i s =
      let r = make_room routing i s in
      let (table, added) = add_peer (by_id i) false r.table in
      (
        record {
          table = table;
          expires = insert i (clock r.readings + ttl) r.expires;
          readings = r.readings + 1;
        },
        added,
      )

  unfoldable pub admit : Peer → Bool → Eligibility T × Bool → Eligibility T × Result Bool
  admit peer skip (s, false) = (s, ok false)
  admit peer skip (s, true) =
      let (table, added) = add_peer peer skip s.table in (record s { table = table }, added)

  unfoldable pub guarded_add : Peer → Bool → Eligibility T → Eligibility T × Result Bool
  unfolding admit is_eligible
  guarded_add peer skip s = admit peer skip (is_eligible (peer_id_of peer) s)

  unfoldable pub filter_eligible : List Bytes → Eligibility T → Eligibility T × List Bytes
  unfolding is_eligible
  filter_eligible [] s = (s, [])
  filter_eligible (i ∷ is') s =
      let (s', eligible) = is_eligible i s in
      let (end, rest) = filter_eligible is' s' in (end, if eligible then i ∷ rest else rest)

  unfoldable pub guarded_find : Bytes → ℕ → Eligibility T → Eligibility T × List Bytes
  unfolding filter_eligible
  guarded_find key count s =
      let all_peers = find_local_closest_peers key (larger count (size s.table)) s.table in
      let (s', eligible) = filter_eligible all_peers s in (s', take count eligible)
