-- ===== src/Tests/Peers.antt =====
-- The gate of src/decent_registry/dht/serving_eligibility.py over a routing table that is a list.
use decent_registry.Prelude.{
  ◌≤◌, true, false, List, [], ◌∷◌, if◌then◌else◌, length, take, ◌≟◌, bytes_eq, ok, All,
}
use decent_registry.Cbor.{Bytes}
use decent_registry.Serving.Eligibility.{by_id, peer_id_of, RoutingTable, Eligibility, guarded_find}
use decent_registry.Serving.Eligibility.Gate.{Operation, check, prove, add, find}
use decent_registry.Serving.Eligibility.Find.{Proven, guarded_find-Proven}

without : Bytes → List Bytes → List Bytes
without i [] = []
without i (j ∷ t) = let rest = without i t in if i ≟ j then rest else j ∷ rest

abbrev list_table : RoutingTable (List Bytes)
unfolding without
list_table = record {
  add_peer = λ p skip t. (peer_id_of p ∷ t, ok true);
  remove_peer = without;
  find_local_closest_peers = λ key count t. take count t;
  size = length;
  peer_ids = λ t. t;
}

-- A stranger is refused, two peers answer, one of them is found, and its proof is checked.
abbrev operations : List Operation
operations =
    add (by_id (9 ∷ [])) false
    ∷ prove (1 ∷ [])
    ∷ prove (2 ∷ [])
    ∷ find (1 ∷ []) 1
    ∷ check (2 ∷ [])
    ∷ []

abbrev two_peers : Eligibility (List Bytes)
two_peers = record {
  table = (1 ∷ []) ∷ (2 ∷ []) ∷ [];
  expires = (1 ∷ [], 3) ∷ (2 ∷ [], 8) ∷ [];
  readings = 5;
}

guarded_find-Proven_example :
    All
      (Proven list_table (λ n. n) 300 two_peers)
      (guarded_find list_table (λ n. n) 300 (1 ∷ []) 1 two_peers).1
    × (length (guarded_find list_table (λ n. n) 300 (1 ∷ []) 1 two_peers).1 ≤ 1)
guarded_find-Proven_example =
    guarded_find-Proven list_table (λ n. n) 300 two_peers (λ a b h. h) (1 ∷ []) 1
