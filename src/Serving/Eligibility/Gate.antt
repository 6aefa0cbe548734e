-- ===== src/Serving/Eligibility/Gate.antt =====
-- src/decent_registry/dht/serving_eligibility.py: what the operations of `RoutingEligibility` keep.
use decent_registry.Prelude.{
  ℕ, ◌≤◌, ◌<◌, Bool, true, false, List, [], ◌∷◌, ◌≡◌, if◌then◌else◌, length, ◌⊎◌, ◌≟◌, bytes_eq,
  contains,
}
use decent_registry.Prelude.Dictionary.{lookup}
use decent_registry.Cbor.{Bytes}
use decent_registry.Serving.Eligibility.{
  max_eligible_peers, Peer, peer_id_of, RoutingTable, Eligibility, is_present, clear, is_eligible,
  record_valid_response, guarded_add, guarded_find,
}

-- What libp2p's routing table does: a peer is gone once it has been removed, and no other; only
-- the peer that is added is new; and the buckets list the peers.
pub record IsTable {T : Type 0} (routing : RoutingTable T) (has : Bytes → T → Bool) : Type 0 where
  pub removed :
      (i j : Bytes) (t : T) → has j (routing.remove_peer i t) ≡ (if j ≟ i then false else has j t)
  pub added :
      (p : Peer) (skip : Bool) (t : T) (j : Bytes)
      → has j (routing.add_peer p skip t).0 ≡ true
      → (j ≡ peer_id_of p) ⊎ (has j t ≡ true)
  pub listed : (t : T) (j : Bytes) → has j t ≡ true → contains j (routing.peer_ids t) ≡ true

-- The operations of the gate.
pub data Operation : Type 0 where
  check : Bytes → Operation
  prove : Bytes → Operation
  forget : Operation
  add : Peer → Bool → Operation
  find : Bytes → ℕ → Operation

module _ {T : Type 0} (routing : RoutingTable T) (has : Bytes → T → Bool)
    (law : IsTable routing has) where
  -- At most the allowed number of proofs, and one for each peer of the table.
  pub record IsGated (s : Eligibility T) : Type 0 where
    pub bounded : length s.expires ≤ max_eligible_peers
    pub admitted : (j : Bytes) → has j s.table ≡ true → is_present (lookup j s.expires) ≡ true

  -- A proof of the peer is known, or there is room for one more.
  abbrev HasRoom : Bytes → Eligibility T → Type 0
  HasRoom i s = (is_present (lookup i s.expires) ≡ true) ⊎ (length s.expires < max_eligible_peers)

  module _ (clock : ℕ → ℕ) (ttl : ℕ) where
    -- A call of the gate's methods.
    unfoldable pub after_operation : Operation → Eligibility T → Eligibility T
    after_operation (check i) s = (is_eligible routing clock ttl i s).0
    after_operation (prove i) s = (record_valid_response routing clock ttl i s).0
    after_operation forget s = clear routing s
    after_operation (add peer skip) s = (guarded_add routing clock ttl peer skip s).0
    after_operation (find key count) s = (guarded_find routing clock ttl key count s).0

    unfoldable pub after_operations : List Operation → Eligibility T → Eligibility T
    unfolding after_operation
    after_operations [] s = s
    after_operations (o ∷ os) s = after_operations os (after_operation o s)
