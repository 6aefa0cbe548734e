-- ===== src/Verification/Replay/Invariants.antt =====
-- src/decent_registry/verification.py: invariants of the states and of the transitions of an
-- Identity lineage.
use decent_registry.Prelude.{◌<◌, ◌≤◌, Option, some, List, ◌≡◌, arith, ok, length, ◌⊎◌, inl, inr}
use decent_registry.Cbor.{Bytes, Library}
use decent_registry.Verification.Candidate.{
  MultisignatureState, Candidate, decode_multisignature_candidate,
}
use decent_registry.Verification.Candidate.Quorum.{Quorum}
use decent_registry.Verification.Transitions.Common.{IsStateOf, Follows}
use decent_registry.Verification.Transitions.Extensions.{Rotation}
use decent_registry.Verification.Replay.Lineage.{
  Extension, ordinary, replacement, rotation, Lineage, genesis, upgrade, rotated, extend,
  validate_multisignature_history-Lineage, validate_multisignature_update-Extension,
}
use decent_registry.Verification.Replay.{
  validate_multisignature_history, validate_multisignature_update,
}

module _ (lib : Library) (key : Bytes) where
  -- The successor is the state of the candidate that the envelope decodes to. It keeps the key and
  -- the kind, is newer, and the candidate names the predecessor by its hash. The candidate is
  -- signed by a quorum of the predecessor's Signer Set. The epoch never falls.
  pub record IsSuccessor (e : Bytes) (s s' : MultisignatureState) : Type 0 where
    pub c : Candidate
    pub decoded : decode_multisignature_candidate lib e ≡ ok c
    pub signed_update_bytes : s'.signed_update_bytes ≡ c.signed_update_bytes
    pub seq : s'.seq ≡ c.seq
    pub record_key : (s.record_key ≡ key) × (s'.record_key ≡ key)
    pub record_kind : s'.record_kind ≡ s.record_kind
    pub newer : s.seq < s'.seq
    pub epoch : s.epoch ≤ s'.epoch
    pub linked : c.authorization.predecessor ≡ s.state_hash
    pub hashed : s'.state_hash ≡ lib.sha256 c.signed_update_bytes
    pub authorized : Quorum lib c.signed_update_bytes s.signer_set s.threshold c.envelope.proofs

  Follows-IsSuccessor :
      {c : Candidate} {history : Option (List Bytes)} {e : Bytes} {s s' : MultisignatureState}
      → decode_multisignature_candidate lib e ≡ ok c
      → IsStateOf lib key c history s'
      → Follows key c s
      → s.epoch ≤ c.authorization.epoch
      → Quorum lib c.signed_update_bytes s.signer_set s.threshold c.envelope.proofs
      → IsSuccessor e s s'
  Follows-IsSuccessor {c} decoded o f epoch authorized = record {
    c = c;
    decoded = decoded;
    signed_update_bytes = o.signed_update_bytes;
    seq = o.seq;
    record_key = (f.record_key, o.record_key);
    record_kind = cc (o.record_kind, f.record_kind);
    newer = omega (arith, f.newer, o.seq);
    epoch = omega (arith, o.epoch);
    linked = f.linked;
    hashed = o.state_hash;
    authorized = authorized;
  }

  pub Extension-IsSuccessor :
      (e : Bytes) (s s' : MultisignatureState) → Extension lib key e s s' → IsSuccessor e s s'
  Extension-IsSuccessor e s s' (ordinary o) =
      Follows-IsSuccessor o.decoded o.state o.follows (omega (arith, o.epoch)) o.authorized
  Extension-IsSuccessor e s s' (replacement o) =
      Follows-IsSuccessor o.decoded o.state o.follows (omega (arith, o.epoch)) o.authorized
  Extension-IsSuccessor e s s' (rotation o) = record {
    c = o.c;
    decoded = o.decoded;
    signed_update_bytes = o.state.signed_update_bytes;
    seq = o.state.seq;
    record_key = (o.record_key, o.state.record_key);
    record_kind = cc (o.state.record_kind, o.record_kind, o.predecessor_kind);
    newer = omega (arith, o.next, o.state.seq);
    epoch = omega (arith, o.state.epoch, o.epoch);
    linked = o.linked;
    hashed = o.state.state_hash;
    authorized = o.authorized;
  }

  -- The owner's public key changes by a rotation alone.
  pub Extension-owner :
      (e : Bytes) (s s' : MultisignatureState)
      → Extension lib key e s s'
      → (s'.owner_public_key ≡ s.owner_public_key) ⊎ Rotation lib key e s s'
  Extension-owner e s s' (rotation o) = inr o
  Extension-owner e s s' (ordinary o) =
      inl (ground (arith, o.state.owner, o.follows.owner, o.follows.record_kind))
  Extension-owner e s s' (replacement o) =
      inl (ground (arith, o.state.owner, o.follows.owner, o.follows.record_kind))

  -- An update that `validate_multisignature_update` accepts on a state leads to a successor of it:
  -- the state of the candidate that the envelope decodes to, of the same key and kind, with a larger
  -- sequence number and no smaller epoch. The candidate has the hash of the state as its predecessor
  -- and the proofs of a quorum of the state's Signer Set. The owner's key stays, unless the update
  -- is a rotation.
  pub validate_multisignature_update-IsSuccessor :
      (e : Bytes) (s s' : MultisignatureState) (legacy : Option Bytes)
      → validate_multisignature_update lib key e (some s) legacy ≡ ok s'
      → IsSuccessor e s s' × ((s'.owner_public_key ≡ s.owner_public_key) ⊎ Rotation lib key e s s')
  validate_multisignature_update-IsSuccessor e s s' legacy h =
      let x = validate_multisignature_update-Extension lib key e s s' legacy h in
      (Extension-IsSuccessor e s s' x, Extension-owner e s s' x)

  -- Every state of a lineage is authorized by two of three members.
  pub record IsTwoOfThree (s : MultisignatureState) : Type 0 where
    pub record_key : s.record_key ≡ key
    pub threshold : s.threshold ≡ 2
    pub members : length s.signer_set ≡ 3
    pub epoch : 1 ≤ s.epoch
    pub state_hash : s.state_hash ≡ lib.sha256 s.signed_update_bytes

  IsStateOf-IsTwoOfThree :
      {c : Candidate} {history : Option (List Bytes)} {s : MultisignatureState}
      → IsStateOf lib key c history s
      → c.authorization.threshold ≡ 2
      → length c.authorization.signer_set ≡ 3
      → 1 ≤ c.authorization.epoch
      → IsTwoOfThree s
  IsStateOf-IsTwoOfThree o threshold members epoch = record {
    record_key = o.record_key;
    threshold = omega (arith, o.threshold);
    members = rw o.signer_set members;
    epoch = omega (arith, o.epoch);
    state_hash = rw o.signed_update_bytes o.state_hash;
  }

  Extension-IsTwoOfThree :
      (e : Bytes) (s s' : MultisignatureState)
      → Extension lib key e s s'
      → IsTwoOfThree s
      → IsTwoOfThree s'
  Extension-IsTwoOfThree e s s' (ordinary o) i =
      IsStateOf-IsTwoOfThree o.state (omega (arith, o.threshold, i.threshold))
        (rw o.signer_set i.members) (omega (arith, o.epoch, i.epoch))
  Extension-IsTwoOfThree e s s' (replacement o) i =
      IsStateOf-IsTwoOfThree o.state o.threshold o.members (omega (arith, o.epoch, i.epoch))
  Extension-IsTwoOfThree e s s' (rotation o) i =
      IsStateOf-IsTwoOfThree o.state (omega (arith, o.threshold, i.threshold))
        (rw o.signer_set i.members) (omega (arith, o.epoch, i.epoch))

  pub Lineage-IsTwoOfThree :
      (es : List Bytes) (s : MultisignatureState) → Lineage lib key es s → IsTwoOfThree s
  Lineage-IsTwoOfThree es s (genesis g) =
      IsStateOf-IsTwoOfThree g.state g.threshold g.members (omega (arith, g.epoch))
  Lineage-IsTwoOfThree es s (upgrade g) =
      IsStateOf-IsTwoOfThree g.state g.threshold g.members (omega (arith, g.epoch))
  Lineage-IsTwoOfThree es s (rotated g) =
      IsStateOf-IsTwoOfThree g.state g.threshold g.members (omega (arith, g.epoch))
  Lineage-IsTwoOfThree es s (extend {e = e} {s = t} l x p) =
      Extension-IsTwoOfThree e t s x (Lineage-IsTwoOfThree _ t l)

  -- The state of a history that replays has the looked-up key, a threshold of two, a Signer Set of
  -- three members, an epoch of at least 1, and the hash of its own update.
  pub validate_multisignature_history-IsTwoOfThree :
      (es : List Bytes) (s : MultisignatureState)
      → validate_multisignature_history lib key es ≡ ok s
      → IsTwoOfThree s
  validate_multisignature_history-IsTwoOfThree es s h =
      Lineage-IsTwoOfThree es s (validate_multisignature_history-Lineage lib key es s h).0
