-- ===== src/Links/Gossip.antt =====
-- src/daemon/gossip.rs: a round of gossip with one neighbour, whatever the neighbour answers.
use earendil.Base.{
  ℕ, ◌+◌, Bool, Option, none, some, List, [], ◌∷◌, ltb, if◌then◌else◌, Result, ok, err, panic,
}
use earendil.Crypto.{Primitives, VerifyError, fingerprint, public, sign}
use earendil.Topology.Graph.{
  RelayGraph, AdjacencyDescriptor, IdentityDescriptor, AdjacencyError, StdCode, new_identity,
  insert_identity, insert_adjacency, adjacency_to_sign,
}
use earendil.Daemon.Action.{Action, ◌>>=◌, ◌>>◌, return, require}

-- Why a round ends early.
pub data GossipError : Type 0 where
  rpc_failed refused_identity refused_signature : GossipError
  bad_identity : VerifyError → GossipError
  bad_adjacency : AdjacencyError → GossipError

-- The neighbour at the other end. It may answer each call as it likes; `n` numbers the calls, and the
-- outer `none` is a call that failed.
pub record Peer : Type 0 where
  pub identity : ℕ → ℕ → Option (Option IdentityDescriptor)
  pub sign_adjacency : AdjacencyDescriptor → Option (Option AdjacencyDescriptor)
  pub adjacencies : Option (List AdjacencyDescriptor)

module _ (prim : Primitives) (code : StdCode) (now : ℕ) where
  abbrev pub Round : Type 0 → Type 0
  Round A = Action RelayGraph GossipError A

  -- What an update comes to; one that fails leaves the graph as it is.
  abbrev pub updated :
      {E : Type 0}
      → (E → GossipError)
      → Result E RelayGraph
      → RelayGraph
      → Result GossipError (Unit {0}) × RelayGraph
  updated f (ok h) g = (ok tt, h)
  updated f (err e) g = (err (f e), g)
  updated f panic g = (panic, g)

  -- RELAY_GRAPH.write().insert_identity(d)?
  unfoldable pub add_identity : IdentityDescriptor → Round (Unit {0})
  add_identity d g = updated bad_identity (insert_identity prim code g d) g

  -- if let Some(d) = answer { .. }
  unfoldable pub add_if_some : Option IdentityDescriptor → Round (Unit {0})
  unfolding add_identity
  add_if_some none = return tt
  add_if_some (some d) = add_identity d

  -- RELAY_GRAPH.write().insert_adjacency(adj)?
  unfoldable pub add_adjacency : AdjacencyDescriptor → Round (Unit {0})
  add_adjacency adj g = updated bad_adjacency (insert_adjacency prim code now g adj) g

  -- The start of a turn of `gossip_loop`: we enter ourselves.
  unfoldable pub insert_ourselves : ℕ → ℕ → Bool → Round (Unit {0})
  unfolding add_identity
  insert_ourselves my_identity my_onion am_i_relay =
      add_identity (new_identity prim code my_identity my_onion am_i_relay now)

  -- The descriptor that the left side signs first.
  unfoldable pub left_incomplete : ℕ → ℕ → AdjacencyDescriptor
  left_incomplete remote_idpk my_identity =
      let unsigned : AdjacencyDescriptor = record {
        left = fingerprint prim (public prim my_identity);
        right = fingerprint prim remote_idpk;
        left_sig = [];
        right_sig = [];
        unix_timestamp = now;
      } in
      record unsigned { left_sig = sign prim my_identity (adjacency_to_sign prim code unsigned) }

  module _ (peer : Peer) (remote_idpk my_identity : ℕ) where
    unfoldable pub fetch_identity : Round (Unit {0})
    unfolding add_identity
    fetch_identity = do
      answer ← require (peer.identity 0 (fingerprint prim remote_idpk)) rpc_failed
      their_id ← require answer refused_identity
      add_identity their_id

    unfoldable pub request_signature : Round (Unit {0})
    unfolding left_incomplete add_adjacency
    request_signature = do
      answer ← require (peer.sign_adjacency (left_incomplete remote_idpk my_identity)) rpc_failed
      complete ← require answer refused_signature
      add_adjacency complete

    unfoldable pub sign_with_peer : Round (Unit {0})
    unfolding request_signature
    sign_with_peer =
        if ltb (fingerprint prim (public prim my_identity)) (fingerprint prim remote_idpk)
        then request_signature
        else return tt

    -- An identity that the peer may have.
    unfoldable pub refresh : ℕ → ℕ → Round (Unit {0})
    unfolding add_if_some
    refresh n fp = do answer ← require (peer.identity n fp) rpc_failed; add_if_some answer

    -- The loop of `gossip_graph`.
    unfoldable pub take_adjacencies : ℕ → List AdjacencyDescriptor → Round (Unit {0})
    unfolding refresh add_adjacency
    take_adjacencies n [] = return tt
    take_adjacencies n (adjacency ∷ adjacencies) = do
      refresh n adjacency.left
      refresh (n + 1) adjacency.right
      add_adjacency adjacency
      take_adjacencies (n + 2) adjacencies

    unfoldable pub gossip_graph : Round (Unit {0})
    unfolding take_adjacencies
    gossip_graph = do
      adjacencies ← require peer.adjacencies rpc_failed
      take_adjacencies 1 adjacencies

    unfoldable pub gossip_once : Round (Unit {0})
    unfolding fetch_identity sign_with_peer gossip_graph
    gossip_once = do fetch_identity; sign_with_peer; gossip_graph
