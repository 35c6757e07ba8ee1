-- ===== src/Tests/Links.antt =====
-- Two neighbours that authenticate, sign an adjacency and gossip, with the toy ciphers.
use earendil.Base.{
  contains, set_insert, set_remove, insert, keys_where, remove, retain, ◌+◌, ◌*◌, ◌≤◌, ◌≡◌, ◌<◌,
  refl, true, some, [], ◌∷◌, arith, ok, nat_beq, take, replicate, get,
}
use earendil.Packet.Crypt.{onion_public}
use earendil.Packet.Raw.{bytes_beq}
use earendil.Crypto.{ascii, le_bytes, of_le, fingerprint, public, sign, be_bytes, of_be, verify}
use earendil.Topology.Graph.{
  insert_identity, new_identity, alloc_id, new, identity_to_sign, identity, insert_adjacency,
  record_adjacency, cleanup, id_of,
}
use earendil.Topology.Invariant.{IsWellFormed}
use earendil.Links.Protocol.{sign_adjacency}
use earendil.Links.Gossip.{Peer, left_incomplete, gossip_once}
use earendil.Links.Signing.{Knows, IsAnswer, completed, sign_adjacency-IsAnswer, two_sides_sign}
use earendil.Links.Safety.{adjacencies_in, gossip_once-IsWellFormed}
use earendil.Tests.Ciphers.{ciphers, ciphers-IsLawful}
use earendil.Tests.Graphs.{code, alice, bob, with_both, with_both-IsWellFormed, signed}

-- A peer that knows of bob and sends one adjacency.
abbrev peer : Peer
peer = record {
  identity = λ n fp. some (some bob);
  sign_adjacency = λ adj. some (some signed);
  adjacencies = some (signed ∷ []);
}

alice_known : Knows ciphers code with_both 1
unfolding fingerprint of_be take be_bytes identity get insert_identity verify new_identity sign
    replicate bytes_beq public onion_public alloc_id new contains set_insert set_remove insert
    keys_where remove retain ascii le_bytes of_le id_of identity_to_sign
alice_known = (alice, refl, refl)

bob_known : Knows ciphers code with_both 2
unfolding fingerprint of_be take be_bytes identity get insert_identity verify new_identity sign
    replicate bytes_beq public onion_public alloc_id new contains set_insert set_remove insert
    keys_where remove retain ascii le_bytes of_le id_of identity_to_sign
bob_known = (bob, refl, refl)

smaller : fingerprint ciphers (public ciphers 1) < fingerprint ciphers (public ciphers 2)
unfolding fingerprint of_be take be_bytes public ascii le_bytes of_le
smaller = omega arith

two_ids : with_both.unalloc_id ≡ 2
unfolding fingerprint of_be take be_bytes identity get insert_identity verify new_identity sign
    replicate bytes_beq public onion_public alloc_id new contains set_insert set_remove insert
    keys_where remove retain ascii le_bytes of_le id_of identity_to_sign
two_ids = refl

sign_adjacency-IsAnswer_example :
    IsAnswer ciphers code 130 2
      (nat_beq (fingerprint ciphers 1))
      with_both
      signed
      (sign_adjacency ciphers code 130 2 (nat_beq (fingerprint ciphers 1)) with_both signed).0
      (sign_adjacency ciphers code 130 2 (nat_beq (fingerprint ciphers 1)) with_both signed).1
sign_adjacency-IsAnswer_example =
    sign_adjacency-IsAnswer ciphers code 130 2 (nat_beq (fingerprint ciphers 1)) with_both signed
      with_both-IsWellFormed

two_sides_sign_example :
    let adj = left_incomplete ciphers code 110 (public ciphers 2) 1 in
    ((sign_adjacency ciphers code 111 2 (λ fp. true) with_both adj).0
      ≡ some (completed ciphers code 2 adj))
    × (insert_adjacency ciphers code 110 with_both (completed ciphers code 2 adj)
        ≡ ok (cleanup 110 (record_adjacency ciphers code with_both (completed ciphers code 2 adj))))
two_sides_sign_example =
    two_sides_sign ciphers code ciphers-IsLawful 110 111 1 2 (λ fp. true) with_both with_both
      smaller refl alice_known bob_known alice_known bob_known

gossip_once-IsWellFormed_example :
    IsWellFormed ciphers (gossip_once ciphers code 130 peer 2 1 with_both).1
    × (((gossip_once ciphers code 130 peer 2 1 with_both).1).unalloc_id
        ≤ with_both.unalloc_id + (1 + 2 * adjacencies_in peer.adjacencies))
unfolding adjacencies_in
gossip_once-IsWellFormed_example =
    gossip_once-IsWellFormed ciphers code 130 peer 2 1 with_both with_both-IsWellFormed
      (omega (arith, two_ids))
