-- ===== src/Tests/Graphs.antt =====
-- A relay graph of two relays and the adjacency between them, with the toy ciphers.
use earendil.Base.{
  ℕ, nat_beq, if◌then◌else◌, ◌<◌, ◌≡◌, ◌↔◌, inl, refl, true, some, [], ◌∷◌, arith, Result, ok, err,
  panic, get, insert, set_insert, contains, take, replicate, set_remove, keys_where, remove, retain,
  pair_eq, nat_eq,
}
use earendil.Crypto.{verify, fingerprint, public, sign, ascii, be_bytes, le_bytes, of_be, of_le}
use earendil.Packet.Crypt.{onion_public}
use earendil.Packet.Raw.{bytes_beq}
use earendil.Topology.Graph.{
  RelayGraph, AdjacencyDescriptor, IdentityDescriptor, StdCode, new, new_identity, insert_identity,
  insert_adjacency, adjacency_to_sign, identity_to_sign, verify_adjacency, cleanup, identity,
  alloc_id, id_of, drop_document, drop_documents, forget_identities, forget_identity, is_outdated,
  link, neighbors, outdated_identities, record_adjacency, sub_u64, unlink,
}
use earendil.Topology.Invariant.{IsWellFormed}
use earendil.Topology.Invariant.Insert.{
  new-IsWellFormed, insert_identity-IsWellFormed, insert_adjacency-IsWellFormed,
  verify_adjacency_iff,
}
use earendil.Topology.Invariant.Cleanup.{Cleans, cleanup-Cleans, cleanup-IsWellFormed}
use earendil.Topology.Queries.{IsDocumentOf}
use earendil.Topology.Search.{find_shortest_path}
use earendil.Topology.Search.Correct.{IsAnswer, find_shortest_path-IsAnswer}
use earendil.Tests.Ciphers.{ciphers}

abbrev pub code : StdCode
code = record {
  adjacency = λ d. d.left ∷ d.right ∷ d.unix_timestamp ∷ [];
  identity = λ d. d.identity_pk ∷ d.onion_pk ∷ d.unix_timestamp ∷ [];
}

abbrev pub state_of : {E : Type 0} → Result E RelayGraph → RelayGraph
state_of (ok g) = g
state_of (err e) = new
state_of panic = new

abbrev pub alice : IdentityDescriptor
alice = new_identity ciphers code 1 11 true 100

abbrev pub with_alice : RelayGraph
with_alice = state_of (insert_identity ciphers code new alice)

alice_accepted : insert_identity ciphers code new alice ≡ ok with_alice
unfolding insert_identity verify identity_to_sign new_identity public sign take replicate bytes_beq
    onion_public
alice_accepted = refl

abbrev pub bob : IdentityDescriptor
bob = new_identity ciphers code 2 12 true 100

abbrev pub with_both : RelayGraph
with_both = state_of (insert_identity ciphers code with_alice bob)

bob_accepted : insert_identity ciphers code with_alice bob ≡ ok with_both
unfolding insert_identity verify identity_to_sign new_identity public sign take replicate bytes_beq
    onion_public
bob_accepted = refl

-- The adjacency of the two, signed by both.
abbrev pub unsigned : AdjacencyDescriptor
unsigned = record {
  left = fingerprint ciphers 1;
  right = fingerprint ciphers 2;
  left_sig = [];
  right_sig = [];
  unix_timestamp = 110;
}

abbrev pub signed : AdjacencyDescriptor
signed = record unsigned {
  left_sig = sign ciphers 1 (adjacency_to_sign ciphers code unsigned);
  right_sig = sign ciphers 2 (adjacency_to_sign ciphers code unsigned);
}

abbrev pub linked : RelayGraph
linked = state_of (insert_adjacency ciphers code 120 with_both signed)

signed_accepted : insert_adjacency ciphers code 120 with_both signed ≡ ok linked
unfolding insert_adjacency verify_adjacency fingerprint of_be take be_bytes identity get
    insert_identity verify new_identity sign replicate bytes_beq public onion_public alloc_id new
    contains set_insert set_remove insert keys_where remove retain ascii le_bytes of_le
    adjacency_to_sign cleanup drop_document drop_documents forget_identities forget_identity id_of
    identity_to_sign is_outdated link neighbors outdated_identities record_adjacency sub_u64 unlink
signed_accepted = refl

with_alice-IsWellFormed : IsWellFormed ciphers with_alice
unfolding new
with_alice-IsWellFormed =
    insert_identity-IsWellFormed ciphers code new with_alice alice (omega arith)
      (new-IsWellFormed ciphers) alice_accepted

pub with_both-IsWellFormed : IsWellFormed ciphers with_both
unfolding insert_identity verify identity_to_sign new_identity public sign take replicate bytes_beq
    onion_public alloc_id get new
with_both-IsWellFormed =
    insert_identity-IsWellFormed ciphers code with_alice with_both bob (omega arith)
      with_alice-IsWellFormed bob_accepted

pub linked-IsWellFormed : IsWellFormed ciphers linked
linked-IsWellFormed =
    insert_adjacency-IsWellFormed ciphers code 120 with_both linked signed with_both-IsWellFormed
      signed_accepted

new-IsWellFormed_example : IsWellFormed ciphers new
new-IsWellFormed_example = new-IsWellFormed ciphers

insert_identity-IsWellFormed_example : IsWellFormed ciphers with_alice
unfolding new
insert_identity-IsWellFormed_example =
    insert_identity-IsWellFormed ciphers code new with_alice alice (omega arith)
      (new-IsWellFormed ciphers) alice_accepted

insert_adjacency-IsWellFormed_example : IsWellFormed ciphers linked
insert_adjacency-IsWellFormed_example =
    insert_adjacency-IsWellFormed ciphers code 120 with_both linked signed with_both-IsWellFormed
      signed_accepted

cleanup-IsWellFormed_example : IsWellFormed ciphers (cleanup 5000 linked)
cleanup-IsWellFormed_example = cleanup-IsWellFormed 5000 linked ciphers linked-IsWellFormed

cleanup-Cleans_example : Cleans 5000 linked (cleanup 5000 linked)
cleanup-Cleans_example = cleanup-Cleans 5000 linked ciphers linked-IsWellFormed

verify_adjacency_iff_example : (verify_adjacency ciphers code with_both signed ≡ ok tt) ↔ (
    (signed.left < signed.right)
    × (left : IdentityDescriptor) × (right : IdentityDescriptor) × (identity with_both signed.left
        ≡ some left)
    × (identity with_both signed.right ≡ some right)
    × (verify ciphers left.identity_pk (adjacency_to_sign ciphers code signed) signed.left_sig
        ≡ ok tt)
    × (verify ciphers right.identity_pk (adjacency_to_sign ciphers code signed) signed.right_sig
        ≡ ok tt))
verify_adjacency_iff_example = verify_adjacency_iff ciphers code with_both signed

find_shortest_path-IsAnswer_example :
    IsAnswer linked
      (fingerprint ciphers 1)
      (fingerprint ciphers 2)
      (find_shortest_path linked (fingerprint ciphers 1) (fingerprint ciphers 2))
find_shortest_path-IsAnswer_example =
    find_shortest_path-IsAnswer ciphers linked (fingerprint ciphers 1) (fingerprint ciphers 2)
      linked-IsWellFormed

signed_document : IsDocumentOf linked (fingerprint ciphers 1) signed
unfolding insert_adjacency verify_adjacency fingerprint of_be take be_bytes identity get
    insert_identity verify new_identity sign replicate bytes_beq public onion_public alloc_id new
    contains set_insert set_remove insert keys_where remove retain ascii le_bytes of_le
    adjacency_to_sign cleanup drop_document drop_documents forget_identities forget_identity id_of
    identity_to_sign is_outdated link neighbors outdated_identities record_adjacency sub_u64 unlink
signed_document = record { key = (0, 1); stored = refl; side = inl refl }

abbrev pub secret_of : ℕ → ℕ
secret_of fp = if nat_beq fp (fingerprint ciphers 1) then 11 else 12

pub linked_keys :
    (fp : ℕ) (d : IdentityDescriptor)
    → identity linked fp ≡ some d
    → d.onion_pk ≡ onion_public ciphers (secret_of fp)
unfolding insert_adjacency verify_adjacency fingerprint of_be take be_bytes identity get
    insert_identity verify new_identity sign replicate bytes_beq public onion_public alloc_id new
    contains set_insert set_remove insert keys_where remove retain ascii le_bytes of_le
    adjacency_to_sign cleanup drop_document drop_documents forget_identities forget_identity id_of
    identity_to_sign is_outdated link neighbors outdated_identities record_adjacency sub_u64 unlink
linked_keys fp d h = ground arith
