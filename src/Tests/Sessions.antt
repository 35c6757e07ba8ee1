-- ===== src/Tests/Sessions.antt =====
-- A client and a haven that talk, with the toy ciphers and a replay filter that forgets nothing.
use earendil.Base.{
  ℕ, zero, suc, ◌&&◌, ◌≡◌, ◌<◌, refl, true, false, Option, none, some, List, [], ◌∷◌, map, arith,
  contains, take, nat_eq, nat_beq, nat_beq_iff, if◌then◌else◌, ok, get, Bool-cases, inl, inr,
}
use earendil.Crypto.{Bytes, fingerprint, public}
use earendil.Daemon.State.{Endpoint}
use earendil.Daemon.External.{Channel}
use earendil.Havens.Session.{
  Handshake, HavenMsg, client_hs, server_hs, regular, SessionCode, ReplayFilter, Session, running,
  rendezvous_ep, new_handshake,
}
use earendil.Havens.Session.Streams.{
  IsReplayFilter, sealed, receives, receives_once, NoRepeats, AreAmong,
}
use earendil.Havens.Sockets.{bind_haven, recv_turn}
use earendil.Havens.Sockets.Refuses.{OwnsAll, Comes-OwnsAll, here, then_happens, gets_packet}
use earendil.Havens.Sockets.Reaches.{IsSessionCode}
use earendil.Havens.Sockets.Conversation.{conversation}
use earendil.Havens.Sockets.Delivers.{haven_delivers}
use earendil.Tests.Ciphers.{ciphers, ciphers-IsLawful}
use earendil.Tests.Worlds.{channel, channel-IsChannel, channel-HasCapacity}
use earendil.Havens.Locators.{new_locator}
use earendil.Tests.Havens.{packed, locator}

-- The filter is the list of what it accepted.
abbrev pub exact_filter : ReplayFilter
exact_filter = record {
  Filter = List ℕ;
  fresh = [];
  add = λ n f. if contains n f then (false, f) else (true, n ∷ f);
}

add_lem :
    (m n : ℕ) (f : List ℕ)
    → contains m (exact_filter.add n f).1
      ≡ (if (exact_filter.add n f).0 && nat_beq n m then true else contains m f)
unfolding contains
add_lem m n f = ground (arith, nat_beq_iff n m)

add_newest :
    (n : ℕ) (f : List ℕ) → ((m : ℕ) → contains m f ≡ true → m < n) → (exact_filter.add n f).0 ≡ true
add_newest n f below = elim (Bool-cases (contains n f)) [
  | inl e ↦ absurd (omega (arith, below n e))
  | inr e ↦ rw e refl
]

exact_filter-IsReplayFilter : IsReplayFilter exact_filter
unfolding contains
exact_filter-IsReplayFilter = record {
  was_added = λ f n. contains n f;
  was_added-fresh = λ n. refl;
  was_added-add = add_lem;
  add_once = λ n f h. ground (arith, h);
  add_newest = add_newest;
}

abbrev encode_plain : HavenMsg → Bytes
encode_plain (client_hs hs) = 0 ∷ hs.id_pk ∷ hs.eph_pk ∷ hs.sig
encode_plain (server_hs hs) = 1 ∷ hs.id_pk ∷ hs.eph_pk ∷ hs.sig
encode_plain (regular nonce inner) = 2 ∷ nonce ∷ inner

abbrev as_handshake : Bytes → Option Handshake
as_handshake (id_pk ∷ eph_pk ∷ sig) = some (record { id_pk = id_pk; eph_pk = eph_pk; sig = sig })
as_handshake (id_pk ∷ []) = none
as_handshake [] = none

abbrev decode_as : Bytes → ℕ → Option HavenMsg
decode_as rest zero = elim (as_handshake rest) [ none ↦ none | some hs ↦ some (client_hs hs) ]
decode_as rest (suc zero) = elim (as_handshake rest) [ none ↦ none | some hs ↦ some (server_hs hs) ]
decode_as (nonce ∷ inner) (suc (suc n)) = some (regular nonce inner)
decode_as [] (suc (suc n)) = none

abbrev decode_plain : Bytes → Option HavenMsg
decode_plain [] = none
decode_plain (tag ∷ rest) = decode_as rest tag

abbrev pub plain_code : SessionCode
plain_code = record {
  handshake = λ hs. hs.id_pk ∷ hs.eph_pk ∷ [];
  encode_msg = encode_plain;
  decode_msg = decode_plain;
  forward = packed;
}

decode-encode_plain : (msg : HavenMsg) → decode_plain (encode_plain msg) ≡ some msg
decode-encode_plain (client_hs hs) = refl
decode-encode_plain (server_hs hs) = refl
decode-encode_plain (regular nonce inner) = refl

plain_code-IsSessionCode : IsSessionCode plain_code
plain_code-IsSessionCode = record {
  decode-encode_forward = λ body ep. refl;
  decode-encode_msg = decode-encode_plain;
}

abbrev alice : Endpoint
alice = (fingerprint ciphers (public ciphers 9), 5)

abbrev bob : Endpoint
bob = (7, 1)

abbrev decrypted : Channel (Bytes × Endpoint)
decrypted = channel (Bytes × Endpoint)

haven_delivers_example :
    decrypted.pending
      (conversation ciphers plain_code exact_filter decrypted 9 7 31 32 2 alice bob
        (some (ok (some locator)))
        ((7, tt) ∷ [])
        (65 ∷ [])
        ((66 ∷ []) ∷ [])).incoming
    ≡ (65 ∷ [], alice) ∷ (66 ∷ [], alice) ∷ []
unfolding take get rendezvous_ep new_locator
haven_delivers_example =
    haven_delivers ciphers ciphers-IsLawful plain_code plain_code-IsSessionCode exact_filter
      decrypted 9 7 31 32 2 alice bob (some (ok (some locator))) refl exact_filter-IsReplayFilter
      (channel-IsChannel (Bytes × Endpoint)) (channel-HasCapacity (Bytes × Endpoint)) ((7, tt) ∷ [])
      (65 ∷ []) ((66 ∷ []) ∷ []) refl refl (omega arith)

-- Messages 1, 0 and 1 again have come in.
abbrev waiting : Session exact_filter
waiting = record {
  my_isk = 7;
  remote = alice;
  rendezvous_fp = some 2;
  phase = running (1 ∷ []) (2 ∷ []) 0 [];
  recv_incoming = map (λ n. sealed ciphers (2 ∷ []) n (n ∷ [])) (1 ∷ 0 ∷ 1 ∷ []);
  recv_outgoing = [];
  outbox = [];
  inbox = [];
}

receives_once_example :
    let t = receives ciphers plain_code exact_filter 3 waiting in
    (taken : List ℕ) × (later : List ℕ) × (t.phase ≡ running (1 ∷ []) (2 ∷ []) 0 later)
    × (t.inbox ≡ map (λ n. (n ∷ [], alice)) taken)
    × NoRepeats taken
    × AreAmong taken (1 ∷ 0 ∷ 1 ∷ [])
receives_once_example =
    receives_once ciphers ciphers-IsLawful plain_code exact_filter exact_filter-IsReplayFilter
      (λ n. n ∷ []) (1 ∷ 0 ∷ 1 ∷ []) waiting (1 ∷ []) (2 ∷ []) 0 [] refl refl

-- The handshake of alice.
abbrev greeting : Bytes
greeting =
    packed.encode_forward (encode_plain (client_hs (new_handshake ciphers plain_code 9 31)), alice)

Comes-OwnsAll_example :
    OwnsAll ciphers plain_code exact_filter decrypted
      (recv_turn ciphers plain_code exact_filter decrypted greeting
        (bind_haven ciphers plain_code exact_filter decrypted 7 (some 2))).1
Comes-OwnsAll_example = Comes-OwnsAll ciphers plain_code exact_filter decrypted 7 (some 2) _ (
    then_happens (bind_haven ciphers plain_code exact_filter decrypted 7 (some 2))
      (bind_haven ciphers plain_code exact_filter decrypted 7 (some 2)) _ (here _)
      (gets_packet greeting _))
