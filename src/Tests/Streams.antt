-- ===== src/Tests/Streams.antt =====
-- A listener and its clients, with streams that list what was injected into them.
use earendil.Base.{
  ℕ, zero, suc, ◌≡◌, refl, Option, none, some, List, [], ◌∷◌, ◌++◌, ok, get, insert, remove,
  pair_eq, nat_eq,
}
use earendil.Daemon.Action.{◌>>=◌}
use earendil.Crypto.{Bytes}
use earendil.Daemon.State.{Endpoint}
use earendil.Streams.{
  RelKind, syn, syn_ack, rst, other_kind, StreamMessage, reliable, unreliable, StreamCrate, Arrival,
  listen, accept_turn, on_message, to_stream, open_stream, send_msg, tick_turn,
}
use earendil.Streams.Serves.{stream_of, accept_turns, served_all}
use earendil.Streams.Clients.{Event, arrives, wakes, happens, accept_turns-served_all}
use earendil.Streams.Connect.{
  ConnectEvent, timer_fires, hears, connect, first_syn, answer_to, connect-accept_turn,
}

abbrev ToyMessage : Type 0
ToyMessage = StreamMessage (Unit {0}) (Unit {0})

abbrev tag_of : RelKind (Unit {0}) → ℕ
tag_of syn = 0
tag_of syn_ack = 1
tag_of rst = 2
tag_of (other_kind k) = 3

abbrev kind_of : ℕ → RelKind (Unit {0})
kind_of zero = syn
kind_of (suc zero) = syn_ack
kind_of (suc (suc zero)) = rst
kind_of (suc (suc (suc n))) = other_kind tt

abbrev encode_toy : ToyMessage → Bytes
encode_toy (reliable kind stream_id seqno payload) = tag_of kind ∷ stream_id ∷ seqno ∷ payload
encode_toy (unreliable u) = []

abbrev decode_toy : Bytes → Option ToyMessage
decode_toy [] = some (unreliable tt)
decode_toy (tag ∷ stream_id ∷ seqno ∷ payload) =
    some (reliable (kind_of tag) stream_id seqno payload)
decode_toy (tag ∷ stream_id ∷ []) = none
decode_toy (tag ∷ []) = none

decode-encode_toy : (msg : ToyMessage) → decode_toy (encode_toy msg) ≡ some msg
decode-encode_toy (reliable syn stream_id seqno payload) = refl
decode-encode_toy (reliable syn_ack stream_id seqno payload) = refl
decode-encode_toy (reliable rst stream_id seqno payload) = refl
decode-encode_toy (reliable (other_kind k) stream_id seqno payload) = refl
decode-encode_toy (unreliable u) = refl

-- A stream dies once something was injected into it.
abbrev when : List ToyMessage → Option ℕ
when [] = some 1
when (msg ∷ msgs) = none

abbrev toy_streams : StreamCrate
toy_streams = record {
  Other = Unit;
  Unreliable = Unit;
  StreamState = ℕ × List ToyMessage;
  new_established = λ stream_id. (stream_id, []);
  inject_incoming = λ msg st. (st.0, st.1 ++ msg ∷ []);
  tick = λ now st. (([], when st.1), st);
  encode = encode_toy;
  decode = decode_toy;
}

abbrev one : Endpoint
one = (1, 10)

abbrev two : Endpoint
two = (2, 10)

abbrev comes : ToyMessage → Endpoint → Arrival toy_streams
comes msg ep = record { failure = none; packet = encode_toy msg; client_ep = ep }

abbrev data_message : ℕ → ToyMessage
data_message seqno = reliable (other_kind tt) 5 seqno (7 ∷ [])

-- Both clients connect, and the first sends two messages between which the other ends its stream.
abbrev past : List (Event toy_streams)
past =
    arrives (comes (reliable syn 5 0 []) one)
    ∷ arrives (comes (reliable syn 6 0 []) two)
    ∷ wakes 9 0
    ∷ []

abbrev present : List (Arrival toy_streams)
present =
    comes (data_message 1) one ∷ comes (reliable rst 6 1 []) two ∷ comes (data_message 2) one ∷ []

accept_turns-served_all_example :
    let s = (happens toy_streams past (listen toy_streams)).1 in
    stream_of toy_streams one (accept_turns toy_streams present s).1
    ≡ served_all toy_streams one present (stream_of toy_streams one s)
unfolding happens accept_turns accept_turn on_message to_stream open_stream send_msg listen
    tick_turn get insert remove ◌>>=◌
accept_turns-served_all_example =
    let s = (happens toy_streams past (listen toy_streams)).1 in
    accept_turns-served_all toy_streams past present one s (accept_turns toy_streams present s).1
      refl refl

abbrev waited : List ConnectEvent
waited = timer_fires ∷ hears (1 ∷ 5 ∷ 0 ∷ []) two ∷ []

connect-accept_turn_example :
    let accepted = accept_turn toy_streams (first_syn toy_streams 5 one) (listen toy_streams) in
    (accepted.0 ≡ ok (some 0))
    × (stream_of toy_streams one accepted.1 ≡ some (5, []))
    × (accepted.1.sent ≡ (answer_to toy_streams 5, one) ∷ [])
    × ((connect toy_streams 5 (9, 80) (waited ++ hears (answer_to toy_streams 5) (9, 80) ∷ [])).0
        ≡ ok (some []))
unfolding connect listen
connect-accept_turn_example =
    connect-accept_turn toy_streams decode-encode_toy 5 one (9, 80) waited [] (listen toy_streams)
      refl
