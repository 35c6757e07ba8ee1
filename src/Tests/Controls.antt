-- ===== src/Tests/Controls.antt =====
-- Texts of endpoints, and a socket that is bound twice under one id.
use earendil.Base.{
  ℕ, Option, none, ◌&&◌, leb, ltb, true, ap, ◌+◌, ◌-◌, ◌≡◌, refl, some, [], ◌∷◌, map, arith, get,
  pair_eq, pair_beq, text_eq, text_beq, ok, if◌then◌else◌,
}
use earendil.Crypto.{IsBytes, Bytes}
use earendil.Daemon.State.{Endpoint}
use earendil.Socket.Endpoints.{
  Base32, IsBase32, Lacks, colon, to_lowercase, endpoint_text, endpoint_from_str,
}
use earendil.Socket.Endpoints.Reads.{endpoint_from_str-endpoint_text}
use earendil.Control.{ControlProtocolImpl, new_control, control_bind_n2r, skt_info}
use earendil.Control.Binding.{endpoint_for, control_bind_n2r_dock}
use earendil.Tests.Worlds.{small_world, channel}
use earendil.Tests.Daemons.{daemon}
use earendil.Tests.Sessions.{exact_filter, plain_code}

-- One character for a byte.
abbrev put_in_front : ℕ → Option Bytes → Option Bytes
put_in_front c none = none
put_in_front c (some cs) = some (c ∷ cs)

abbrev decode_256 : Bytes → Option Bytes
decode_256 [] = some []
decode_256 (c ∷ cs) =
    if leb 200 c && ltb c 456 then put_in_front (c - 200) (decode_256 cs) else none

abbrev pub base_256 : Base32
base_256 = record { encode = map (λ c. c + 200); decode = decode_256 }

decode_back :
    (bytes : Bytes)
    → IsBytes bytes
    → decode_256 (map to_lowercase (map (λ c. c + 200) bytes)) ≡ some bytes
decode_back [] h = refl
decode_back (c ∷ cs) h =
    let here : to_lowercase (c + 200) ≡ c + 200 = ground arith in
    let inside : (leb 200 (c + 200) && ltb (c + 200) 456) ≡ true = ground (arith, h.0) in
    let back : c + 200 - 200 ≡ c = omega arith in
    rw here (rw inside (rw (decode_back cs h.1) (ap (λ k. some (k ∷ cs)) back)))

Lacks-colon : (bytes : Bytes) → Lacks colon (map to_lowercase (map (λ c. c + 200) bytes))
Lacks-colon [] = tt
Lacks-colon (c ∷ cs) = (ground arith, Lacks-colon cs)

base_256-IsBase32 : IsBase32 base_256
base_256-IsBase32 = record { decode-encode = decode_back; encode-Lacks = Lacks-colon }

endpoint_from_str-endpoint_text_example :
    endpoint_from_str base_256 (endpoint_text base_256 (123456789, 100002)) ≡ ok (123456789, 100002)
endpoint_from_str-endpoint_text_example =
    endpoint_from_str-endpoint_text base_256 base_256-IsBase32 123456789 100002 (omega arith)
      (omega arith)

abbrev alias : Bytes
alias = 97 ∷ 108 ∷ []

abbrev Control : Type 0
Control =
    ControlProtocolImpl small_world (channel (Bytes × Endpoint)) plain_code exact_filter
      (channel (Bytes × Endpoint))

abbrev fresh_control : Control
fresh_control =
    new_control small_world (channel (Bytes × Endpoint)) plain_code exact_filter
      (channel (Bytes × Endpoint)) daemon

control_bind_n2r_dock_example :
    let c = channel (Bytes × Endpoint) in
    let ep = endpoint_for small_world c plain_code exact_filter c (some alias) 80 fresh_control in
    (t : Control) × (control_bind_n2r small_world c plain_code exact_filter c 0
        (83 ∷ [])
        (some alias)
        (some 80)
        fresh_control
      ≡ some t)
    × ((id : Bytes)
        → skt_info small_world c plain_code exact_filter c id t ≡ (
            if text_beq (83 ∷ []) id
            then ok ep
            else skt_info small_world c plain_code exact_filter c id fresh_control))
    × ((at : Endpoint)
        → get at t.daemon.socket_recv_queues ≡ (
            if pair_beq ep at
            then some (small_world.messages.bounded 1000)
            else get at fresh_control.daemon.socket_recv_queues))
unfolding new_control get
control_bind_n2r_dock_example =
    control_bind_n2r_dock small_world (channel (Bytes × Endpoint)) plain_code exact_filter
      (channel (Bytes × Endpoint)) 0 (83 ∷ []) (some alias) 80 fresh_control
