-- ===== src/Forwarding.antt =====
-- src/daemon/udp_forward.rs and udp_forward of src/haven_util.rs: datagrams that go through earendil, each side with
-- a socket of its own for every source.
pub mod Sorted
pub mod Returns
use earendil.Base.{
  ℕ, ◌+◌, Option, none, some, List, [], ◌∷◌, ◌++◌, take, Eq, Map, get, insert, remove, nat_eq,
  pair_eq, Result, ok, err, panic,
}
use earendil.Crypto.{Bytes}
use earendil.Daemon.State.{Endpoint}
use earendil.Daemon.Action.{Action, ◌>>=◌}

pub data ForwardError : Type 0 where
  cannot_bind cannot_send : ForwardError

-- One side: sources are addresses on the client's side and endpoints on the haven's. Sockets are numbered; `owners`
-- has, for each socket in the table, the source that its down loop sends to. `upward` are the messages given to
-- sockets, with their sources, and `downward` those given back to sources.
pub record Forwarder (K : Type 0) : Type 0 where
  pub table : Map K ℕ
  pub owners : Map ℕ K
  pub next_socket : ℕ
  pub upward : List (K × ℕ × Bytes)
  pub downward : List (K × Bytes)

module _ {K : Type 0} ⦃keys : Eq K⦄ where
  unfoldable pub new_forwarder : Forwarder K
  new_forwarder = record { table = []; owners = []; next_socket = 0; upward = []; downward = [] }

  -- The socket of a source; if there is none one is bound, or fails to be, and its down loop starts.
  unfoldable pub socket_for : Option ForwardError → K → Action (Forwarder K) ForwardError ℕ
  socket_for failure source s = elim (get source s.table) [
    | some socket ↦ (ok socket, s)
    | none ↦ elim failure [
      | some e ↦ (err e, s)
      | none ↦ (
        ok s.next_socket,
        record s {
          table = insert source s.next_socket s.table;
          owners = insert s.next_socket source s.owners;
          next_socket = s.next_socket + 1;
        },
      )
    ]
  ]

  unfoldable pub send_through :
      Option ForwardError → K → Bytes → ℕ → Action (Forwarder K) ForwardError (Unit {0})
  send_through failure source message socket s = elim failure [
    | some e ↦ (err e, s)
    | none ↦ (ok tt, record s { upward = s.upward ++ (source, socket, message) ∷ [] })
  ]

  -- A turn of the up loop; the failures are those of binding and of sending.
  unfoldable pub forward_up :
      Option ForwardError
      → Option ForwardError
      → K
      → Bytes
      → Action (Forwarder K) ForwardError (Unit {0})
  unfolding socket_for send_through
  forward_up no_bind no_send source message = do
    socket ← socket_for no_bind source
    send_through no_send source message socket

  -- A turn of the down loop of a socket.
  unfoldable pub forward_down : ℕ → Bytes → Forwarder K → Forwarder K
  forward_down socket message s = elim (get socket s.owners) [
    | none ↦ s
    | some source ↦ record s { downward = s.downward ++ (source, message) ∷ [] }
  ]

  -- The cache drops a source, and with it the socket and its down loop.
  unfoldable pub forget_source : K → Forwarder K → Forwarder K
  forget_source source s = elim (get source s.table) [
    | none ↦ s
    | some socket ↦ record s { table = remove source s.table; owners = remove socket s.owners }
  ]

-- What recv_from leaves of a datagram in a buffer of 10000 bytes.
unfoldable pub in_buffer : Bytes → Bytes
in_buffer datagram = take 10000 datagram

-- udp_forward_loop, with addresses as numbers: up from the UDP socket, and down to it.
unfoldable pub client_up :
    Option ForwardError → ℕ → Bytes → Action (Forwarder ℕ) ForwardError (Unit {0})
unfolding forward_up in_buffer
client_up no_send address datagram = forward_up none no_send address (in_buffer datagram)

unfoldable pub client_down : ℕ → Bytes → Forwarder ℕ → Forwarder ℕ
unfolding forward_down
client_down socket message = forward_down socket message

-- udp_forward of a haven: up from the haven socket, and down to it.
unfoldable pub haven_up :
    Option ForwardError
    → Option ForwardError
    → Endpoint
    → Bytes
    → Action (Forwarder Endpoint) ForwardError (Unit {0})
unfolding forward_up
haven_up no_bind no_send src_endpoint message = forward_up no_bind no_send src_endpoint message

unfoldable pub haven_down : ℕ → Bytes → Forwarder Endpoint → Forwarder Endpoint
unfolding forward_down in_buffer
haven_down socket datagram = forward_down socket (in_buffer datagram)
