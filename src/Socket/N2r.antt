-- ===== src/Socket/N2r.antt =====
-- src/socket/n2r_socket.rs: sockets that send to and receive from relays, and the batching of what they send.
pub mod Batches
pub mod Receives
pub mod Binds
use mathlib.Core.List.{flatten}
use earendil.Base.{
  ℕ, zero, suc, ◌+◌, ◌^◌, ◌%◌, Bool, true, false, Option, none, some, List, [], ◌∷◌, ◌++◌, map,
  length, ltb, if◌then◌else◌, Map, get, insert, remove, nat_eq, pair_eq, Result, ok, err,
}
use earendil.Crypto.{Bytes, fingerprint, public}
use earendil.Packet.Types.{Message}
use earendil.Daemon.Action.{Action, ◌>>=◌, ◌>>◌, return, fail}
use earendil.Daemon.External.{Channel, or_else}
use earendil.Daemon.State.{World, State, Endpoint, SendMessageError, out_of_fuel}
use earendil.Daemon.Send.{Handler, send_n2r}

abbrev pub limit : ℕ
limit = 8192

abbrev pub overhead : ℕ
overhead = 10

-- The loop that fills one subbatch: what it takes out, and what it leaves.
unfoldable pub take_subbatch : ℕ → List Bytes → List Bytes × List Bytes
take_subbatch current_size [] = ([], [])
take_subbatch current_size (first ∷ batch) =
    let next_size = current_size + length first + overhead in
    let rest = take_subbatch next_size batch in
    if ltb limit next_size then ([], first ∷ batch) else (first ∷ rest.0, rest.1)

-- batches.entry(dest).or_default().push_back(msg)
unfoldable pub enqueue : Bytes × Endpoint → Map Endpoint (List Bytes) → Map Endpoint (List Bytes)
enqueue (msg, dest) batches = insert dest (or_else [] (get dest batches) ++ msg ∷ []) batches

unfoldable pub enqueue_all :
    List (Bytes × Endpoint) → Map Endpoint (List Bytes) → Map Endpoint (List Bytes)
unfolding enqueue
enqueue_all [] batches = batches
enqueue_all (item ∷ items) batches = enqueue_all items (enqueue item batches)

module _ (world : World) (isk dock : ℕ) where
  -- while !batch.is_empty()
  unfoldable pub send_batch : ℕ → Endpoint → List Bytes → Handler world (Unit {0})
  unfolding take_subbatch
  send_batch fuel endpoint [] = return tt
  send_batch zero endpoint (first ∷ batch) = fail out_of_fuel
  send_batch (suc fuel) endpoint (first ∷ batch) = do
    let cut = take_subbatch 0 (first ∷ batch)
    send_n2r world isk dock endpoint.0 endpoint.1 cut.0
    send_batch fuel endpoint cut.1

  -- for (endpoint, batch) in batches.iter_mut()
  unfoldable pub send_batches : Map Endpoint (List Bytes) → Handler world (Unit {0})
  unfolding send_batch
  send_batches [] = return tt
  send_batches ((endpoint, batch) ∷ batches) = do
    send_batch (length batch) endpoint batch
    send_batches batches

  -- One round of `send_batcher_loop`, from what the outgoing channel held.
  unfoldable pub send_round : List (Bytes × Endpoint) → Handler world (Unit {0})
  unfolding enqueue_all send_batches
  send_round outgoing = send_batches (enqueue_all outgoing [])

  -- N2rSocket::bind at a dock: its queue is registered, in place of an older one.
  unfoldable pub bind_at : State world → State world
  bind_at s = record s {
    socket_recv_queues =
        insert (fingerprint world.prim (public world.prim isk), dock) (world.messages.bounded 1000)
          s.socket_recv_queues;
  }

  -- BoundDock::drop
  unfoldable pub drop_dock : State world → State world
  drop_dock s = record s {
    socket_recv_queues =
        remove (fingerprint world.prim (public world.prim isk), dock) s.socket_recv_queues;
  }

module _ (world : World) (isk : ℕ) where
  -- The loop of N2rSocket::bind that draws a dock of 32 bits until one is free; `none` when the fuel is out.
  unfoldable pub pick_dock : ℕ → State world → Option (ℕ × State world)
  pick_dock zero s = none
  pick_dock (suc fuel) s =
      let rand_dock = world.fresh s.drawn % 2 ^ 32 in
      let drawn : State world = record s { drawn = s.drawn + 1 } in
      let again = pick_dock fuel drawn in
      elim (get (fingerprint world.prim (public world.prim isk), rand_dock) s.socket_recv_queues) [
        | none ↦ some (rand_dock, drawn)
        | some queue ↦ again
      ]

  -- N2rSocket::bind: the dock, and the daemon after it. The outgoing channel belongs to the socket.
  unfoldable pub bind : ℕ → Option ℕ → State world → Option (ℕ × State world)
  unfolding pick_dock bind_at
  bind fuel (some dock) s = some (dock, bind_at world isk dock s)
  bind fuel none s = elim (pick_dock fuel s) [
    | none ↦ none
    | some picked ↦ some (picked.0, bind_at world isk picked.0 picked.1)
  ]

-- N2rSocket::send_to: the outgoing channel after it. A body that finds the channel full is lost.
unfoldable pub send_to :
    (outgoing : Channel (Bytes × Endpoint)) → Bytes → Endpoint → outgoing.Queue → outgoing.Queue
send_to outgoing body endpoint queue = or_else queue (outgoing.try_send (body, endpoint) queue)

pub data SocketRecvError : Type 0 where
  n2r_recv_error : SocketRecvError

-- A socket's end of its queue, whether the daemon has dropped the other end, as it does when the registration of the
-- socket is replaced or removed, and the pieces of the messages that the socket has taken apart.
pub record Receiver (messages : Channel (Message × ℕ)) : Type 0 where
  pub recv_incoming : messages.Queue
  pub is_closed : Bool
  pub incoming_queue : List (Bytes × Endpoint)

module _ (messages : Channel (Message × ℕ)) where
  -- The loop of N2rSocket::recv_from; `none` while it waits. A closed channel still gives what is pending.
  unfoldable pub recv_from :
      ℕ → Receiver messages → Option (Result SocketRecvError (Bytes × Endpoint) × Receiver messages)
  recv_from zero self = none
  recv_from (suc fuel) self = elim self.incoming_queue [
    | retval ∷ rest ↦ some (ok retval, record self { incoming_queue = rest })
    | [] ↦ elim (messages.recv self.recv_incoming) [
      | none ↦ if self.is_closed then some (err n2r_recv_error, self) else none
      | some taken ↦
          let endpoint : Endpoint = ((taken.0).1, ((taken.0).0).source_dock) in
          recv_from fuel (record self {
            recv_incoming = taken.1;
            incoming_queue = map (λ batch_member. (batch_member, endpoint)) ((taken.0).0).body;
          })
    ]
  ]
