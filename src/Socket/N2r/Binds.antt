-- ===== src/Socket/N2r/Binds.antt =====
-- The docks that N2rSocket::bind draws (src/socket/n2r_socket.rs).
use earendil.Base.{
  ℕ, zero, suc, ◌+◌, ◌^◌, ◌%◌, ◌<◌, ◌≡◌, refl, Option, none, some, inl, inr, arith, get, insert,
  remove, get-insert, get-remove, pair_eq, pair_beq_iff, Option-cases, subst,
}
use earendil.Crypto.{fingerprint, public}
use earendil.Daemon.State.{World, State, Endpoint}
use earendil.Socket.N2r.{pick_dock, bind, bind_at, drop_dock}

module _ (world : World) (isk : ℕ) where
  abbrev pub dock_queue : ℕ → State world → Option world.messages.Queue
  dock_queue dock s =
      get (fingerprint world.prim (public world.prim isk), dock) s.socket_recv_queues

  -- The n-th dock that will be drawn is free.
  abbrev pub IsFree : ℕ → State world → Type 0
  IsFree n s = dock_queue (world.fresh (s.drawn + n) % 2 ^ 32) s ≡ none

  pick_dock_lem :
      (fuel n : ℕ) (s : State world)
      → n < fuel
      → IsFree n s
      → (dock : ℕ) × (t : State world) × (pick_dock world isk fuel s ≡ some (dock, t))
        × (dock_queue dock s ≡ none)
        × (t.socket_recv_queues ≡ s.socket_recv_queues)
  unfolding pick_dock
  pick_dock_lem zero n s lt free = absurd (omega (arith, lt))
  pick_dock_lem (suc fuel) zero s lt free =
      let now : dock_queue (world.fresh s.drawn % 2 ^ 32) s ≡ none =
        subst (λ i. dock_queue (world.fresh i % 2 ^ 32) s ≡ none) (omega arith) free in
      (
        world.fresh s.drawn % 2 ^ 32,
        record s { drawn = s.drawn + 1 },
        rw (pick_dock, now) refl,
        now,
        refl,
      )
  pick_dock_lem (suc fuel) (suc n) s lt free =
      let rand_dock = world.fresh s.drawn % 2 ^ 32 in
      let drawn : State world = record s { drawn = s.drawn + 1 } in
      elim (Option-cases (dock_queue rand_dock s)) [
        | inl e ↦ (rand_dock, drawn, rw (pick_dock, e) refl, e, refl)
        | inr (q, e) ↦
            let later : IsFree n drawn =
              subst (λ i. dock_queue (world.fresh i % 2 ^ 32) s ≡ none) (omega arith) free in
            let (dock, t, picked, was_free, same) =
              pick_dock_lem fuel n drawn (omega (arith, lt)) later in
            (dock, t, rw (pick_dock, e) picked, was_free, same)
      ]

  -- If one of the docks that are drawn within the fuel is free, bind returns a dock that was free, its empty
  -- queue is registered, and dropping the socket leaves every registration as it was.
  pub drop_dock-bind :
      (fuel n : ℕ) (s : State world)
      → n < fuel
      → IsFree n s
      → (dock : ℕ) × (t : State world) × (bind world isk fuel none s ≡ some (dock, t))
        × (dock_queue dock s ≡ none)
        × (dock_queue dock t ≡ some (world.messages.bounded 1000))
        × ((ep : Endpoint)
            → get ep (drop_dock world isk dock t).socket_recv_queues ≡ get ep s.socket_recv_queues)
  unfolding bind bind_at drop_dock
  drop_dock-bind fuel n s lt free =
      let (dock, t, e, was_free, same) = pick_dock_lem fuel n s lt free in
      let fp = fingerprint world.prim (public world.prim isk) in
      (
        dock,
        bind_at world isk dock t,
        ground (arith, e),
        was_free,
        ground (
          arith,
          get-insert (fp, dock) (fp, dock) (world.messages.bounded 1000) t.socket_recv_queues,
          pair_beq_iff (fp, dock) (fp, dock),
        ),
        λ ep. restored fp dock t ep was_free same,
      )
    where
      restored :
          (fp dock : ℕ) (t : State world) (ep : Endpoint)
          → get (fp, dock) s.socket_recv_queues ≡ none
          → t.socket_recv_queues ≡ s.socket_recv_queues
          → get ep (
              remove
                (fp, dock)
                (insert (fp, dock) (world.messages.bounded 1000) t.socket_recv_queues))
            ≡ get ep s.socket_recv_queues
      restored fp dock t ep was_free same =
          let queues = insert (fp, dock) (world.messages.bounded 1000) t.socket_recv_queues in
          ground (
            arith,
            was_free,
            same,
            get-remove (fp, dock) ep queues,
            get-insert (fp, dock) ep (world.messages.bounded 1000) t.socket_recv_queues,
            pair_beq_iff (fp, dock) ep,
          )
