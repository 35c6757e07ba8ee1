-- ===== src/Tests/Forwards.antt =====
-- Two endpoints send datagrams to a haven, and an answer comes back through the socket of the second.
use earendil.Base.{
  ◌≡◌, ◌≢◌, ◌⊎◌, refl, inl, inr, none, some, List, [], ◌∷◌, ◌++◌, pair_eq, get, insert, nat_eq,
}
use earendil.Daemon.State.{Endpoint}
use earendil.Daemon.Action.{◌>>=◌}
use earendil.Forwarding.{new_forwarder, forward_up, forward_down, forget_source}
use earendil.Forwarding.Returns.{Event, sends, forgets, forwards, forward_down-forwards}

abbrev first : Endpoint
first = (1, 53)

abbrev second : Endpoint
second = (2, 53)

abbrev traffic : List (Event Endpoint)
traffic = sends none none first (7 ∷ []) ∷ sends none none second (8 ∷ []) ∷ forgets first ∷ []

forward_down-forwards_example :
    let s = forwards traffic new_forwarder in
    ((forward_down 1 (9 ∷ []) s).downward ≡ s.downward ++ (second, 9 ∷ []) ∷ [])
    ⊎ ((get second s.table ≢ some 1) × (get 1 s.owners ≡ none) × (forward_down 1 (9 ∷ []) s ≡ s))
unfolding forwards new_forwarder forward_up forget_source get insert ◌>>=◌
forward_down-forwards_example =
    forward_down-forwards traffic second 1 (9 ∷ []) (inr (inl (refl, refl)))
