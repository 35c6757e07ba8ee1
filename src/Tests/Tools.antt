-- ===== src/Tests/Tools.antt =====
-- Calls, identities and simulations at concrete inputs.
use earendil.Base.{ℕ, ◌+◌, ◌≡◌, refl, true, some, List, [], ◌∷◌, arith, replicate, text_eq, ok}
use earendil.Crypto.{Bytes}
use earendil.Socket.Calls.{times_out, answers, call_raw, call_raw_lem, global_rpc_dock}
use earendil.Identity.{FileSystem, absent, identity_file, actualize, actualize_again}
use earendil.Havens.Session.Streams.{NoRepeats}
use earendil.Simulation.{Node, assign_all}
use earendil.Simulation.Ports.{names_of, ports_of, ArePorts, assign_all_lem}

-- The second attempt is answered.
call_raw_lem_example :
    call_raw {Response = Bytes} some (7 ∷ []) 5 (times_out ∷ answers (8 ∷ []) ∷ []) ≡ (
      some (ok (8 ∷ [])),
      record {
        sent = (7 ∷ [], (5, global_rpc_dock)) ∷ (7 ∷ [], (5, global_rpc_dock)) ∷ [];
        retries = 1;
        waited = 2;
      },
    )
unfolding replicate
call_raw_lem_example =
    call_raw_lem {Response = Bytes} some (7 ∷ []) 5 1 (answers (8 ∷ [])) [] (omega arith) tt

abbrev empty_disk : FileSystem
empty_disk = record { at_path = absent; may_open = true; drawn = 4 }

abbrev drawn_key : ℕ → ℕ
drawn_key n = 1000 + n

abbrev key_path : Bytes
key_path = 107 ∷ []

actualize_again_example :
    let first = actualize (λ human salt. human) drawn_key 2 (identity_file key_path) empty_disk in
    (first.0 ≡ ok 1004)
    × (actualize (λ human salt. human) drawn_key 1 (identity_file key_path) first.1
        ≡ (ok 1004, first.1))
actualize_again_example =
    actualize_again (λ human salt. human) drawn_key 0 0 key_path empty_disk refl refl (omega arith)

abbrev three_names : List Bytes
three_names = (97 ∷ []) ∷ (98 ∷ []) ∷ (99 ∷ []) ∷ []

assign_all_lem_example :
    (nodes : List Node) × (assign_all true three_names ≡ ok nodes)
    × (names_of nodes ≡ three_names)
    × NoRepeats (ports_of nodes)
    × ArePorts 12000 (ports_of nodes)
assign_all_lem_example = assign_all_lem true three_names (omega arith)
