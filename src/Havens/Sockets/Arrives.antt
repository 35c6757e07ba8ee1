-- ===== src/Havens/Sockets/Arrives.antt =====
-- What the channel of decrypted messages of src/socket/haven_socket.rs holds after messages were put into it.
use mathlib.Core.List.{append-nil, append_assoc}
use earendil.Base.{
  ℕ, zero, suc, ◌-◌, ◌≡◌, refl, sym, ap, ◌∙◌, inl, inr, List, [], ◌∷◌, ◌++◌, arith, length,
  length-append, take, ltb, Bool-cases,
}
use earendil.Crypto.{Bytes, Primitives}
use earendil.Daemon.State.{Endpoint}
use earendil.Daemon.External.{Channel, IsChannel, HasCapacity, or_else}
use earendil.Havens.Session.{SessionCode, ReplayFilter}
use earendil.Havens.Sockets.{push_decrypted}

module _ (prim : Primitives) (code : SessionCode) (rf : ReplayFilter)
    (decrypted : Channel (Bytes × Endpoint)) (is : IsChannel decrypted)
    (has : HasCapacity decrypted) where
  -- As much as there is room for, in order.
  pub push_decrypted_lem :
      (items : List (Bytes × Endpoint)) (q : decrypted.Queue)
      → decrypted.pending (push_decrypted prim code rf decrypted items q)
        ≡ decrypted.pending q ++ take (has.capacity q - length (decrypted.pending q)) items
  unfolding push_decrypted take
  push_decrypted_lem [] q = sym (
      ap (λ xs. decrypted.pending q ++ xs)
        (no_items (has.capacity q - length (decrypted.pending q)))
      ∙ append-nil (decrypted.pending q))
    where
      no_items : (n : ℕ) → take {A = Bytes × Endpoint} n [] ≡ []
      no_items zero = refl
      no_items (suc n) = refl
  push_decrypted_lem (item ∷ items) q =
      let held = decrypted.pending q in
      elim (Bool-cases (ltb (length held) (has.capacity q))) [
        | inl room ↦
            let (r, taken, same) = has.try_send_room item q (ground (arith, room)) in
            let now : decrypted.pending r ≡ held ++ item ∷ [] =
              is.pending-try_send item q r taken in
            let left : has.capacity q - length held
                ≡ suc (has.capacity r - length (decrypted.pending r)) =
              ground (arith, room, same, ap length now, length-append held (item ∷ [])) in
            let more = take (has.capacity r - length (decrypted.pending r)) items in
            ap (λ o. decrypted.pending (push_decrypted prim code rf decrypted items (or_else q o)))
              taken
            ∙ push_decrypted_lem items r
            ∙ ap (λ xs. xs ++ more) now
            ∙ append_assoc held (item ∷ []) more
            ∙ ap (λ n. held ++ take n (item ∷ items)) (sym left)
        | inr full ↦
            let none_left : has.capacity q - length held ≡ zero = ground (arith, full) in
            ap (λ o. decrypted.pending (push_decrypted prim code rf decrypted items (or_else q o)))
              (has.try_send_full item q (ground (arith, full)))
            ∙ push_decrypted_lem items q
            ∙ ap (λ n. held ++ take n items) none_left
            ∙ ap (λ n. held ++ take n (item ∷ items)) (sym none_left)
      ]
