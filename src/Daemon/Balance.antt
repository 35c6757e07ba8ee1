-- ===== src/Daemon/Balance.antt =====
-- The loop of `replenish_rrb` in src/daemon/rrb_balance.rs: it ends, with a balance of at least 100 or with
-- the first batch that could not be sent.
use earendil.Base.{
  ℕ, zero, suc, ◌≡◌, ◌≢◌, ◌<◌, refl, sym, ap, ◌∙◌, ◌⊎◌, inl, inr, Bool, true, false, none, some,
  List, arith, get, get-insert, nat_eq, pair_eq, pair_beq_iff, Result, ok, err, panic, Option-cases,
  Bool-cases, subst,
}
use earendil.Crypto.{fingerprint, public}
use earendil.Packet.Types.{ForwardInstruction, InnerPacket}
use earendil.Daemon.Action.{
  Action, ◌>>=◌, return, Keeps, >>=-Keeps, >>=-ok, >>=-err, >>=-panic, run-cases,
}
use earendil.Daemon.State.{World, State, SendMessageError, ℤ, pos, negsuc}
use earendil.Daemon.Send.{
  plus, missing, below, draw, anon_osk, make_blocks, build_normal, inject, send_reply_blocks,
  balance_of, set_balance, rb_balance, refill, refill_loop, replenish_rrb,
}

-- Five blocks more bring a balance nearer to 100.
missing-plus : (b : ℤ) → 0 < missing b → missing (plus b 5) < missing b
unfolding missing plus
missing-plus (pos n) h = ground arith
missing-plus (negsuc n) h = ground arith

module _ (world : World) where
  abbrev table : State world → List ((ℕ × ℕ) × ℤ)
  table s = s.balance_table

  make_blocks-Keeps :
      (n : ℕ) (route : List ForwardInstruction) (osk isk : ℕ)
      → Keeps table (make_blocks world n route osk isk)
  unfolding make_blocks draw
  make_blocks-Keeps zero route osk isk = λ s. refl
  make_blocks-Keeps (suc n) route osk isk =
      >>=-Keeps table _ _ (λ s. refl)
        λ drawn.
          >>=-Keeps table _ _ (λ s. refl)
            λ my_opk.
              >>=-Keeps table _ _ (λ s. refl)
                λ built.
                  >>=-Keeps table _ _ (λ s. refl)
                    λ done. >>=-Keeps table _ _ (make_blocks-Keeps n route osk isk) λ rbs s. refl

  anon_osk-Keeps : (isk : ℕ) → Keeps table (anon_osk world isk)
  unfolding anon_osk
  anon_osk-Keeps isk s =
      elim (Option-cases (get (fingerprint world.prim (public world.prim isk)) s.onion_sk_cache)) [
        | inl e ↦ ground (arith, e)
        | inr (osk, e) ↦ ground (arith, e)
      ]

  build_normal-Keeps :
      (route : List ForwardInstruction) (opk : ℕ) (inner : InnerPacket) (isk : ℕ)
      → Keeps table (build_normal world route opk inner isk)
  unfolding build_normal draw
  build_normal-Keeps route opk inner isk = >>=-Keeps table _ _ (λ s. refl) λ drawn s. refl

  send_reply_blocks-Keeps : (n isk dst : ℕ) → Keeps table (send_reply_blocks world n isk dst)
  unfolding send_reply_blocks inject
  send_reply_blocks-Keeps n isk dst = >>=-Keeps table _ _ (anon_osk-Keeps isk) λ osk.
      >>=-Keeps table _ _ (λ s. refl)
        λ me.
          >>=-Keeps table _ _ (λ s. refl)
            λ graph.
              >>=-Keeps table _ _ (λ s. refl)
                λ route.
                  >>=-Keeps table _ _ (λ s. refl)
                    λ opk.
                      >>=-Keeps table _ _ (λ s. refl)
                        λ instructs.
                          >>=-Keeps table _ _ (λ s. refl)
                            λ reverse_route.
                              >>=-Keeps table _ _ (λ s. refl)
                                λ reverse_instructs.
                                  >>=-Keeps table _ _
                                    (make_blocks-Keeps n reverse_instructs osk isk)
                                    λ rbs.
                                      >>=-Keeps table _ _
                                        (build_normal-Keeps instructs opk
                                          (InnerPacket.reply_blocks rbs) isk)
                                        λ onion s. refl

  balance_of-set_balance :
      (isk dst : ℕ) (b : ℤ) (s : State world)
      → balance_of world isk dst (set_balance world isk dst b s) ≡ b
  unfolding balance_of set_balance
  balance_of-set_balance isk dst b s = ground (
    arith,
    get-insert (isk, dst) (isk, dst) b s.balance_table,
    pair_beq_iff (isk, dst) (isk, dst),
  )

  -- Sending blocks leaves the balance as it is.
  balance_kept :
      (isk dst : ℕ) (s t : State world)
      → send_reply_blocks world 10 isk dst s ≡ (ok tt, t)
      → balance_of world isk dst t ≡ balance_of world isk dst s
  unfolding balance_of
  balance_kept isk dst s t sent =
      ap (λ m. elim (get (isk, dst) m) [ none ↦ pos 0 | some balance ↦ balance ])
        (ap (λ r. (r.1).balance_table) (sym sent) ∙ send_reply_blocks-Keeps 10 isk dst s)

  -- The balance was read, and stands in the table.
  abbrev pub looked : ℕ → ℕ → State world → State world
  looked isk dst s = set_balance world isk dst (balance_of world isk dst s) s

  -- Five blocks more were counted.
  abbrev pub credited : ℕ → ℕ → State world → State world
  credited isk dst t =
      set_balance world isk dst (plus (balance_of world isk dst t) 5) (looked isk dst t)

  -- What rounds of the loop lead to: each has a balance below 100, sends a batch of ten blocks and counts five.
  pub data Rounds (isk dst : ℕ) : State world → State world → Type 0 where
    begun : (s : State world) → Rounds isk dst s s
    round :
        (s t u : State world)
        → below (balance_of world isk dst s) ≡ true
        → send_reply_blocks world 10 isk dst (looked isk dst s) ≡ (ok tt, t)
        → Rounds isk dst (credited isk dst t) u
        → Rounds isk dst s u

  -- How the loop ends after some rounds: with enough, or with a batch that could not be sent.
  abbrev pub Ends : ℕ → ℕ → State world → Result SendMessageError (Unit {0}) × State world → Type 0
  Ends isk dst s r =
      (u : State world) × Rounds isk dst s u
      × (((r ≡ (ok tt, looked isk dst u)) × (missing (balance_of world isk dst r.1) ≡ 0))
          ⊎ ((below (balance_of world isk dst u) ≡ true)
              × (r ≡ send_reply_blocks world 10 isk dst (looked isk dst u))
              × (r.0 ≢ ok tt)))

  Ends-round :
      (isk dst : ℕ) (s t : State world) (r : Result SendMessageError (Unit {0}) × State world)
      → below (balance_of world isk dst s) ≡ true
      → send_reply_blocks world 10 isk dst (looked isk dst s) ≡ (ok tt, t)
      → Ends isk dst (credited isk dst t) r
      → Ends isk dst s r
  Ends-round isk dst s t r short sent (u, rounds, how) = (u, round s t u short sent rounds, how)

  -- What the loop does with the balance that it reads.
  abbrev branch : ℕ → ℕ → ℕ → Bool → Action (State world) SendMessageError (Unit {0})
  branch fuel isk dst short = elim short [
    | false ↦ return tt
    | true ↦ refill world isk dst >>= λ _. refill_loop world fuel isk dst
  ]

  -- A round whose batch is not sent.
  refill_err :
      (isk dst : ℕ) (s t : State world) (e : SendMessageError)
      → send_reply_blocks world 10 isk dst s ≡ (err e, t)
      → refill world isk dst s ≡ (err e, t)
  unfolding refill
  refill_err isk dst s t e lost = >>=-err (send_reply_blocks world 10 isk dst) _ s t e lost

  refill_panic :
      (isk dst : ℕ) (s t : State world)
      → send_reply_blocks world 10 isk dst s ≡ (panic, t)
      → refill world isk dst s ≡ (panic, t)
  unfolding refill
  refill_panic isk dst s t lost = >>=-panic (send_reply_blocks world 10 isk dst) _ s t lost

  -- A round whose batch is sent.
  refill_ok :
      (isk dst : ℕ) (s t : State world)
      → send_reply_blocks world 10 isk dst s ≡ (ok tt, t)
      → refill world isk dst s ≡ (
        ok tt,
        set_balance world isk dst
            (plus (balance_of world isk dst t) 5)
            (set_balance world isk dst (balance_of world isk dst t) t),
      )
  unfolding refill rb_balance
  refill_ok isk dst s t sent =
      >>=-ok (send_reply_blocks world 10 isk dst) _ s t tt sent
      ∙ >>=-ok (rb_balance world isk dst) _ t
          (set_balance world isk dst (balance_of world isk dst t) t) (balance_of world isk dst t)
          refl

  below-false : (b : ℤ) → below b ≡ false → missing b ≡ 0
  unfolding below
  below-false b h = ground arith

  below-true : (b : ℤ) → below b ≡ true → 0 < missing b
  unfolding below
  below-true b h = ground arith

  refill_loop-Ends :
      (fuel isk dst : ℕ) (s : State world)
      → missing (balance_of world isk dst s) < fuel
      → Ends isk dst s (refill_loop world fuel isk dst s)
  unfolding refill_loop rb_balance
  refill_loop-Ends zero isk dst s enough = absurd (omega arith)
  refill_loop-Ends (suc fuel) isk dst s enough =
      let b = balance_of world isk dst s in
      let s1 = set_balance world isk dst b s in
      let same : balance_of world isk dst s1 ≡ b = balance_of-set_balance isk dst b s in
      let read =
        >>=-ok (rb_balance world isk dst) (λ x. branch fuel isk dst (below x)) s s1 b refl in
      subst (Ends isk dst s) (sym read) (elim (Bool-cases (below b)) [
        | inr full ↦
            subst (λ c. Ends isk dst s (branch fuel isk dst c s1)) (sym full)
              (s, begun s, inl (refl, ap missing same ∙ below-false b full))
        | inl short ↦
            subst (λ c. Ends isk dst s (branch fuel isk dst c s1)) (sym short)
              (elim (run-cases (send_reply_blocks world 10 isk dst) s1) [
                | inl (_, t, sent) ↦
                    let c = balance_of world isk dst t in
                    let t1 = set_balance world isk dst c t in
                    let t2 = set_balance world isk dst (plus c 5) t1 in
                    let kept : c ≡ b = balance_kept isk dst s1 t sent ∙ same in
                    subst (Ends isk dst s)
                      (sym (
                        >>=-ok (refill world isk dst) (λ _. refill_loop world fuel isk dst) s1 t2 tt
                          (refill_ok isk dst s1 t sent)))
                      (Ends-round isk dst s t _ short sent (
                        refill_loop-Ends fuel isk dst t2 (
                          ground (
                            arith,
                            balance_of-set_balance isk dst (plus c 5) t1,
                            kept,
                            below-true b short,
                            missing-plus b,
                          ))))
                | inr (inl (e, t, lost)) ↦
                    subst (Ends isk dst s)
                      (sym (
                        >>=-err (refill world isk dst) (λ _. refill_loop world fuel isk dst) s1 t e
                          (refill_err isk dst s1 t e lost)))
                      (s, begun s, inr (short, sym lost, λ h. cc))
                | inr (inr (t, lost)) ↦
                    subst (Ends isk dst s)
                      (sym (
                        >>=-panic (refill world isk dst) (λ _. refill_loop world fuel isk dst) s1 t
                          (refill_panic isk dst s1 t lost)))
                      (s, begun s, inr (short, sym lost, λ h. cc))
              ])
      ])

  -- `replenish_rrb` ends within its fuel, after rounds that each have a balance below 100, send a batch of ten reply
  -- blocks and count five: with a balance of at least 100, or, below it, as the next batch ends, which could not be
  -- sent, in the state that this batch leaves.
  pub replenish_rrb-Ends :
      (isk dst : ℕ) (s : State world) → Ends isk dst s (replenish_rrb world isk dst s)
  unfolding replenish_rrb
  replenish_rrb-Ends isk dst s =
      refill_loop-Ends (suc (missing (balance_of world isk dst s))) isk dst s (omega arith)
