-- ===== src/Socket/Calls.antt =====
-- src/global_rpc/transport.rs: a call of the global RPC, which sends its request until an answer comes.
use earendil.Base.{
  ℕ, zero, suc, ◌+◌, ◌-◌, ◌%◌, ◌^◌, ◌≡◌, ◌<◌, ◌≤◌, refl, ap, ◌∙◌, Option, none, some, List, [], ◌∷◌,
  ◌++◌, replicate, arith, Option-cases, inl, inr, Result, ok, err,
}
use native.Mathlib.Nat.{two-pow-succ, pow-le-pow_right}
use mathlib.Core.List.{append_assoc}
use earendil.Crypto.{Bytes}
use earendil.Daemon.State.{Endpoint}

pub data CallError : Type 0 where
  receive_failed bad_response : CallError

-- What ends a wait: the timer, an answer, or a socket that fails.
pub data Waited : Type 0 where
  times_out : Waited
  answers : Bytes → Waited
  fails : Waited

-- A call that goes on: what was given to its socket, how often it was tried again, and the seconds that it waited.
pub record Calling : Type 0 where
  pub sent : List (Bytes × Endpoint)
  pub retries : ℕ
  pub waited : ℕ

abbrev pub global_rpc_dock : ℕ
global_rpc_dock = 100001

-- 2u64.pow(retries + 1), as a release build computes it
unfoldable pub timeout_secs : ℕ → ℕ
timeout_secs retries = 2 ^ (retries + 1) % 2 ^ 64

-- The next timeout joins those before it.
waited_lem :
    (r n w : ℕ)
    → r + suc n ≤ 63
    → w + timeout_secs r + (2 ^ (r + 1 + n + 1) - 2 ^ (r + 1 + 1))
      ≡ w + (2 ^ (r + suc n + 1) - 2 ^ (r + 1))
unfolding timeout_secs
waited_lem r n w h =
    let a = 2 ^ (r + 1) in
    let fits : 2 ^ (r + 1) ≤ 2 ^ 63 =
      pow-le-pow_right {n = 2} (omega arith) {i = r + 1} {j = 63} (omega (arith, h)) in
    let twice : 2 ^ (r + 1 + 1) ≡ 2 ^ (r + 1) + 2 ^ (r + 1) =
      ap (λ k. 2 ^ k) (omega arith) ∙ two-pow-succ (r + 1) in
    let grows : 2 ^ (r + 1 + 1) ≤ 2 ^ (r + suc n + 1) =
      pow-le-pow_right {n = 2} (omega arith) {i = r + 1 + 1} {j = r + suc n + 1} (omega arith) in
    let same : 2 ^ (r + 1 + n + 1) ≡ 2 ^ (r + suc n + 1) = ap (λ k. 2 ^ k) (omega arith) in
    omega (arith, fits, twice, grows, same)

module _ {Response : Type 0} (from_json : Bytes → Option Response) where
  -- GlobalRpcTransport::call_raw on what its waits end with, `none` while it goes on. `req` is the text of the
  -- request.
  unfoldable pub call_rounds :
      Bytes → Endpoint → List Waited → Calling → Option (Result CallError Response) × Calling
  unfolding timeout_secs
  call_rounds req endpoint [] s = (none, s)
  call_rounds req endpoint (times_out ∷ waits) s = call_rounds req endpoint waits (record {
    sent = s.sent ++ (req, endpoint) ∷ [];
    retries = s.retries + 1;
    waited = s.waited + timeout_secs s.retries;
  })
  call_rounds req endpoint (fails ∷ waits) s =
      (some (err receive_failed), record s { sent = s.sent ++ (req, endpoint) ∷ [] })
  call_rounds req endpoint (answers res ∷ waits) s =
      let after = record s { sent = s.sent ++ (req, endpoint) ∷ [] } in
      elim (from_json res) [
        | none ↦ (some (err bad_response), after)
        | some response ↦ (some (ok response), after)
      ]

  unfoldable pub call_raw : Bytes → ℕ → List Waited → Option (Result CallError Response) × Calling
  unfolding call_rounds
  call_raw req dest_fp waits =
      call_rounds req (dest_fp, global_rpc_dock) waits
        (record { sent = []; retries = 0; waited = 0 })

  -- What a wait that the timer does not end comes to.
  abbrev pub outcome : Waited → Option (Result CallError Response)
  outcome times_out = none
  outcome fails = some (err receive_failed)
  outcome (answers res) = elim (from_json res) [
    | none ↦ some (err bad_response)
    | some response ↦ some (ok response)
  ]

  abbrev pub Ends : Waited → Type 0
  Ends times_out = ⊥
  Ends fails = Unit
  Ends (answers res) = Unit

  call_rounds_last :
      (req : Bytes) (endpoint : Endpoint) (last : Waited) (later : List Waited) (s : Calling)
      → Ends last
      → call_rounds req endpoint (last ∷ later) s
        ≡ (outcome last, record s { sent = s.sent ++ (req, endpoint) ∷ [] })
  unfolding call_rounds
  call_rounds_last req endpoint times_out later s h = absurd h
  call_rounds_last req endpoint fails later s h = refl
  call_rounds_last req endpoint (answers res) later s h = elim (Option-cases (from_json res)) [
    | inl e ↦ rw (call_rounds, outcome, e) refl
    | inr (response, e) ↦ rw (call_rounds, outcome, e) refl
  ]

  -- The call after n attempts that timed out and one that did not.
  abbrev tried : Bytes → Endpoint → ℕ → Calling → Calling
  tried req endpoint n s = record {
    sent = s.sent ++ replicate (suc n) (req, endpoint);
    retries = s.retries + n;
    waited = s.waited + (2 ^ (s.retries + n + 1) - 2 ^ (s.retries + 1));
  }

  calling_eq :
      (s t : Calling) → s.sent ≡ t.sent → s.retries ≡ t.retries → s.waited ≡ t.waited → s ≡ t
  calling_eq s t p q r i = record { sent = p i; retries = q i; waited = r i }

  now : (w r : ℕ) → w ≡ w + (2 ^ (r + 0 + 1) - 2 ^ (r + 1))
  now w r =
      let same : 2 ^ (r + 0 + 1) ≡ 2 ^ (r + 1) = ap (λ k. 2 ^ k) (omega arith) in
      omega (arith, same)

  call_rounds_lem :
      (req : Bytes) (endpoint : Endpoint) (n : ℕ) (last : Waited) (later : List Waited)
      (s : Calling)
      → s.retries + n ≤ 63
      → Ends last
      → call_rounds req endpoint (replicate n times_out ++ last ∷ later) s
        ≡ (outcome last, tried req endpoint n s)
  unfolding call_rounds replicate timeout_secs
  call_rounds_lem req endpoint zero last later s h e =
      call_rounds_last req endpoint last later s e
      ∙ ap (λ t. (outcome last, t))
          (calling_eq _ (tried req endpoint zero s) refl (omega arith) (now s.waited s.retries))
  call_rounds_lem req endpoint (suc n) last later s h e =
      call_rounds_lem req endpoint n last later _ (omega (arith, h)) e
      ∙ ap (λ t. (outcome last, t))
          (calling_eq _ (tried req endpoint (suc n) s)
            (append_assoc s.sent ((req, endpoint) ∷ []) _) (omega arith)
            (waited_lem s.retries n s.waited h))

  -- If n attempts time out, fewer than 63 of them, and the next does not: the call ends with what came then, a
  -- response or an error; it has sent the request n + 1 times to the RPC dock of its destination, and has waited
  -- 2 ^ (n + 1) - 2 seconds before its last attempt. No timeout overflows.
  pub call_raw_lem :
      (req : Bytes) (dest_fp n : ℕ) (last : Waited) (later : List Waited)
      → n < 63
      → Ends last
      → call_raw req dest_fp (replicate n times_out ++ last ∷ later) ≡ (
        outcome last,
        record {
          sent = replicate (suc n) (req, (dest_fp, global_rpc_dock));
          retries = n;
          waited = 2 ^ (n + 1) - 2;
        },
      )
  unfolding call_raw
  call_raw_lem req dest_fp n last later h e =
      call_rounds_lem req (dest_fp, global_rpc_dock) n last later
        (record { sent = []; retries = 0; waited = 0 }) (omega (arith, h)) e
      ∙ ap (λ t. (outcome last, t))
          (calling_eq _
            (record {
              sent = replicate (suc n) (req, (dest_fp, global_rpc_dock));
              retries = n;
              waited = 2 ^ (n + 1) - 2;
            })
            refl (omega arith) (from_zero n))
    where
      from_zero : (n : ℕ) → 0 + (2 ^ (0 + n + 1) - 2 ^ (0 + 1)) ≡ 2 ^ (n + 1) - 2
      from_zero n =
          let same : 2 ^ (0 + n + 1) ≡ 2 ^ (n + 1) = ap (λ k. 2 ^ k) (omega arith) in
          omega (arith, same)
