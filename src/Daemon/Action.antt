-- ===== src/Daemon/Action.antt =====
-- Handlers that change a state and may fail: the state they leave is there also when they fail.
use earendil.Base.{
  ◌≡◌, ◌∙◌, ◌⊎◌, inl, inr, ap, sym, subst, Result-cases, refl, Option, none, some, Result, ok, err,
  panic,
}

abbrev pub Action {σ ℓ} : Type σ → Type 0 → Type ℓ → Type (σ ⊔ ℓ)
Action S E A = S → Result E A × S

-- What comes after a step that ended so.
abbrev after {σ ℓ κ} :
    {S : Type σ} {E : Type 0} {A : Type ℓ} {B : Type κ}
    → (A → Action S E B)
    → Result E A × S
    → Result E B × S
after f (panic, s) = (panic, s)
after f (err e, s) = (err e, s)
after f (ok a, s) = f a s

infixl 5 ◌>>=◌
unfoldable pub ◌>>=◌ {σ ℓ κ} :
    {S : Type σ} {E : Type 0} {A : Type ℓ} {B : Type κ}
    → Action S E A
    → (A → Action S E B)
    → Action S E B
(m >>= f) s = after f (m s)

abbrev pub return {σ ℓ} : {S : Type σ} {E : Type 0} {A : Type ℓ} → A → Action S E A
return a s = (ok a, s)

abbrev pub fail {σ ℓ} : {S : Type σ} {E : Type 0} {A : Type ℓ} → E → Action S E A
fail e s = (err e, s)

-- A result that touches no state.
abbrev pub lift {σ ℓ} : {S : Type σ} {E : Type 0} {A : Type ℓ} → Result E A → Action S E A
lift r s = (r, s)

-- `?` on an option
abbrev pub require {σ ℓ} : {S : Type σ} {E : Type 0} {A : Type ℓ} → Option A → E → Action S E A
require none e s = (err e, s)
require (some a) e s = (ok a, s)

abbrev pub read {σ ℓ} : {S : Type σ} {E : Type 0} {A : Type ℓ} → (S → A) → Action S E A
read f s = (ok (f s), s)

abbrev pub modify {σ} : {S : Type σ} {E : Type 0} → (S → S) → Action S E (Unit {0})
modify f s = (ok tt, f s)

infixl 5 ◌>>◌
abbrev pub ◌>>◌ {σ κ} :
    {S : Type σ} {E : Type 0} {B : Type κ} → Action S E (Unit {0}) → Action S E B → Action S E B
m >> k = m >>= λ _. k

-- A handler that leaves something of the state as it is.
abbrev pub Keeps {σ ℓ κ} :
    {S : Type σ} {E : Type 0} {A : Type ℓ} {B : Type κ} → (S → B) → Action S E A → Type (σ ⊔ κ)
Keeps {S = S} f m = (s : S) → f (m s).1 ≡ f s

module _ {σ ℓ κ μ} {S : Type σ} {E : Type 0} {A : Type ℓ} {B : Type κ} {C : Type μ}
    (f : S → C) where
  Keeps-after :
      (s : S) (p : Result E A × S) (k : A → Action S E B)
      → f p.1 ≡ f s
      → ((a : A) → Keeps f (k a))
      → f (((λ _. p) >>= k) s).1 ≡ f s
  unfolding ◌>>=◌
  Keeps-after s (ok a, t) k h next = next a t ∙ h
  Keeps-after s (err e, t) k h next = h
  Keeps-after s (panic, t) k h next = h

  pub >>=-Keeps :
      (m : Action S E A) (k : A → Action S E B)
      → Keeps f m
      → ((a : A) → Keeps f (k a))
      → Keeps f (m >>= k)
  unfolding ◌>>=◌
  >>=-Keeps m k h next s = Keeps-after s (m s) k (h s) next

module _ {σ ℓ κ} {S : Type σ} {E : Type 0} {A : Type ℓ} {B : Type κ} where
  -- A step that succeeds hands its value and its state on.
  pub >>=-ok :
      (m : Action S E A) (k : A → Action S E B) (s t : S) (a : A)
      → m s ≡ (ok a, t)
      → (m >>= k) s ≡ k a t
  unfolding ◌>>=◌
  >>=-ok m k s t a h = ap (after k) h

  -- One that fails ends the whole.
  pub >>=-err :
      (m : Action S E A) (k : A → Action S E B) (s t : S) (e : E)
      → m s ≡ (err e, t)
      → (m >>= k) s ≡ (err e, t)
  unfolding ◌>>=◌
  >>=-err m k s t e h = ap (after k) h

  pub >>=-panic :
      (m : Action S E A) (k : A → Action S E B) (s t : S)
      → m s ≡ (panic, t)
      → (m >>= k) s ≡ (panic, t)
  unfolding ◌>>=◌
  >>=-panic m k s t h = ap (after k) h

module _ {σ ℓ} {S : Type σ} {E : Type 0} {A : Type ℓ} where
  -- What a handler comes to.
  pub run-cases :
      (m : Action S E A) (s : S)
      → ((a : A) × (t : S) × (m s ≡ (ok a, t)))
        ⊎ ((e : E) × (t : S) × (m s ≡ (err e, t)))
        ⊎ ((t : S) × (m s ≡ (panic, t)))
  run-cases m s = elim (Result-cases (m s).0) [
    | inl (a, h) ↦ inl (a, (m s).1, ap (λ r. (r, (m s).1)) h)
    | inr (inl (e, h)) ↦ inr (inl (e, (m s).1, ap (λ r. (r, (m s).1)) h))
    | inr (inr h) ↦ inr (inr ((m s).1, ap (λ r. (r, (m s).1)) h))
  ]

-- A step whose errors are renamed, as `?` does by `From`.
abbrev renamed {σ ℓ} :
    {S : Type σ} {E F : Type 0} {A : Type ℓ} → (E → F) → Result E A × S → Result F A × S
renamed f (panic, s) = (panic, s)
renamed f (err e, s) = (err (f e), s)
renamed f (ok a, s) = (ok a, s)

unfoldable pub or_fail {σ ℓ} :
    {S : Type σ} {E F : Type 0} {A : Type ℓ} → (E → F) → Action S E A → Action S F A
or_fail f m s = renamed f (m s)

renamed_state {σ ℓ} :
    {S : Type σ} {E F : Type 0} {A : Type ℓ} (f : E → F) (p : Result E A × S)
    → (renamed f p).1 ≡ p.1
renamed_state f (panic, s) = refl
renamed_state f (err e, s) = refl
renamed_state f (ok a, s) = refl

-- A handler after which something holds that held before.
abbrev pub Stays {σ ℓ κ} :
    {S : Type σ} {E : Type 0} {A : Type ℓ} → (S → Type κ) → Action S E A → Type (σ ⊔ κ)
Stays {S = S} P m = (s : S) → P s → P (m s).1

module _ {σ ℓ κ μ} {S : Type σ} {E : Type 0} {A : Type ℓ} {B : Type κ} (P : S → Type μ) where
  Stays-after :
      (p : Result E A × S) (k : A → Action S E B)
      → P p.1
      → ((a : A) (t : S) → p ≡ (ok a, t) → P t → P (k a t).1)
      → P (after k p).1
  Stays-after (ok a, t) k h next = next a t refl h
  Stays-after (err e, t) k h next = h
  Stays-after (panic, t) k h next = h

  -- The second step of the values only that the first returns.
  pub >>=-Stays_of :
      (m : Action S E A) (k : A → Action S E B)
      → Stays P m
      → ((s : S) (a : A) (t : S) → P s → m s ≡ (ok a, t) → P t → P (k a t).1)
      → Stays P (m >>= k)
  unfolding ◌>>=◌
  >>=-Stays_of m k h next s p = Stays-after (m s) k (h s p) (λ a t e q. next s a t p e q)

  pub >>=-Stays :
      (m : Action S E A) (k : A → Action S E B)
      → Stays P m
      → ((a : A) → Stays P (k a))
      → Stays P (m >>= k)
  >>=-Stays m k h next = >>=-Stays_of m k h (λ s a t p e q. next a t q)

pub or_fail-Stays {σ ℓ μ} :
    {S : Type σ} {E F : Type 0} {A : Type ℓ} (P : S → Type μ) (f : E → F) (m : Action S E A)
    → Stays P m
    → Stays P (or_fail f m)
unfolding or_fail
or_fail-Stays P f m h s p = subst P (sym (renamed_state f (m s))) (h s p)
