-- ===== src/Base/Lists.antt =====
-- Lists measured and cut by native numbers, and their use as sets.
use Prim.Native.Nat.{ℕ, zero, suc, ◌+◌, ◌-◌, ◌≤◌, min}
use mathlib.Core.Path.{◌≡◌, refl, ap, subst}
use mathlib.Core.Logic.{◌⊎◌, ◌↔◌, inl, inr}
use mathlib.Core.Bool.{Bool, true, false, ◌||◌, ◌&&◌}
use mathlib.Core.List.{List, [], ◌∷◌, ◌++◌, map}
use native.Mathlib.Omega.{arith}
use native.Mathlib.Nat.{suc-add}
use earendil.Base.Tests.{if◌then◌else◌, Eq, ◌==◌, nat_beq, nat_beq_iff, Bool-cases}

module _ {ℓ} {A : Type ℓ} where
  abbrev pub length : List A → ℕ
  length [] = 0
  length (x ∷ xs) = suc (length xs)

  unfoldable pub replicate : ℕ → A → List A
  replicate zero a = []
  replicate (suc n) a = a ∷ replicate n a

  unfoldable pub drop : ℕ → List A → List A
  drop zero xs = xs
  drop (suc n) [] = []
  drop (suc n) (x ∷ xs) = drop n xs

  unfoldable pub take : ℕ → List A → List A
  take zero xs = []
  take (suc n) [] = []
  take (suc n) (x ∷ xs) = x ∷ take n xs

  pub List-cases : (xs : List A) → (xs ≡ []) ⊎ ((x : A) × (rest : List A) × (xs ≡ x ∷ rest))
  List-cases [] = inl refl
  List-cases (x ∷ xs) = inr (x, xs, refl)

  pub length-append : (xs ys : List A) → length (xs ++ ys) ≡ length xs + length ys
  length-append [] ys = omega arith
  length-append (x ∷ xs) ys = omega (arith, length-append xs ys)

  pub length-replicate : (n : ℕ) (a : A) → length (replicate n a) ≡ n
  unfolding replicate
  length-replicate zero a = refl
  length-replicate (suc n) a = ap suc (length-replicate n a)

  pub length-take : (n : ℕ) (xs : List A) → length (take n xs) ≡ min n (length xs)
  unfolding take
  length-take zero xs = omega arith
  length-take (suc n) [] = omega arith
  length-take (suc n) (x ∷ xs) = omega (arith, length-take n xs)

  pub length-drop : (n : ℕ) (xs : List A) → length (drop n xs) ≡ length xs - n
  unfolding drop
  length-drop zero xs = omega arith
  length-drop (suc n) [] = omega arith
  length-drop (suc n) (x ∷ xs) = omega (arith, length-drop n xs)

  pub take-append : (n : ℕ) (xs ys : List A) → n ≡ length xs → take n (xs ++ ys) ≡ xs
  unfolding take
  take-append zero [] ys h = refl
  take-append zero (x ∷ xs) ys h = absurd (omega arith)
  take-append (suc n) [] ys h = absurd (omega arith)
  take-append (suc n) (x ∷ xs) ys h = ap (◌∷◌ x) (take-append n xs ys (omega arith))

  pub drop-append : (n : ℕ) (xs ys : List A) → n ≡ length xs → drop n (xs ++ ys) ≡ ys
  unfolding drop
  drop-append zero [] ys h = refl
  drop-append zero (x ∷ xs) ys h = absurd (omega arith)
  drop-append (suc n) [] ys h = absurd (omega arith)
  drop-append (suc n) (x ∷ xs) ys h = drop-append n xs ys (omega arith)

  pub take-append_le : (n : ℕ) (xs ys : List A) → n ≤ length xs → take n (xs ++ ys) ≡ take n xs
  unfolding take
  take-append_le zero xs ys h = refl
  take-append_le (suc n) [] ys h = absurd (omega arith)
  take-append_le (suc n) (x ∷ xs) ys h = ap (◌∷◌ x) (take-append_le n xs ys (omega arith))

  pub take_of_length-le : (i : ℕ) (rest : List A) → length rest ≤ i → take i rest ≡ rest
  unfolding take
  take_of_length-le zero rest short = elim (List-cases rest) [
    | inl none_left ↦ rw none_left refl
    | inr (y, ys, e) ↦ absurd (omega (arith, ap length e))
  ]
  take_of_length-le (suc i) [] short = refl
  take_of_length-le (suc i) (y ∷ ys) short = rw (take_of_length-le i ys (omega arith)) refl

  pub take-take : (m n : ℕ) (xs : List A) → m ≤ n → take m (take n xs) ≡ take m xs
  unfolding take
  take-take zero n xs h = refl
  take-take (suc m) zero xs h = absurd (omega arith)
  take-take (suc m) (suc n) [] h = refl
  take-take (suc m) (suc n) (x ∷ xs) h = ap (◌∷◌ x) (take-take m n xs (omega arith))

  pub take-drop : (m n : ℕ) (xs : List A) → take m (drop n xs) ≡ drop n (take (n + m) xs)
  unfolding take drop
  take-drop m zero xs = ground arith
  take-drop zero (suc n) [] = rw suc-add refl
  take-drop (suc m) (suc n) [] = rw suc-add refl
  take-drop m (suc n) (x ∷ xs) = rw suc-add (take-drop m n xs)

  pub take-append-drop : (n : ℕ) (xs : List A) → take n xs ++ drop n xs ≡ xs
  unfolding take drop
  take-append-drop zero xs = refl
  take-append-drop (suc n) [] = refl
  take-append-drop (suc n) (x ∷ xs) = rw (take-append-drop n xs)

pub length-map {ℓ κ} :
    {A : Type ℓ} {B : Type κ} (xs : List A) (f : A → B) → length (map f xs) ≡ length xs
length-map [] f = refl
length-map (x ∷ xs) f = ap suc (length-map xs f)

-- A hash set as a list: what can be asked of it is membership.
module _ {ℓ} {A : Type ℓ} ⦃e : Eq A⦄ where
  unfoldable pub contains : A → List A → Bool
  contains a [] = false
  contains a (x ∷ xs) = x == a || contains a xs

  unfoldable pub set_insert : A → List A → List A
  unfolding contains
  set_insert a xs = if contains a xs then xs else xs ++ a ∷ []

  unfoldable pub set_remove : A → List A → List A
  set_remove a [] = []
  set_remove a (x ∷ xs) = if x == a then set_remove a xs else x ∷ set_remove a xs

  pub contains-append :
      (a : A) (xs ys : List A) → contains a (xs ++ ys) ≡ (contains a xs || contains a ys)
  unfolding contains
  contains-append a [] ys = refl
  contains-append a (x ∷ xs) ys = ground (arith, contains-append a xs ys)

  pub contains-set_insert :
      (a b : A) (xs : List A) → contains a (set_insert b xs) ≡ (b == a || contains a xs)
  unfolding set_insert contains
  contains-set_insert a b xs = ground (arith, contains-append a xs (b ∷ []), e.decides b a)

  pub contains-set_remove :
      (a b : A) (xs : List A)
      → contains a (set_remove b xs) ≡ (if b == a then false else contains a xs)
  unfolding set_remove contains
  contains-set_remove a b [] = ground arith
  contains-set_remove a b (x ∷ xs) =
      ground (arith, contains-set_remove a b xs, e.decides b a, e.decides x a, e.decides x b)

-- Texts as keys: the bytes are compared one by one.
unfoldable pub text_beq : List ℕ → List ℕ → Bool
text_beq [] [] = true
text_beq [] (y ∷ ys) = false
text_beq (x ∷ xs) [] = false
text_beq (x ∷ xs) (y ∷ ys) = nat_beq x y && text_beq xs ys

text_beq_refl : (xs : List ℕ) → text_beq xs xs ≡ true
unfolding text_beq
text_beq_refl [] = refl
text_beq_refl (x ∷ xs) = rw ((nat_beq_iff x x).1 refl) (text_beq_refl xs)

text_beq_eq : (xs ys : List ℕ) → text_beq xs ys ≡ true → xs ≡ ys
unfolding text_beq
text_beq_eq [] [] h = refl
text_beq_eq [] (y ∷ ys) h = absurd (cc)
text_beq_eq (x ∷ xs) [] h = absurd (cc)
text_beq_eq (x ∷ xs) (y ∷ ys) h = elim (Bool-cases (nat_beq x y)) [
  | inl e ↦
      let tails = text_beq_eq xs ys (ground (arith, h, e)) in
      let heads = (nat_beq_iff x y).0 e in λ i. heads i ∷ tails i
  | inr e ↦ absurd (ground (arith, h, e))
]

pub text_beq_iff : (xs ys : List ℕ) → (text_beq xs ys ≡ true) ↔ (xs ≡ ys)
text_beq_iff xs ys =
    (text_beq_eq xs ys, λ h. subst (λ zs. text_beq xs zs ≡ true) h (text_beq_refl xs))

instance abbrev pub text_eq : Eq (List ℕ)
text_eq = record { beq = text_beq; decides = text_beq_iff }
