-- ===== src/Socket/Endpoints/Reads.antt =====
-- The text of an endpoint is read back.
use earendil.Base.{
  ℕ, zero, suc, ◌+◌, ◌*◌, ◌/◌, ◌%◌, ◌^◌, ◌<◌, ◌≤◌, ◌≡◌, refl, ap, ◌∙◌, some, [], ◌∷◌, ◌++◌, arith,
  ltb, nat_beq_iff, ok, Bool-cases, inl, inr,
}
use native.Mathlib.Nat.{pow-suc}
use earendil.Crypto.{Bytes, be_bytes, of_be-be_bytes, length-be_bytes, be_bytes-IsBytes}
use earendil.Socket.Endpoints.{
  Base32, colon, Lacks, IsBase32, split, decimal, parse_digits, some_digits, parse_u32,
  fingerprint_text, fingerprint_from_str, endpoint_text, endpoint_of_pieces, endpoint_from_str,
}

split-append : (sep : ℕ) (a b : Bytes) → Lacks sep a → split sep (a ++ sep ∷ b) ≡ a ∷ split sep b
unfolding split
split-append sep [] b h = ground (arith, nat_beq_iff sep sep)
split-append sep (c ∷ cs) b h = rw (h.0, split-append sep cs b h.1) refl

split_whole : (sep : ℕ) (a : Bytes) → Lacks sep a → split sep a ≡ a ∷ []
unfolding split
split_whole sep [] h = refl
split_whole sep (c ∷ cs) h = rw (h.0, split_whole sep cs h.1) refl

parse_digits_digit :
    (value d : ℕ) (more : Bytes)
    → d < 10
    → value * 10 + d < 2 ^ 32
    → parse_digits value ((48 + d) ∷ more) ≡ parse_digits (value * 10 + d) more
unfolding parse_digits
parse_digits_digit value d more h small = ground (arith, h, small)

parse_digits-decimal :
    (fuel n : ℕ) (more : Bytes)
    → n < 10 ^ fuel
    → n < 2 ^ 32
    → parse_digits 0 (decimal fuel n more) ≡ parse_digits n more
unfolding decimal
parse_digits-decimal zero n more h small = ap (λ k. parse_digits k more) (omega (arith, h))
parse_digits-decimal (suc fuel) n more h small = elim (Bool-cases (ltb n 10)) [
  | inl e ↦
      rw (decimal, e)
        (parse_digits_digit 0 n more (ground (arith, e)) (omega (arith, small))
          ∙ ap (λ k. parse_digits k more) (omega arith))
  | inr e ↦
      rw (decimal, e)
        (parse_digits-decimal fuel (n / 10) ((48 + n % 10) ∷ more)
            (omega (arith, h, pow-suc 10 fuel)) (omega (arith, small))
          ∙ parse_digits_digit (n / 10) (n % 10) more (omega arith) (omega (arith, small))
          ∙ ap (λ k. parse_digits k more) (omega arith))
]

-- It begins with a digit.
abbrev IsDigits : Bytes → Type 0
IsDigits [] = ⊥
IsDigits (c ∷ cs) = (48 ≤ c) × (c ≤ 57)

decimal-IsDigits : (fuel n : ℕ) (more : Bytes) → IsDigits more → IsDigits (decimal fuel n more)
unfolding decimal
decimal-IsDigits zero n more h = h
decimal-IsDigits (suc fuel) n more h = elim (Bool-cases (ltb n 10)) [
  | inl e ↦ rw (decimal, e) (ground (arith, e))
  | inr e ↦ rw (decimal, e) (decimal-IsDigits fuel (n / 10) ((48 + n % 10) ∷ more) (ground arith))
]

decimal_ten-IsDigits : (n : ℕ) → IsDigits (decimal 10 n [])
unfolding decimal
decimal_ten-IsDigits n = elim (Bool-cases (ltb n 10)) [
  | inl e ↦ rw e (ground (arith, e))
  | inr e ↦ rw e (decimal-IsDigits 9 (n / 10) ((48 + n % 10) ∷ []) (ground arith))
]

parse_u32_digits : (s : Bytes) → IsDigits s → parse_u32 s ≡ parse_digits 0 s
unfolding parse_u32 some_digits
parse_u32_digits [] h = absurd h
parse_u32_digits (c ∷ cs) h = ground (arith, h)

parse_u32-decimal : (n : ℕ) → n < 2 ^ 32 → parse_u32 (decimal 10 n []) ≡ some n
unfolding parse_digits
parse_u32-decimal n h =
    parse_u32_digits (decimal 10 n []) (decimal_ten-IsDigits n)
    ∙ parse_digits-decimal 10 n [] (omega (arith, h)) h

decimal-Lacks : (fuel n : ℕ) (more : Bytes) → Lacks colon more → Lacks colon (decimal fuel n more)
unfolding decimal
decimal-Lacks zero n more h = h
decimal-Lacks (suc fuel) n more h = elim (Bool-cases (ltb n 10)) [
  | inl e ↦ rw (decimal, e) (ground (arith, e), h)
  | inr e ↦ rw (decimal, e) (decimal-Lacks fuel (n / 10) ((48 + n % 10) ∷ more) (ground arith, h))
]

module _ (base32 : Base32) (lawful : IsBase32 base32) where
  fingerprint_from_str-text :
      (fp : ℕ) → fp < 256 ^ 20 → fingerprint_from_str base32 (fingerprint_text base32 fp) ≡ ok fp
  unfolding fingerprint_from_str fingerprint_text
  fingerprint_from_str-text fp h =
      rw (fingerprint_from_str, lawful.decode-encode (be_bytes 20 fp) (be_bytes-IsBytes 20 fp))
        (rw (length-be_bytes 20 fp) (ap ok (of_be-be_bytes 20 fp h)))

  endpoint_of_two :
      (a b : Bytes) (fp dock : ℕ)
      → fingerprint_from_str base32 a ≡ ok fp
      → parse_u32 b ≡ some dock
      → endpoint_of_pieces base32 (a ∷ b ∷ []) ≡ ok (fp, dock)
  unfolding endpoint_of_pieces
  endpoint_of_two a b fp dock e f = rw (endpoint_of_pieces, e, f) refl

  -- If base32 decodes what it encoded, in lower case, and writes no colon: the text of an endpoint, with a
  -- fingerprint of 20 bytes and a dock of 32 bits, is read back as that endpoint.
  pub endpoint_from_str-endpoint_text :
      (fp dock : ℕ)
      → fp < 256 ^ 20
      → dock < 2 ^ 32
      → endpoint_from_str base32 (endpoint_text base32 (fp, dock)) ≡ ok (fp, dock)
  unfolding endpoint_from_str endpoint_text fingerprint_text
  endpoint_from_str-endpoint_text fp dock small below =
      ap (endpoint_of_pieces base32) (
        split-append colon (fingerprint_text base32 fp) (decimal 10 dock [])
          (lawful.encode-Lacks (be_bytes 20 fp))
        ∙ ap (λ rest. fingerprint_text base32 fp ∷ rest)
            (split_whole colon (decimal 10 dock []) (decimal-Lacks 10 dock [] tt)))
      ∙ endpoint_of_two (fingerprint_text base32 fp) (decimal 10 dock []) fp dock
          (fingerprint_from_str-text fp small) (parse_u32-decimal dock below)
