-- ===== src/Socket/Endpoints.antt =====
-- The text forms of a fingerprint (libraries/earendil_crypt/src/lib.rs) and of an endpoint (src/socket.rs).
pub mod Reads
use earendil.Base.{
  ℕ, zero, suc, ◌+◌, ◌-◌, ◌*◌, ◌/◌, ◌%◌, ◌^◌, ◌<◌, ◌≤◌, ◌≡◌, refl, ap, ◌∙◌, false, ◌&&◌, Option,
  none, some, List, [], ◌∷◌, ◌++◌, map, length, arith, ltb, leb, nat_beq, nat_beq_iff,
  if◌then◌else◌, Result, ok, err, panic, Bool-cases, Option-cases, subst, inl, inr,
}
use native.Mathlib.Nat.{pow-suc}
use earendil.Crypto.{
  Bytes, be_bytes, of_be, of_be-be_bytes, of_be-lt, length-be_bytes, IsBytes, be_bytes-IsBytes,
}
use earendil.Daemon.State.{Endpoint}

-- Texts are the codes of their characters.
-- The crate base32 with the alphabet of Crockford.
pub record Base32 : Type 0 where
  pub encode : Bytes → Bytes
  pub decode : Bytes → Option Bytes

abbrev pub colon : ℕ
colon = 58

abbrev pub to_lowercase : ℕ → ℕ
to_lowercase c = if leb 65 c && leb c 90 then c + 32 else c

-- No character is this one.
abbrev pub Lacks : ℕ → Bytes → Type 0
Lacks sep [] = Unit
Lacks sep (c ∷ cs) = (nat_beq c sep ≡ false) × Lacks sep cs

-- The alphabet has letters and digits only, and letters are read in either case.
pub record IsBase32 (base32 : Base32) : Type 0 where
  pub decode-encode :
      (bytes : Bytes)
      → IsBytes bytes
      → base32.decode (map to_lowercase (base32.encode bytes)) ≡ some bytes
  pub encode-Lacks : (bytes : Bytes) → Lacks colon (map to_lowercase (base32.encode bytes))

pub data EndpointError : Type 0 where
  wrong_format not_base32 wrong_length not_a_dock : EndpointError

-- str::split(':')
abbrev pub to_first : ℕ → List Bytes → List Bytes
to_first c [] = (c ∷ []) ∷ []
to_first c (piece ∷ pieces) = (c ∷ piece) ∷ pieces

unfoldable pub split : ℕ → Bytes → List Bytes
split sep [] = [] ∷ []
split sep (c ∷ cs) = let rest = split sep cs in if nat_beq c sep then [] ∷ rest else to_first c rest

-- The decimal digits of a number, in front of more characters.
unfoldable pub decimal : ℕ → ℕ → Bytes → Bytes
decimal zero n more = more
decimal (suc fuel) n more =
    let rest = decimal fuel (n / 10) ((48 + n % 10) ∷ more) in
    if ltb n 10 then (48 + n) ∷ more else rest

-- The loop of u32::from_str, which checks each step for overflow.
unfoldable pub parse_digits : ℕ → Bytes → Option ℕ
parse_digits value [] = some value
parse_digits value (c ∷ cs) =
    let next = value * 10 + (c - 48) in
    let rest = parse_digits next cs in
    if leb 48 c && leb c 57 && ltb next (2 ^ 32) then rest else none

-- u32::from_str, which lets a sign `+` stand in front.
unfoldable pub some_digits : Bytes → Option ℕ
unfolding parse_digits
some_digits [] = none
some_digits (c ∷ cs) = parse_digits 0 (c ∷ cs)

unfoldable pub parse_u32 : Bytes → Option ℕ
unfolding some_digits
parse_u32 [] = none
parse_u32 (c ∷ cs) = if nat_beq c 43 then some_digits cs else some_digits (c ∷ cs)

module _ (base32 : Base32) where
  -- Fingerprint: Display and FromStr
  unfoldable pub fingerprint_text : ℕ → Bytes
  fingerprint_text fp = map to_lowercase (base32.encode (be_bytes 20 fp))

  unfoldable pub fingerprint_from_str : Bytes → Result EndpointError ℕ
  fingerprint_from_str s = elim (base32.decode s) [
    | none ↦ err not_base32
    | some bytes ↦ if nat_beq (length bytes) 20 then ok (of_be bytes) else err wrong_length
  ]

  -- Endpoint: Display and FromStr; a dock has at most ten digits.
  unfoldable pub endpoint_text : Endpoint → Bytes
  unfolding fingerprint_text
  endpoint_text (fp, dock) = fingerprint_text fp ++ colon ∷ decimal 10 dock []

  unfoldable pub endpoint_of_pieces : List Bytes → Result EndpointError Endpoint
  unfolding fingerprint_from_str
  endpoint_of_pieces [] = err wrong_format
  endpoint_of_pieces (a ∷ []) = err wrong_format
  endpoint_of_pieces (a ∷ b ∷ c ∷ more) = err wrong_format
  endpoint_of_pieces (a ∷ b ∷ []) = elim (fingerprint_from_str a) [
    | panic ↦ panic
    | err e ↦ err e
    | ok fp ↦ elim (parse_u32 b) [ none ↦ err not_a_dock | some dock ↦ ok (fp, dock) ]
  ]

  unfoldable pub endpoint_from_str : Bytes → Result EndpointError Endpoint
  unfolding endpoint_of_pieces split
  endpoint_from_str s = endpoint_of_pieces (split colon s)
