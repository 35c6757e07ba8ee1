-- ===== src/Identity.antt =====
-- src/config.rs: the identity of a configuration, from a seed or from a file that is made if it is not there.
use earendil.Base.{
  ℕ, zero, suc, ◌+◌, ◌^◌, ◌≡◌, ◌<◌, refl, sym, ap, ◌∙◌, Bool, true, length, nat_beq, if◌then◌else◌,
  Result, ok, err, ◌++◌, drop,
}
use earendil.Crypto.{Bytes, ascii, be_bytes, of_be, of_be-be_bytes, length-be_bytes}

-- A configuration's identity; a path is its bytes.
pub data Identity : Type 0 where
  identity_seed identity_file : Bytes → Identity

-- What a path holds. A file that may not be read can still be written to.
pub data FileState : Type 0 where
  absent : FileState
  readable unreadable : Bytes → FileState

pub data ActualizeError : Type 0 where
  wrong_length cannot_open out_of_fuel : ActualizeError

-- A path, whether it may be opened for writing, and how many identities were generated.
pub record FileSystem : Type 0 where
  pub at_path : FileState
  pub may_open : Bool
  pub drawn : ℕ

-- What a file has after bytes were written over its beginning.
abbrev pub overwritten : Bytes → Bytes → Bytes
overwritten new old = new ++ drop (length new) old

abbrev pub write_over : Bytes → FileState → FileState
write_over new absent = readable new
write_over new (readable old) = readable (overwritten new old)
write_over new (unreadable old) = unreadable (overwritten new old)

-- IdentitySecret::from_bytes after try_into
unfoldable pub of_file : Bytes → Result ActualizeError ℕ
of_file bts = if nat_beq (length bts) 32 then ok (of_be bts) else err wrong_length

module _ (argon2 : Bytes → Bytes → Bytes) (generate : ℕ → ℕ) where
  -- The loop on a file. It ends, or it writes a new identity and reads again.
  unfoldable pub read_or_create : ℕ → FileSystem → Result ActualizeError ℕ × FileSystem
  unfolding of_file
  read_or_create zero fs = (err out_of_fuel, fs)
  read_or_create (suc fuel) fs =
      let written = record fs {
        at_path = write_over (be_bytes 32 (generate fs.drawn)) fs.at_path;
        drawn = fs.drawn + 1;
      } in
      let again = read_or_create fuel written in
      let created =
        if fs.may_open then again else (err cannot_open, record fs { drawn = fs.drawn + 1 }) in
      elim fs.at_path [
        | readable bts ↦ (of_file bts, fs)
        | unreadable bts ↦ created
        | absent ↦ created
      ]

  -- IdentitySecret::from_seed, with kdf_from_human, which is Argon2 with its defaults
  unfoldable pub from_seed : Bytes → ℕ
  from_seed id_seed = of_be (argon2 id_seed (ascii "identity_kdf_salt"))

  -- Identity::actualize; the path is the one of `at_path`.
  unfoldable pub actualize : ℕ → Identity → FileSystem → Result ActualizeError ℕ × FileSystem
  unfolding read_or_create from_seed
  actualize fuel (identity_seed seed) fs = (ok (from_seed seed), fs)
  actualize fuel (identity_file file) fs = read_or_create fuel fs

  -- The first identity is written and read back, and later runs read the same.
  of_file-be_bytes : (sk : ℕ) → sk < 256 ^ 32 → of_file (be_bytes 32 sk) ≡ ok sk
  unfolding of_file
  of_file-be_bytes sk h = rw (length-be_bytes 32 sk) (ap ok (of_be-be_bytes 32 sk h))

  there : Bytes → Bool → ℕ → FileSystem
  there bts may_open drawn = record { at_path = readable bts; may_open = may_open; drawn = drawn }

  read_there :
      (fuel sk drawn : ℕ)
      → sk < 256 ^ 32
      → read_or_create (suc fuel) (there (be_bytes 32 sk) true drawn)
        ≡ (ok sk, there (be_bytes 32 sk) true drawn)
  unfolding read_or_create there
  read_there fuel sk drawn h =
      ap (λ r. (r, there (be_bytes 32 sk) true drawn)) (of_file-be_bytes sk h)

  read_after :
      (fuel drawn : ℕ)
      → read_or_create (suc fuel) (record { at_path = absent; may_open = true; drawn = drawn })
        ≡ read_or_create fuel (there (be_bytes 32 (generate drawn)) true (drawn + 1))
  unfolding read_or_create there
  read_after fuel drawn = refl

  -- A run on a file that is not there yet, where it may be made and a generated identity has 32 bytes, ends with two
  -- turns of its loop: it returns the identity that it generated, and every later run, whatever its fuel, returns
  -- the same and changes nothing.
  pub actualize_again :
      (fuel later : ℕ) (file : Bytes) (fs : FileSystem)
      → fs.at_path ≡ absent
      → fs.may_open ≡ true
      → generate fs.drawn < 256 ^ 32
      → let first = actualize (suc (suc fuel)) (identity_file file) fs in
        (first.0 ≡ ok (generate fs.drawn))
        × (actualize (suc later) (identity_file file) first.1 ≡ (ok (generate fs.drawn), first.1))
  unfolding actualize
  actualize_again fuel later file fs e o h =
      let new = generate fs.drawn in
      let end = there (be_bytes 32 new) true (fs.drawn + 1) in
      let as_made : fs ≡ record { at_path = absent; may_open = true; drawn = fs.drawn } =
        λ i. record { at_path = e i; may_open = o i; drawn = fs.drawn } in
      let done : read_or_create (suc (suc fuel)) fs ≡ (ok new, end) =
        ap (read_or_create (suc (suc fuel))) as_made
        ∙ read_after (suc fuel) fs.drawn
        ∙ read_there fuel new (fs.drawn + 1) h in
      (
        ap (λ r. r.0) done,
        ap (λ r. read_or_create (suc later) r.1) done
            ∙ read_there later new (fs.drawn + 1) h
            ∙ ap (λ r. (ok new, r.1)) (sym done),
      )
