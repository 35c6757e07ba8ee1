-- ===== src/Havens/Locators.antt =====
-- src/haven_util.rs: the locator of a haven and its registration at a rendezvous point.
use earendil.Base.{ℕ, ◌≡◌, [], Result, ok}
use earendil.Crypto.{
  Bytes, Primitives, IsLawful, VerifyError, ascii, verify, public, sign, verify-sign,
}

pub record HavenLocator : Type 0 where
  pub identity_pk : ℕ
  pub onion_pk : ℕ
  pub rendezvous_point : ℕ
  pub signature : Bytes

pub record RegisterHavenReq : Type 0 where
  pub identity_pk : ℕ
  pub sig : Bytes
  pub unix_timestamp : ℕ

-- stdcode of the two.
pub record HavenCode : Type 0 where
  pub locator : HavenLocator → Bytes
  pub registration : RegisterHavenReq → Bytes

module _ (prim : Primitives) (code : HavenCode) where
  -- HavenLocator::to_sign
  unfoldable pub locator_to_sign : HavenLocator → Bytes
  locator_to_sign self =
      prim.keyed_hash (ascii "haven_locator___________________")
        (code.locator (record self { signature = [] }))

  -- HavenLocator::new
  unfoldable pub new_locator : ℕ → ℕ → ℕ → HavenLocator
  unfolding locator_to_sign
  new_locator identity_sk onion_pk rendezvous_fingerprint =
      let locator : HavenLocator = record {
        identity_pk = public prim identity_sk;
        onion_pk = onion_pk;
        rendezvous_point = rendezvous_fingerprint;
        signature = [];
      } in
      record locator { signature = sign prim identity_sk (locator_to_sign locator) }

  -- RegisterHavenReq::to_sign
  unfoldable pub registration_to_sign : RegisterHavenReq → Bytes
  registration_to_sign self =
      prim.keyed_hash (ascii "haven_registration______________")
        (code.registration (record self { sig = [] }))

  -- RegisterHavenReq::new
  unfoldable pub new_registration : ℕ → ℕ → RegisterHavenReq
  unfolding registration_to_sign
  new_registration identity_sk now =
      let reg : RegisterHavenReq = record {
        identity_pk = public prim identity_sk;
        sig = [];
        unix_timestamp = now;
      } in
      record reg { sig = sign prim identity_sk (registration_to_sign reg) }

  unfoldable pub verify_locator : HavenLocator → Result VerifyError (Unit {0})
  verify_locator locator =
      verify prim locator.identity_pk (locator_to_sign locator) locator.signature

  unfoldable pub verify_registration : RegisterHavenReq → Result VerifyError (Unit {0})
  verify_registration reg = verify prim reg.identity_pk (registration_to_sign reg) reg.sig

  module _ (lawful : IsLawful prim) where
    pub verify_locator-new_locator :
        (identity_sk onion_pk rendezvous : ℕ)
        → verify_locator (new_locator identity_sk onion_pk rendezvous) ≡ ok tt
    unfolding verify_locator new_locator locator_to_sign
    verify_locator-new_locator identity_sk onion_pk rendezvous =
        verify-sign prim lawful identity_sk _

    pub verify_registration-new_registration :
        (identity_sk now : ℕ) → verify_registration (new_registration identity_sk now) ≡ ok tt
    unfolding verify_registration new_registration registration_to_sign
    verify_registration-new_registration identity_sk now = verify-sign prim lawful identity_sk _
