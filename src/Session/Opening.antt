-- ===== src/Session/Opening.antt =====
-- How a locked device is opened.
use ledgerly_app.Base.{
  ◌≡◌, ◌↔◌, ℕ, refl, sym, ap, ◌∙◌, Bool, true, false, not, ◌&&◌, none, some, [], ◌∷◌, Text, arith,
  inl, inr, Bool-cases, if◌then◌else◌, map, lower_unit, codes, List,
}
use ledgerly_app.Session.Pins.{
  to_hex, is_pin, is_digest, hash_device_pin, verify_device_pin, validate_device_pin,
}
use ledgerly_app.Session.Stored.{Stored, read_stored}
use ledgerly_app.Session.App.{
  App, DeviceAccessState, unlocked, setup, locked, is_unlocked, remembered_session, initial,
  is_gated, restore_remembered_api_token,
}
use ledgerly_app.Session.Gate.{
  Gate, submit, set_up, configure_device_pin, submit_pin, try_pin, unlock, unlock_device,
  digest_text, say,
}
use ledgerly_app.Session.Hex.{IsSha256, to_hex-is_digest, to_hex-lower}
use ledgerly_app.Session.Digest.{verify_device_pin_iff}

is_unlocked_iff : (state : DeviceAccessState) → (is_unlocked state ≡ true) ↔ (state ≡ unlocked)
is_unlocked_iff unlocked = ground arith
is_unlocked_iff setup = ground arith
is_unlocked_iff locked = ground arith

guarded : (b p x : Bool) → b ≡ false → p ≡ true → (not b && (p && x)) ≡ x
guarded b p x e k = rw (e, k) refl

opened_if :
    (b : Bool) (gate other : Gate) (app : App)
    → app.device_access ≡ locked
    → is_unlocked
        (if◌then◌else◌ {A = Gate × App} b (gate, unlock_device app) (other, app)).1.device_access
      ≡ b
unfolding unlock_device
opened_if true gate other app a = refl
opened_if false gate other app a = rw a refl

module _ (sha256 : Text → List ℕ) where
  unlock-is_unlocked :
      (gate : Gate) (app : App)
      → app.device_access ≡ locked
      → is_unlocked (unlock sha256 gate app).1.device_access
        ≡ verify_device_pin sha256 gate.pin (digest_text app.app_pin_digest)
  unfolding unlock
  unlock-is_unlocked gate app a =
      opened_if (verify_device_pin sha256 gate.pin (digest_text app.app_pin_digest)) gate _ app a

  submit-free :
      (works : Bool) (gate : Gate) (app : App)
      → gate.is_submitting ≡ false
      → is_pin gate.pin ≡ true
      → submit sha256 works gate app ≡ submit_pin sha256 works none gate app
  unfolding submit validate_device_pin
  submit-free works gate app s p =
      ap
        (λ b.
          if◌then◌else◌ {A = Gate × App} b (gate, app)
            (submit_pin sha256 works (validate_device_pin gate.pin) gate app))
        s
      ∙ ap
          (λ b.
            submit_pin sha256 works (if b then none else some (codes "Use a 6 digit app PIN.")) gate
              app)
          p

  submit_pin-locked :
      (works : Bool) (gate : Gate) (app : App) (c : ℕ) (digest : Text)
      → app.device_access ≡ locked
      → app.app_pin_digest ≡ some (c ∷ digest)
      → submit_pin sha256 works none gate app ≡ try_pin sha256 false works (say [] gate) app
  unfolding submit_pin
  submit_pin-locked works gate app c digest a d = rw (a, d) refl

  try_pin-is_unlocked :
      (works : Bool) (gate : Gate) (app : App)
      → app.device_access ≡ locked
      → is_unlocked (try_pin sha256 false works gate app).1.device_access
        ≡ (works && verify_device_pin sha256 gate.pin (digest_text app.app_pin_digest))
  unfolding try_pin
  try_pin-is_unlocked true gate app a = unlock-is_unlocked gate app a
  try_pin-is_unlocked false gate app a = ap is_unlocked a

  submit-is_unlocked :
      (works : Bool) (gate : Gate) (app : App) (c : ℕ) (digest : Text)
      → app.device_access ≡ locked
      → app.app_pin_digest ≡ some (c ∷ digest)
      → is_unlocked (submit sha256 works gate app).1.device_access ≡ (
          not gate.is_submitting
          && (is_pin gate.pin && (works && verify_device_pin sha256 gate.pin (c ∷ digest))))
  unfolding submit submit_pin validate_device_pin
  submit-is_unlocked works gate app c digest a d = elim (Bool-cases gate.is_submitting) [
    | inl s ↦ rw (s, a) refl
    | inr s ↦ elim (Bool-cases (is_pin gate.pin)) [
      | inr p ↦ rw (s, p, a) refl
      | inl p ↦
          ap (λ r. is_unlocked r.1.device_access)
            (submit-free works gate app s p ∙ submit_pin-locked works gate app c digest a d)
          ∙ try_pin-is_unlocked works (say [] gate) app a
          ∙ ap (λ o. works && verify_device_pin sha256 gate.pin (digest_text o)) d
          ∙ sym (guarded gate.is_submitting (is_pin gate.pin) _ s p)
    ]
  ]

  -- A locked device with a digest is opened by a submission exactly if none is being made, hashing
  -- works, and the PIN has six digits and hashes to the digest, which is one, in lower case.
  pub submit-opens_iff :
      (works : Bool) (gate : Gate) (app : App) (digest : Text)
      → app.device_access ≡ locked
      → app.app_pin_digest ≡ some digest
      → is_digest digest ≡ true
      → ((submit sha256 works gate app).1.device_access ≡ unlocked) ↔ (
          (gate.is_submitting ≡ false)
          × (works ≡ true)
          × (is_pin gate.pin ≡ true)
          × (to_hex (sha256 gate.pin) ≡ map lower_unit digest))
  submit-opens_iff works gate app [] a d g = ground arith
  submit-opens_iff works gate app (c ∷ digest) a d g =
      let opened = submit-is_unlocked works gate app c digest a d in
      let verified = verify_device_pin_iff sha256 gate.pin (c ∷ digest) in
      ground (arith, is_unlocked_iff (submit sha256 works gate app).1.device_access)

  submit_pin-setup :
      (gate : Gate) (app : App)
      → app.device_access ≡ setup
      → is_pin gate.pin ≡ true
      → submit_pin sha256 true none gate app
        ≡ (say [] gate, configure_device_pin (to_hex (sha256 gate.pin)) app)
  unfolding submit_pin try_pin set_up hash_device_pin
  submit_pin-setup gate app a p = rw (a, p) refl

remembered_session-demo :
    (s : Stored) → remembered_session s ≡ true → read_stored s.demo false ≡ false
remembered_session-demo s h = ground arith

-- The device of `app` is locked by the PIN of a digest.
abbrev pub IsLockedBy : Text → App → Type 0
IsLockedBy digest app =
    (is_gated app ≡ true) × (app.device_access ≡ locked) × (app.app_pin_digest ≡ some digest)

configured-IsLockedBy :
    (to_upper_case : Text → Text) (digest : Text) (app : App)
    → remembered_session app.stored ≡ true
    → is_digest digest ≡ true
    → IsLockedBy digest (initial to_upper_case (configure_device_pin digest app).stored)
unfolding initial configure_device_pin restore_remembered_api_token
configured-IsLockedBy to_upper_case digest app r d =
    rw (d, r, remembered_session-demo app.stored r) (refl, refl, refl)

abbrev pub IsOpenedBy : (Text → Text) → Gate → App → Type 0
IsOpenedBy sha256 gate app = (submit sha256 true gate app).1.device_access ≡ unlocked

module _ (to_upper_case : Text → Text) (sha256 : Text → List ℕ) where
  -- Where a remembered session asks for a new PIN and is given one of six digits, a restart is locked
  -- by that PIN's digest, and is opened by a submission of hashing that works exactly if the PIN then
  -- given has six digits and the same digest. SHA-256 gives 32 bytes.
  pub submit-initial-submit :
      (gate other : Gate) (app : App)
      → app.device_access ≡ setup
      → gate.is_submitting ≡ false
      → is_pin gate.pin ≡ true
      → remembered_session app.stored ≡ true
      → IsSha256 sha256
      → other.is_submitting ≡ false
      → IsLockedBy
          (to_hex (sha256 gate.pin))
          (initial to_upper_case (submit sha256 true gate app).1.stored)
        × (IsOpenedBy sha256 other (initial to_upper_case (submit sha256 true gate app).1.stored)
            ↔ ((is_pin other.pin ≡ true) × (to_hex (sha256 other.pin) ≡ to_hex (sha256 gate.pin))))
  submit-initial-submit gate other app a s p r sha o =
      let d = to_hex-is_digest (sha256 gate.pin) (sha gate.pin).0 (sha gate.pin).1 in
      let low = to_hex-lower (sha256 gate.pin) (sha gate.pin).1 in
      let set = submit-free sha256 true gate app s p ∙ submit_pin-setup sha256 gate app a p in
      let closed = configured-IsLockedBy to_upper_case (to_hex (sha256 gate.pin)) app r d in
      let opening =
        submit-opens_iff sha256 true other _ (to_hex (sha256 gate.pin)) closed.1 closed.2 d in
      rw set (
        closed,
        (
          λ h. ((opening.0 h).2, (opening.0 h).3 ∙ low),
          λ h. opening.1 (o, refl, h.0, h.1 ∙ sym low),
        ),
      )
