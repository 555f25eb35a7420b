-- ===== src/Settings/Sessions.antt =====
-- When a session is active.
use ledgerly_app.Base.{
  ℕ, ◌<◌, ◌≡◌, ◌↔◌, refl, false, Option, some, Text, codes, arith, leb, Bool-cases, inl, inr,
  Option-cases,
}
use ledgerly_app.Settings.{AuthSession, positive, is_set, is_over, get_session_state}

-- A session is shown as active exactly when it was not revoked and its readable date of expiry is
-- later than now; then and only then its tone is positive.
pub active_iff :
    (time_of : Text → Option ℕ) (now : ℕ) (session : AuthSession)
    → ((get_session_state time_of now session).label ≡ codes "Active"
        ↔ (is_set session.revoked_at ≡ false)
          × ((time : ℕ) × (time_of session.expires_at ≡ some time) × (now < time)))
      × ((get_session_state time_of now session).tone ≡ positive
          ↔ (get_session_state time_of now session).label ≡ codes "Active")
unfolding get_session_state
active_iff time_of now session = elim (Bool-cases (is_set session.revoked_at)) [
  | inl revoked ↦
      rw revoked ((λ h. ground arith, λ h. ground arith), (λ h. ground arith, λ h. ground arith))
  | inr kept ↦ elim (Option-cases (time_of session.expires_at)) [
    | inl unreadable ↦
        rw (kept, unreadable, is_over)
          ((λ h. ground arith, λ (k, (t, e, l)). cc), (λ h. ground arith, λ h. ground arith))
    | inr (time, readable) ↦ elim (Bool-cases (leb time now)) [
      | inl over ↦
          rw (kept, readable, is_over)
            (rw over (
              (λ h. ground arith, λ (k, (t, e, l)). absurd (ground (arith))),
              (λ h. ground arith, λ h. ground arith),
            ))
      | inr later ↦
          rw (kept, readable, is_over)
            (rw later
              ((λ h. (refl, (time, refl, ground (arith))), λ h. refl), (λ h. refl, λ h. refl)))
    ]
  ]
]
