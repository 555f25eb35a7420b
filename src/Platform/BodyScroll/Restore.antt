-- ===== src/Platform/BodyScroll/Restore.antt =====
-- Locks nest, and the last release gives the page back as the first lock found it.
use ledgerly_app.Base.{
  ℕ, suc, ◌+◌, ◌<◌, ◌≡◌, refl, sym, ap, Option, none, some, List, [], ◌∷◌, has, nat_eq, All,
  All-map, arith, Bool-cases, Option-cases, inl, inr, ◌-◌, length, ltb,
}
use ledgerly_app.Base.Tokens.{
  Distinct, without, has-fresh, without-absent, length-without, Distinct-without, without-All,
}
use ledgerly_app.Platform.BodyScroll.{
  BodyScrollStyles, BodyScrollLockState, Page, fixed_styles, lock_body_scroll, release,
}

-- With no lock the body has the styles `base` of its own and no closure is outstanding; with one, the
-- count is the number of closures that are, and `base` and the position are kept for the release.
abbrev Accounts : BodyScrollStyles → Option BodyScrollLockState → Page → Type 0
Accounts base none p = (p.held ≡ []) × (p.styles ≡ base)
Accounts base (some state) p =
    (0 < state.count)
    × (state.count ≡ length p.held)
    × (state.styles ≡ base)
    × (p.styles ≡ fixed_styles state.scroll_y)

pub record IsSound (base : BodyScrollStyles) (p : Page) : Type 0 where
  pub accounts : Accounts base p.state p
  pub distinct : Distinct p.held
  pub fresh : All (λ a. a < p.next) p.held

lock-Accounts :
    (base : BodyScrollStyles) (state : Option BodyScrollLockState) (p : Page)
    → p.state ≡ state
    → Accounts base state p
    → Accounts base (lock_body_scroll p).0.state (lock_body_scroll p).0
unfolding lock_body_scroll
lock-Accounts base none p e h = rw e (omega arith, ap (λ l. suc (length l)) (sym h.0), h.1, refl)
lock-Accounts base (some state) p e h = rw e (omega arith, omega arith, h.2, h.3)

lock-held :
    (p : Page)
    → ((lock_body_scroll p).0.held ≡ (lock_body_scroll p).1 ∷ p.held)
      × ((lock_body_scroll p).0.next ≡ p.next + 1)
      × ((lock_body_scroll p).1 ≡ p.next)
unfolding lock_body_scroll
lock-held p = elim (Option-cases p.state) [
  | inl e ↦ rw e (refl, refl, refl)
  | inr (state, e) ↦ rw e (refl, refl, refl)
]

pub lock-IsSound :
    (base : BodyScrollStyles) (p : Page) → IsSound base p → IsSound base (lock_body_scroll p).0
lock-IsSound base p h = record {
  accounts = lock-Accounts base p.state p refl h.accounts;
  distinct = rw ((lock-held p).0, (lock-held p).2) (has-fresh p.next p.held h.fresh, h.distinct);
  fresh =
      rw ((lock-held p).0, (lock-held p).1, (lock-held p).2)
        (omega arith, All-map (λ a r. omega (arith, (lock-held p).1)) p.held h.fresh);
}

empty_of_length : (xs : List ℕ) → length xs ≡ 0 → xs ≡ []
empty_of_length [] h = refl
empty_of_length (x ∷ xs) h = absurd (omega arith)

release-Accounts :
    (base : BodyScrollStyles) (a : ℕ) (state : Option BodyScrollLockState) (p : Page)
    → p.state ≡ state
    → Distinct p.held
    → Accounts base state p
    → Accounts base (release a p).state (release a p)
unfolding release
release-Accounts base a none p e d h = elim (Bool-cases (has a p.held)) [
  | inl live ↦ absurd (ground (arith, live, ap (has a) h.0))
  | inr gone ↦ rw (gone, release) (rw e h)
]
release-Accounts base a (some state) p e d h = elim (Bool-cases (has a p.held)) [
  | inl live ↦ elim (Bool-cases (ltb 0 (state.count - 1))) [
    | inl more ↦
        rw (live, release)
          (rw e (rw more (ground arith, ground (arith, length-without a p.held d live), h.2, h.3)))
    | inr last ↦
        rw (live, release)
          (rw e (rw last (empty_of_length _ (ground (arith, length-without a p.held d live)), h.2)))
  ]
  | inr gone ↦ rw (gone, release) (rw e h)
]

release-held :
    (a : ℕ) (p : Page) (state : BodyScrollLockState)
    → p.state ≡ some state
    → ((release a p).held ≡ without a p.held) × ((release a p).next ≡ p.next)
unfolding release
release-held a p state e = elim (Bool-cases (has a p.held)) [
  | inl live ↦ elim (Bool-cases (ltb 0 (state.count - 1))) [
    | inl more ↦ rw (live, release) (rw e (rw more (refl, refl)))
    | inr last ↦ rw (live, release) (rw e (rw last (refl, refl)))
  ]
  | inr gone ↦ rw (gone, release) (sym (without-absent a p.held gone), refl)
]

release-unlocked : (a : ℕ) (p : Page) → p.state ≡ none → release a p ≡ p
unfolding release
release-unlocked a p e = elim (Bool-cases (has a p.held)) [
  | inl live ↦ rw (live, release) (rw e)
  | inr gone ↦ rw (gone, release)
]

-- Using a closure, for the first time or again, keeps the page sound.
pub release-IsSound :
    (base : BodyScrollStyles) (a : ℕ) (p : Page) → IsSound base p → IsSound base (release a p)
release-IsSound base a p h = elim (Option-cases p.state) [
  | inl e ↦ rw (release-unlocked a p e) h
  | inr (state, e) ↦ record {
    accounts = release-Accounts base a p.state p refl h.distinct h.accounts;
    distinct = rw (release-held a p state e).0 (Distinct-without a p.held h.distinct);
    fresh =
        rw ((release-held a p state e).0, (release-held a p state e).1)
          (without-All (λ b. b < p.next) a p.held h.fresh);
  }
]

-- What happens to the page: locks, releases, and scrolling by the user.
pub data Step (p : Page) : Page → Type 0 where
  locks : Step p (lock_body_scroll p).0
  releases : (a : ℕ) → Step p (release a p)
  scrolls : (y : ℕ) → Step p (record p { scroll_y = y })

pub data Reach (p : Page) : Page → Type 0 where
  here : Reach p p
  next : {q r : Page} → Reach p q → Step q r → Reach p r

scroll-IsSound :
    (base : BodyScrollStyles) (p : Page) (y : ℕ)
    → IsSound base p
    → IsSound base (record p { scroll_y = y })
scroll-IsSound base p y h = record {
  accounts = go p.state h.accounts;
  distinct = h.distinct;
  fresh = h.fresh;
}
  where
    go :
        (state : Option BodyScrollLockState)
        → Accounts base state p
        → Accounts base state (record p { scroll_y = y })
    go none a = a
    go (some state) a = a

Step-IsSound : (base : BodyScrollStyles) {p q : Page} → IsSound base p → Step p q → IsSound base q
Step-IsSound base {p} h locks = lock-IsSound base p h
Step-IsSound base {p} h (releases a) = release-IsSound base a p h
Step-IsSound base {p} h (scrolls y) = scroll-IsSound base p y h

Reach-IsSound : (base : BodyScrollStyles) {p q : Page} → IsSound base p → Reach p q → IsSound base q
Reach-IsSound base h here = h
Reach-IsSound base h (next r st) = Step-IsSound base (Reach-IsSound base h r) st

-- From an unlocked page, after any locks, releases and scrolling in any order: when every closure
-- was used, the body has its own styles again; while one was not, it is held in place.
pub Reach-styles :
    (p q : Page)
    → p.state ≡ none
    → p.held ≡ []
    → Reach p q
    → (q.held ≡ [] → (q.state ≡ none) × (q.styles ≡ p.styles))
      × (0 < length q.held
          → (state : BodyScrollLockState) × (q.state ≡ some state)
            × (q.styles ≡ fixed_styles state.scroll_y))
Reach-styles p q e h r = go q.state refl (Reach-IsSound p.styles start r).accounts
  where
    start : IsSound p.styles p
    start = record { accounts = rw e (h, refl); distinct = rw h tt; fresh = rw h tt }

    go :
        (state : Option BodyScrollLockState)
        → q.state ≡ state
        → Accounts p.styles state q
        → (q.held ≡ [] → (q.state ≡ none) × (q.styles ≡ p.styles))
          × (0 < length q.held
              → (state : BodyScrollLockState) × (q.state ≡ some state)
                × (q.styles ≡ fixed_styles state.scroll_y))
    go none i a = (λ _. (i, a.1), λ k. absurd (omega (arith, ap length a.0)))
    go (some state) i a = (λ k. absurd (omega (arith, ap length k, a.0, a.1)), λ _. (state, i, a.3))

-- What a step from a locked page does to what the first lock saved.
abbrev Keeps : BodyScrollLockState → Page → Type 0
Keeps saved q =
    ((state : BodyScrollLockState) → q.state ≡ some state → state.scroll_y ≡ saved.scroll_y)
    × (q.state ≡ none → (q.scroll_y ≡ saved.scroll_y) × (q.styles ≡ saved.styles))

Keeps-of_locked :
    (saved state : BodyScrollLockState) (q : Page)
    → q.state ≡ some state
    → state.scroll_y ≡ saved.scroll_y
    → Keeps saved q
Keeps-of_locked saved state q e h = (λ other i. ground arith, λ n. absurd (ground arith))

release-Keeps :
    (a : ℕ) (p : Page) (saved : BodyScrollLockState)
    → p.state ≡ some saved
    → Keeps saved (release a p)
unfolding release
release-Keeps a p saved e = elim (Bool-cases (has a p.held)) [
  | inl live ↦ elim (Bool-cases (ltb 0 (saved.count - 1))) [
    | inl more ↦
        Keeps-of_locked saved (record saved { count = saved.count - 1 }) (release a p)
          (rw (live, release) (rw e (rw more))) refl
    | inr last ↦ rw (live, release) (rw e (rw last ((λ state i. absurd (cc)), λ n. (refl, refl))))
  ]
  | inr gone ↦ Keeps-of_locked saved saved (release a p) (rw (gone, release) e) refl
]

-- The position that the first lock saved stays saved while the page is locked, and the release that
-- unlocks the page scrolls to it and puts the saved styles back.
pub Step-saved :
    (p q : Page) (saved : BodyScrollLockState)
    → p.state ≡ some saved
    → Step p q
    → ((state : BodyScrollLockState) → q.state ≡ some state → state.scroll_y ≡ saved.scroll_y)
      × (q.state ≡ none → (q.scroll_y ≡ saved.scroll_y) × (q.styles ≡ saved.styles))
unfolding lock_body_scroll
Step-saved p q saved e locks =
    Keeps-of_locked saved (record saved { count = saved.count + 1 }) (lock_body_scroll p).0 (rw e)
      refl
Step-saved p q saved e (releases a) = release-Keeps a p saved e
Step-saved p q saved e (scrolls y) = Keeps-of_locked saved saved (record p { scroll_y = y }) e refl
