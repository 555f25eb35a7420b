-- ===== src/Sharing/Shrinking.antt =====
-- A text that is tried with one code point less is encoded no longer.
use ledgerly_app.Base.{
  close, ℕ, zero, suc, ◌≤◌, ◌<◌, ◌≡◌, refl, sym, ◌∙◌, ap, true, false, List, [], ◌∷◌, ◌++◌, Text,
  arith, length, length-append, take, trim_end, is_space, Bool-cases, inl, inr, append_assoc,
  append-nil,
}
use ledgerly_app.Sharing.Texts.{ellipsis, concat}
use ledgerly_app.Sharing.Links.{IsEncoding, starts_low}
use ledgerly_app.Sharing.WhatsApp.{candidate, marked, fits}
use ledgerly_app.Sharing.Prefixes.{AllWhole}

-- What stands behind `s` in `t`, which begins no later than at the start of a code point if `after` does.
Extends : Text → Text → Text → Type 0
Extends after s t = (u : Text) × (t ≡ s ++ u) × (starts_low after ≡ false → starts_low u ≡ false)

close-Extends :
    (c : ℕ) (after s t : Text) → Extends after s t → Extends after (close c s) (close c t)
unfolding Extends
close-Extends c after (x ∷ s) t (u, e, h) = (u, ap (close c) e, h)
close-Extends c after [] t (u, e, h) = elim (Bool-cases (is_space c)) [
  | inl b ↦ rw b (close c t, refl, λ k. closed b t)
  | inr b ↦ rw b (u, ap (close c) e ∙ solid b u, h)
]
  where
    closed : is_space c ≡ true → (t : Text) → starts_low (close c t) ≡ false
    closed b [] = rw b refl
    closed b (d ∷ t) = ground arith

    solid : is_space c ≡ false → (t : Text) → close c t ≡ c ∷ t
    solid b [] = rw b refl
    solid b (d ∷ t) = refl

trim_end-whole : (t : Text) → starts_low t ≡ false → starts_low (trim_end t) ≡ false
unfolding trim_end
trim_end-whole [] h = refl
trim_end-whole (c ∷ t) h = go (trim_end t)
  where
    go : (u : Text) → starts_low (close c u) ≡ false
    go [] = elim (Bool-cases (is_space c)) [ inl b ↦ rw b refl | inr b ↦ rw b h ]
    go (d ∷ u) = h

trim_end-append : (s t : Text) → Extends t (trim_end s) (trim_end (s ++ t))
unfolding trim_end Extends
trim_end-append [] t = (trim_end t, refl, trim_end-whole t)
trim_end-append (c ∷ s) t = close-Extends c t (trim_end s) (trim_end (s ++ t)) (trim_end-append s t)

next_point :
    (i : ℕ) (ps : List Text)
    → i < length ps
    → AllWhole ps
    → (p : Text) × (concat (take (suc i) ps) ≡ concat (take i ps) ++ p) × (starts_low p ≡ false)
next_point i [] h whole = absurd (omega arith)
next_point zero (p ∷ ps) h whole = (p, append-nil p, whole.0)
next_point (suc i) (p ∷ ps) h whole =
    let (q, e, low) = next_point i ps (omega arith) whole.1 in
    (q, ap (λ s. p ++ s) e ∙ sym (append_assoc p (concat (take i ps)) q), low)

starts_low-append :
    (u v : Text) → starts_low u ≡ false → starts_low v ≡ false → starts_low (u ++ v) ≡ false
starts_low-append [] v h k = k
starts_low-append (c ∷ u) v h k = h

module _ (encode : Text → Text) (encoding : IsEncoding encode) where
  marked-shorter :
      (s u : Text)
      → starts_low u ≡ false
      → length (encode (marked s)) ≤ length (encode (marked (s ++ u)))
  marked-shorter [] u low = rw encoding.encode_nil (omega arith)
  marked-shorter (c ∷ s) u low = omega (
    arith,
    ap length (encoding.encode-append (c ∷ s) ellipsis refl),
    ap (λ t. length (encode t)) (append_assoc (c ∷ s) u ellipsis),
    ap length
        (encoding.encode-append (c ∷ s) (u ++ ellipsis) (starts_low-append u ellipsis low refl)),
    ap length (encoding.encode-append u ellipsis refl),
    length-append {A = ℕ} (encode (c ∷ s)) (encode ellipsis),
    length-append {A = ℕ} (encode (c ∷ s)) (encode (u ++ ellipsis)),
    length-append {A = ℕ} (encode u) (encode ellipsis),
  )

  candidate-shorter :
      (i : ℕ) (points : List Text)
      → i < length points
      → AllWhole points
      → length (encode (candidate points i)) ≤ length (encode (candidate points (suc i)))
  unfolding Extends
  candidate-shorter i points h whole =
      let (p, e, low) = next_point i points h whole in
      let (u, f, still) = trim_end-append (concat (take i points)) p in
      omega (
        arith,
        marked-shorter (trim_end (concat (take i points))) u (still low),
        ap (λ s. length (encode (marked s))) (ap trim_end e ∙ f),
      )

  -- A text that fits still fits with one code point less.
  pub fits_shorter :
      (bound i : ℕ) (points : List Text)
      → AllWhole points
      → i < length points
      → fits encode bound (candidate points (suc i)) ≡ true
      → fits encode bound (candidate points i) ≡ true
  fits_shorter bound i points whole h room = ground (arith, candidate-shorter i points h whole)
