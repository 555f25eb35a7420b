-- ===== src/Splits/Loop.antt =====
-- What the loop over the entered drafts gathers.
use ledgerly_app.Base.{
  ℕ, ◌+◌, ◌<◌, ◌≡◌, refl, sym, ◌∙◌, none, some, List, [], ◌∷◌, ◌++◌, Text, append-nil, append_assoc,
  arith, get, put, get-put, Bool-cases, Option-cases, inl, inr, ltb, length, any, ◌==◌, text_eq,
  if◌then◌else◌, All, filter, not, suc, false, ◌≤◌, Map,
}
use ledgerly_app.Base.Doubles.{add_double, add_double-exact, exact_limit}
use ledgerly_app.Splits.{
  proto, set_field, TransactionSplitDraft, TransactionSplitInput, Tally, read_draft, tally,
  tally_draft, share_message,
}

-- The shares of the drafts that can be read, in order.
unfoldable pub readable : List TransactionSplitDraft → List TransactionSplitInput
readable [] = []
readable (d ∷ ds) = elim (read_draft d) [ none ↦ readable ds | some share ↦ share ∷ readable ds ]

-- The drafts that cannot.
unfoldable pub unreadable : List TransactionSplitDraft → List TransactionSplitDraft
unreadable [] = []
unreadable (d ∷ ds) = elim (read_draft d) [ none ↦ d ∷ unreadable ds | some share ↦ unreadable ds ]

-- Those whose email can be the key of a message.
abbrev pub noted : List TransactionSplitDraft → List TransactionSplitDraft
noted ds = filter (λ d. not (d.member_email == proto)) (unreadable ds)

-- The sum of the shares, and that of a run of additions of doubles that starts at `n`.
abbrev pub sum_minor : List TransactionSplitInput → ℕ
sum_minor [] = 0
sum_minor (s ∷ ss) = s.amount_minor + sum_minor ss

abbrev pub add_up : ℕ → List TransactionSplitInput → ℕ
add_up n [] = n
add_up n (s ∷ ss) = add_up (add_double n s.amount_minor) ss

-- Up to `2 ^ 53` the two are the same.
pub add_up-exact :
    (n : ℕ) (ss : List TransactionSplitInput)
    → n + sum_minor ss ≤ exact_limit
    → add_up n ss ≡ n + sum_minor ss
add_up-exact n [] h = omega arith
add_up-exact n (s ∷ ss) h =
    let here = add_double-exact n s.amount_minor (omega arith) in
    add_up-exact (add_double n s.amount_minor) ss (omega arith) ∙ omega arith

sum_minor-append :
    (xs ys : List TransactionSplitInput) → sum_minor (xs ++ ys) ≡ sum_minor xs + sum_minor ys
sum_minor-append [] ys = omega arith
sum_minor-append (x ∷ xs) ys = omega (arith, sum_minor-append xs ys)

pub tally-splits :
    (t : Tally) (ds : List TransactionSplitDraft) → (tally t ds).splits ≡ t.splits ++ readable ds
unfolding tally readable
tally-splits t [] = sym (append-nil t.splits)
tally-splits t (d ∷ ds) = elim (Option-cases (read_draft d)) [
  | inl unusable ↦ tally-splits (tally_draft t d) ds ∙ rw (unusable, readable, tally_draft)
  | inr (share, usable) ↦
      tally-splits (tally_draft t d) ds
      ∙ rw (usable, readable, tally_draft) (append_assoc t.splits (share ∷ []) (readable ds))
]

pub tally-allocated_minor :
    (t : Tally) (ds : List TransactionSplitDraft)
    → (tally t ds).allocated_minor ≡ add_up t.allocated_minor (readable ds)
unfolding tally readable
tally-allocated_minor t [] = refl
tally-allocated_minor t (d ∷ ds) = elim (Option-cases (read_draft d)) [
  | inl unusable ↦ tally-allocated_minor (tally_draft t d) ds ∙ rw (unusable, readable, tally_draft)
  | inr (share, usable) ↦
      tally-allocated_minor (tally_draft t d) ds ∙ rw (usable, readable, tally_draft)
]

set_field-noted :
    (d : TransactionSplitDraft) (k : Text) (m : Map Text Text) (es : List TransactionSplitDraft)
    → (if any (λ e. e.member_email == k) (filter (λ e. not (e.member_email == proto)) es)
        then some share_message
        else get k (set_field d.member_email share_message m))
      ≡ (if any (λ e. e.member_email == k) (filter (λ e. not (e.member_email == proto)) (d ∷ es))
          then some share_message
          else get k m)
unfolding set_field
set_field-noted d k m es = elim (Bool-cases (d.member_email == proto)) [
  | inl same ↦ rw same refl
  | inr other ↦ rw other (ground (arith, get-put d.member_email k share_message m))
]

-- Every such draft's email has the message, beside what was there.
pub tally-field_errors :
    (t : Tally) (ds : List TransactionSplitDraft) (k : Text)
    → get k (tally t ds).field_errors ≡ (
        if any (λ d. d.member_email == k) (noted ds)
        then some share_message
        else get k t.field_errors)
unfolding tally unreadable
tally-field_errors t [] k = refl
tally-field_errors t (d ∷ ds) k = elim (Option-cases (read_draft d)) [
  | inl unusable ↦
      tally-field_errors (tally_draft t d) ds k
      ∙ rw (unusable, unreadable, tally_draft) (set_field-noted d k t.field_errors (unreadable ds))
  | inr (share, usable) ↦
      tally-field_errors (tally_draft t d) ds k ∙ rw (usable, unreadable, tally_draft)
]

length-put-pos : (k v : Text) (m : List (Text × Text)) → 0 < length (put k v m)
unfolding put
length-put-pos k v [] = omega arith
length-put-pos k v ((j, w) ∷ m) = elim (Bool-cases (j == k)) [
  | inl same ↦ rw same (omega arith)
  | inr other ↦ rw other (omega arith)
]

length-set_field :
    (k v : Text) (m : List (Text × Text)) → k == proto ≡ false → 0 < length (set_field k v m)
unfolding set_field
length-set_field k v m h = rw h (length-put-pos k v m)

length-set_field-stays :
    (k v : Text) (m : List (Text × Text)) → 0 < length m → 0 < length (set_field k v m)
unfolding set_field
length-set_field-stays k v m h = elim (Bool-cases (k == proto)) [
  | inl same ↦ rw same h
  | inr other ↦ rw other (length-put-pos k v m)
]

positive : (n m : ℕ) → 0 < n → ltb 0 n ≡ ltb 0 (suc m)
positive n m h = ground arith

tally-errors_stay :
    (t : Tally) (ds : List TransactionSplitDraft)
    → 0 < length t.field_errors
    → 0 < length (tally t ds).field_errors
unfolding tally
tally-errors_stay t [] h = h
tally-errors_stay t (d ∷ ds) h = elim (Option-cases (read_draft d)) [
  | inl unusable ↦ tally-errors_stay (tally_draft t d) ds (
      rw (unusable, tally_draft)
        (length-set_field-stays d.member_email share_message t.field_errors h))
  | inr (share, usable) ↦ tally-errors_stay (tally_draft t d) ds (rw (usable, tally_draft) h)
]

-- No field error is noted exactly when every draft was readable, but for those with an email that can be
-- no key.
pub tally-no_errors_iff :
    (ds : List TransactionSplitDraft) (t : Tally)
    → length t.field_errors ≡ 0
    → (ltb 0 (length (tally t ds).field_errors)) ≡ ltb 0 (length (noted ds))
unfolding tally unreadable set_field
tally-no_errors_iff [] t h = rw h
tally-no_errors_iff (d ∷ ds) t h = elim (Option-cases (read_draft d)) [
  | inl unusable ↦ elim (Bool-cases (d.member_email == proto)) [
    | inl same ↦
        tally-no_errors_iff ds (tally_draft t d) (rw (unusable, tally_draft) (rw same h))
        ∙ rw (unusable, unreadable, tally_draft) (rw same refl)
    | inr other ↦
        rw (unusable, unreadable)
          (rw other (
            positive _ _ (
              tally-errors_stay (tally_draft t d) ds (
                rw (unusable, tally_draft)
                  (length-set_field d.member_email share_message t.field_errors other)))))
  ]
  | inr (share, usable) ↦
      tally-no_errors_iff ds (tally_draft t d) (rw (usable, unreadable, tally_draft) h)
      ∙ rw (usable, unreadable, tally_draft)
]

pub readable-All {κ} :
    (P : TransactionSplitInput → Type κ)
    → ((d : TransactionSplitDraft) (s : TransactionSplitInput) → read_draft d ≡ some s → P s)
    → (ds : List TransactionSplitDraft) → All P (readable ds)
unfolding readable
readable-All P f [] = tt
readable-All P f (d ∷ ds) = elim (Option-cases (read_draft d)) [
  | inl unusable ↦ rw (unusable, readable) (readable-All P f ds)
  | inr (share, usable) ↦ rw (usable, readable) (f d share usable, readable-All P f ds)
]
