-- ===== src/Splits/Validation.antt =====
-- What each answer of `validateTransactionSplits` says of the drafts.
use ledgerly_app.Base.{
  ℕ, ◌<◌, ◌≤◌, ◌≡◌, ◌↔◌, refl, sym, ◌∙◌, ap, false, Option, none, some, List, [], ◌∷◌, arith,
  Bool-cases, inl, inr, ltb, length, filter, nat_eq, nat_beq_iff, text_eq,
}
use ledgerly_app.Base.Doubles.{exact_limit}
use ledgerly_app.Splits.{
  TransactionSplitDraft, TransactionSplitInput, TransactionSplitValidation, accepted, refused,
  Reason, Tally, tally, no_tally, conclude, entered, validate_entered, validate_transaction_splits,
}
use ledgerly_app.Splits.Loop.{
  readable, noted, sum_minor, add_up, add_up-exact, tally-splits, tally-allocated_minor,
  tally-no_errors_iff,
}

-- The drafts that the validation reads.
abbrev pub entries : List TransactionSplitDraft → List TransactionSplitDraft
entries drafts = filter entered drafts

-- What an accepted split is.
pub record IsSplitOf (drafts : List TransactionSplitDraft) (amount : ℕ)
    (splits : List TransactionSplitInput) (allocated : ℕ) : Type 0 where
  pub some_entered : 0 < length (entries drafts)
  pub all_readable : noted (entries drafts) ≡ []
  pub shares : splits ≡ readable (entries drafts)
  pub allocated_sum : allocated ≡ add_up 0 splits
  pub allocated_amount : allocated ≡ amount

refusal_reason : TransactionSplitValidation → Option Reason
refusal_reason (accepted _ _) = none
refusal_reason (refused r _ _ _) = some r

length-eq_zero : {A : Type 0} (xs : List A) → ltb 0 (length xs) ≡ false → xs ≡ []
length-eq_zero [] h = refl
length-eq_zero (x ∷ xs) h = ground arith

module _ (ds : List TransactionSplitDraft) where
  abbrev pub run : Tally
  run = tally no_tally ds

  pub run-splits : run.splits ≡ readable ds
  run-splits = tally-splits no_tally ds

  pub run-allocated_minor : run.allocated_minor ≡ add_up 0 (readable ds)
  run-allocated_minor = tally-allocated_minor no_tally ds

  pub run-no_errors : ltb 0 (length run.field_errors) ≡ ltb 0 (length (noted ds))
  run-no_errors = tally-no_errors_iff ds no_tally refl

  conclude-accepted :
      (amount n : ℕ) (splits : List TransactionSplitInput)
      → conclude run amount ≡ accepted splits n
      → (noted ds ≡ []) × (splits ≡ readable ds) × (n ≡ add_up 0 (readable ds)) × (n ≡ amount)
  unfolding conclude
  conclude-accepted amount n splits h = elim (Bool-cases (ltb 0 (length (noted ds)))) [
    | inl bad ↦ ground (arith, run-no_errors)
    | inr good ↦ (
      length-eq_zero _ good,
      ground (arith, run-no_errors, run-splits),
      ground (arith, run-no_errors, run-allocated_minor),
      ground (arith, run-no_errors, nat_beq_iff run.allocated_minor amount),
    )
  ]

  accepted-conclude :
      (amount : ℕ)
      → noted ds ≡ []
      → add_up 0 (readable ds) ≡ amount
      → conclude run amount ≡ accepted (readable ds) amount
  unfolding conclude
  accepted-conclude amount good sum =
      ground (arith, run-no_errors, ap length good, run-splits, run-allocated_minor)

-- A split is accepted exactly when some draft is entered, every entered draft has an email and a
-- share that can be read or has the email "__proto__", and the shares that can be read, which are the
-- answer, add up to the transaction's amount as doubles are added: exactly, up to 2 ^ 53.
pub validate-accepted_iff :
    (drafts : List TransactionSplitDraft) (amount n : ℕ) (splits : List TransactionSplitInput)
    → ((validate_transaction_splits drafts amount ≡ accepted splits n)
        ↔ IsSplitOf drafts amount splits n)
      × (sum_minor splits ≤ exact_limit → add_up 0 splits ≡ sum_minor splits)
unfolding validate_transaction_splits
validate-accepted_iff drafts amount n splits = (
  (to (entries drafts) refl, from (entries drafts) refl),
  λ h. add_up-exact 0 splits (omega arith) ∙ omega arith,
)
  where
    to :
        (es : List TransactionSplitDraft)
        → entries drafts ≡ es
        → validate_entered es amount ≡ accepted splits n
        → IsSplitOf drafts amount splits n
    to [] e h = cc
    to (d ∷ ds) e h =
        let (good, shares, sum, same) = conclude-accepted (d ∷ ds) amount n splits h in
        record {
          some_entered = rw e (omega arith);
          all_readable = rw e good;
          shares = rw e shares;
          allocated_sum = sum ∙ ap (add_up 0) (sym shares);
          allocated_amount = same;
        }

    from :
        (es : List TransactionSplitDraft)
        → entries drafts ≡ es
        → IsSplitOf drafts amount splits n
        → validate_entered es amount ≡ accepted splits n
    from [] e h = absurd (omega (arith, ap length e, h.some_entered))
    from (d ∷ ds) e h =
        accepted-conclude (d ∷ ds) amount (rw e at h.all_readable)
          (ap (add_up 0) (rw e at (sym h.shares)) ∙ sym h.allocated_sum ∙ h.allocated_amount)
        ∙ ground (arith, h.shares, h.allocated_amount, e)
