-- ===== src/Splits/Refusals.antt =====
-- The refusals, and what holds of the shares in every answer.
use ledgerly_app.Base.{
  ℕ, ◌≤◌, ◌<◌, ◌≡◌, refl, ◌∙◌, true, false, Option, none, some, List, [], ◌∷◌, Text, arith, get,
  Bool-cases, inl, inr, length, any, ◌==◌, text_eq, if◌then◌else◌, Map, All, trim, Option-cases,
}
use ledgerly_app.Splits.{
  TransactionSplitDraft, TransactionSplitInput, TransactionSplitValidation, accepted, refused,
  invalid, Tally, read_draft, no_tally, conclude, validate_entered, validate_transaction_splits,
  share_message, share_value, split_share_minor_from_major, match_share, max_safe_integer,
  is_filled,
}
use ledgerly_app.Splits.Loop.{readable, noted, unreadable, add_up, tally-field_errors, readable-All}
use ledgerly_app.Splits.Validation.{entries, run, run-splits, run-allocated_minor, run-no_errors}

abbrev pub splits_of : TransactionSplitValidation → List TransactionSplitInput
splits_of (accepted splits _) = splits
splits_of (refused _ splits _ _) = splits

abbrev pub allocated_of : TransactionSplitValidation → ℕ
allocated_of (accepted _ n) = n
allocated_of (refused _ _ n _) = n

conclude-parts :
    (t : Tally) (amount : ℕ)
    → (splits_of (conclude t amount) ≡ t.splits)
      × (allocated_of (conclude t amount) ≡ t.allocated_minor)
unfolding conclude
conclude-parts t amount = ground arith

-- On every branch the shares are those of the readable entries, in order, and the allocated amount
-- is their sum as doubles are added.
pub validate_parts :
    (drafts : List TransactionSplitDraft) (amount : ℕ)
    → (splits_of (validate_transaction_splits drafts amount) ≡ readable (entries drafts))
      × (allocated_of (validate_transaction_splits drafts amount)
          ≡ add_up 0 (readable (entries drafts)))
unfolding validate_transaction_splits readable
validate_parts drafts amount = go (entries drafts)
  where
    go :
        (es : List TransactionSplitDraft)
        → (splits_of (validate_entered es amount) ≡ readable es)
          × (allocated_of (validate_entered es amount) ≡ add_up 0 (readable es))
    go [] = (refl, refl)
    go (d ∷ ds) = (
      (conclude-parts (run (d ∷ ds)) amount).0 ∙ run-splits (d ∷ ds),
      (conclude-parts (run (d ∷ ds)) amount).1 ∙ run-allocated_minor (d ∷ ds),
    )

-- What is sent to the server for a share.
pub record IsShare (s : TransactionSplitInput) : Type 0 where
  pub positive : 0 < s.amount_minor
  pub safe : s.amount_minor ≤ max_safe_integer
  pub addressed : is_filled s.member_email ≡ true

share_value_bounds :
    (m : Option (Text × Text)) (n : ℕ) → share_value m ≡ some n → (0 < n) × (n ≤ max_safe_integer)
unfolding share_value
share_value_bounds none n h = cc
share_value_bounds (some (major, frac)) n h = ground arith

pub split_share_bounds :
    (value : Text) (n : ℕ)
    → split_share_minor_from_major value ≡ some n
    → (0 < n) × (n ≤ max_safe_integer)
unfolding split_share_minor_from_major
split_share_bounds value n h = share_value_bounds (match_share [] false (trim value)) n h

read_draft-IsShare :
    (d : TransactionSplitDraft) (s : TransactionSplitInput) → read_draft d ≡ some s → IsShare s
unfolding read_draft
read_draft-IsShare d s h = elim (Bool-cases (is_filled (trim d.member_email))) [
  | inl named ↦ elim (Option-cases (split_share_minor_from_major d.amount_major)) [
    | inl bad ↦ ground arith
    | inr (n, good) ↦ record {
      positive = ground (arith, split_share_bounds d.amount_major n good);
      safe = ground (arith, split_share_bounds d.amount_major n good);
      addressed = ground arith;
    }
  ]
  | inr unnamed ↦ ground arith
]

-- Whatever the answer, every share in it is above zero, a safe integer, and has an email.
pub validate-IsShare :
    (drafts : List TransactionSplitDraft) (amount : ℕ)
    → All IsShare (splits_of (validate_transaction_splits drafts amount))
validate-IsShare drafts amount =
    rw (validate_parts drafts amount).0 (readable-All IsShare read_draft-IsShare (entries drafts))

-- With an entry that cannot be read, and whose email is not "__proto__", the answer is "invalid",
-- whatever the sum is, and the error message stands under the emails of those entries and under no
-- other key.
pub validate-invalid :
    (drafts : List TransactionSplitDraft) (amount : ℕ)
    → 0 < length (noted (entries drafts))
    → (errors : Map Text Text) × (validate_transaction_splits drafts amount
        ≡ refused invalid (readable (entries drafts)) (add_up 0 (readable (entries drafts))) errors)
      × ((k : Text)
          → get k errors ≡ (
              if any (λ d. d.member_email == k) (noted (entries drafts))
              then some share_message
              else none))
unfolding validate_transaction_splits unreadable conclude get
validate-invalid drafts amount h = go (entries drafts) h
  where
    go :
        (es : List TransactionSplitDraft)
        → 0 < length (noted es)
        → (errors : Map Text Text) × (validate_entered es amount
            ≡ refused invalid (readable es) (add_up 0 (readable es)) errors)
          × ((k : Text)
              → get k errors
                ≡ (if any (λ d. d.member_email == k) (noted es) then some share_message else none))
    go [] bad = absurd (omega arith)
    go (d ∷ ds) bad = (
      (run (d ∷ ds)).field_errors,
      ground (arith, run-no_errors (d ∷ ds), run-splits (d ∷ ds), run-allocated_minor (d ∷ ds)),
      tally-field_errors no_tally (d ∷ ds),
    )
