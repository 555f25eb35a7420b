-- ===== src/Examples/Splits.antt =====
-- Split transactions at concrete drafts.
use ledgerly_app.Base.{
  ◌≡◌, ◌↔◌, ◌<◌, ◌≤◌, refl, some, none, List, [], ◌∷◌, Text, codes, arith, All, length, get, any,
  ◌==◌, text_eq, Map, if◌then◌else◌, trim,
}
use ledgerly_app.Base.Decimal.{decimal, pad_start}
use ledgerly_app.Base.Doubles.{exact_limit, add_double}
use ledgerly_app.Splits.{
  TransactionSplitDraft, TransactionSplitInput, accepted, refused, invalid, total, empty,
  split_share_minor_from_major, validate_transaction_splits, share_message, read_draft,
}
use ledgerly_app.Splits.Loop.{readable, unreadable, noted, sum_minor, add_up}
use ledgerly_app.Splits.Validation.{IsSplitOf, validate-accepted_iff, entries}
use ledgerly_app.Splits.Refusals.{IsShare, splits_of, validate-IsShare, validate-invalid}
use ledgerly_app.Splits.Amounts.{print_major, split_share-print_major}

abbrev draft : Text → Text → TransactionSplitDraft
draft email amount = record { member_email = email; amount_major = amount }

abbrev two_drafts : List TransactionSplitDraft
two_drafts =
    draft (codes "ann@x.io") (codes " 12.5 ")
    ∷ draft (codes "bob@x.io") (codes "7.25")
    ∷ draft (codes "eve@x.io") (codes "  ")
    ∷ []

abbrev two_splits : List TransactionSplitInput
two_splits =
    record { member_email = codes "ann@x.io"; amount_minor = 1250 }
    ∷ record { member_email = codes "bob@x.io"; amount_minor = 725 }
    ∷ []

abbrev bad_drafts : List TransactionSplitDraft
bad_drafts = draft (codes "ann@x.io") (codes "1.234") ∷ draft (codes "bob@x.io") (codes "7") ∷ []

two_accepted : validate_transaction_splits two_drafts 1975 ≡ accepted two_splits 1975
unfolding validate_transaction_splits read_draft split_share_minor_from_major
two_accepted = refl

two_short : validate_transaction_splits two_drafts 2000 ≡ refused total two_splits 1975 []
unfolding validate_transaction_splits read_draft split_share_minor_from_major
two_short = refl

-- An unreadable share under the key that no message can have does not hinder the others.
proto_drafts :
    validate_transaction_splits
      (draft (codes "__proto__") (codes "x") ∷ draft (codes "bob@x.io") (codes "7") ∷ [])
      700
    ≡ accepted (record { member_email = codes "bob@x.io"; amount_minor = 700 } ∷ []) 700
unfolding validate_transaction_splits read_draft split_share_minor_from_major
proto_drafts = refl

-- 2 ^ 53 - 1 and 2 are added to 2 ^ 53, in a tie that goes to the even double.
rounded_sum : add_double 9_007_199_254_740_991 2 ≡ 9_007_199_254_740_992
unfolding add_double
rounded_sum = refl

none_entered : validate_transaction_splits [] 5 ≡ refused empty [] 0 []
unfolding validate_transaction_splits
none_entered = refl

validate-accepted_iff_example :
    ((validate_transaction_splits two_drafts 1975 ≡ accepted two_splits 1975)
      ↔ IsSplitOf two_drafts 1975 two_splits 1975)
    × (sum_minor two_splits ≤ exact_limit → add_up 0 two_splits ≡ sum_minor two_splits)
validate-accepted_iff_example = validate-accepted_iff two_drafts 1975 1975 two_splits

validate-IsShare_example : All IsShare (splits_of (validate_transaction_splits two_drafts 2000))
validate-IsShare_example = validate-IsShare two_drafts 2000

bad_found : 0 < length (noted (entries bad_drafts))
unfolding unreadable read_draft split_share_minor_from_major trim
bad_found = omega arith

validate-invalid_example :
    (errors : Map Text Text) × (validate_transaction_splits bad_drafts 700
      ≡ refused invalid
          (readable (entries bad_drafts))
          (add_up 0 (readable (entries bad_drafts)))
          errors)
    × ((k : Text)
        → get k errors ≡ (
            if any (λ d. d.member_email == k) (noted (entries bad_drafts))
            then some share_message
            else none))
validate-invalid_example = validate-invalid bad_drafts 700 bad_found

printed : print_major 1205 ≡ codes "12.05"
unfolding print_major decimal pad_start
printed = refl

split_share-print_major_example : split_share_minor_from_major (print_major 1205) ≡ some 1205
split_share-print_major_example = split_share-print_major 1205 (omega arith) (omega arith)
