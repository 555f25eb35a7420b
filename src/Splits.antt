-- ===== src/Splits.antt =====
-- web/src/lib/transaction-splits.ts: the shares of a split transaction. Amounts are doubles that are whole
-- and not negative.
pub mod Loop
pub mod Validation
pub mod Refusals
pub mod Amounts
use ledgerly_app.Base.{
  ℕ, ◌+◌, ◌*◌, Bool, true, false, ◌&&◌, not, Option, none, some, List, [], ◌∷◌, ◌++◌, Text, codes,
  is_digit, trim, filter, leb, ltb, ◌==◌, nat_eq, text_eq, if◌then◌else◌, Map, put, length,
}
use ledgerly_app.Base.Decimal.{digits_value}
use ledgerly_app.Base.Doubles.{add_double}

pub record TransactionSplitDraft : Type 0 where
  pub member_email : Text
  pub amount_major : Text

pub record TransactionSplitInput : Type 0 where
  pub member_email : Text
  pub amount_minor : ℕ

pub data Reason : Type 0 where
  empty invalid total : Reason

-- `ok` says which member of the union it is; `reason` is there when it is not `ok`.
pub data TransactionSplitValidation : Type 0 where
  accepted : List TransactionSplitInput → ℕ → TransactionSplitValidation
  refused : Reason → List TransactionSplitInput → ℕ → Map Text Text → TransactionSplitValidation

-- `Number.MAX_SAFE_INTEGER`
abbrev pub max_safe_integer : ℕ
max_safe_integer = 9_007_199_254_740_991

-- The match of /^\d+(?:\.\d{1,2})?$/: the digits before the point and, padded to two places, those
-- behind it. `seen` tells whether a digit was read.
unfoldable pub fraction : Text → Option Text
fraction [] = none
fraction (d ∷ []) = if is_digit d then some (d ∷ b'0' ∷ []) else none
fraction (d ∷ e ∷ []) = if is_digit d && is_digit e then some (d ∷ e ∷ []) else none
fraction (_ ∷ _ ∷ _ ∷ _) = none

unfoldable pub match_share : Text → Bool → Text → Option (Text × Text)
unfolding fraction
match_share major seen [] = if seen then some (major, b'0' ∷ b'0' ∷ []) else none
match_share major seen (c ∷ s) =
    let more = match_share (major ++ c ∷ []) true s in
    if is_digit c
    then more
    else if c == b'.' && seen
    then elim (fraction s) [ none ↦ none | some f ↦ some (major, f) ]
    else none

-- The result of a match as an amount, exact. A value above `max_safe_integer` is rounded by the
-- source, to a value that is above it too, so the test for a safe integer answers alike.
unfoldable pub share_value : Option (Text × Text) → Option ℕ
unfolding digits_value
share_value none = none
share_value (some (major, frac)) =
    let amount_minor = digits_value 0 major * 100 + digits_value 0 frac in
    if leb amount_minor max_safe_integer && ltb 0 amount_minor then some amount_minor else none

unfoldable pub split_share_minor_from_major : Text → Option ℕ
unfolding match_share share_value trim
split_share_minor_from_major value = share_value (match_share [] false (trim value))

-- Truthiness of a string.
abbrev pub is_filled : Text → Bool
is_filled [] = false
is_filled (_ ∷ _) = true

-- The variables of the loop of `validateTransactionSplits`.
pub record Tally : Type 0 where
  pub field_errors : Map Text Text
  pub splits : List TransactionSplitInput
  pub allocated_minor : ℕ

abbrev pub share_message : Text
share_message = codes "Enter a positive share with no more than two decimal places."

-- A draft's share, if the body of the loop takes it.
unfoldable pub read_draft : TransactionSplitDraft → Option TransactionSplitInput
unfolding trim
read_draft draft =
    if is_filled (trim draft.member_email)
    then elim (split_share_minor_from_major draft.amount_major) [
      | none ↦ none
      | some amount ↦
          some (record { member_email = trim draft.member_email; amount_minor = amount })
    ]
    else none

abbrev pub proto : Text
proto = codes "__proto__"

-- `fieldErrors[key] = message`. To give a plain object's `__proto__` a text has no effect.
unfoldable pub set_field : Text → Text → Map Text Text → Map Text Text
unfolding put
set_field key message m = if key == proto then m else put key message m

-- One round: an unusable draft is noted under its email and skipped. `+=` adds doubles.
unfoldable pub tally_draft : Tally → TransactionSplitDraft → Tally
unfolding set_field add_double
tally_draft t draft = elim (read_draft draft) [
  | none ↦ record t { field_errors = set_field draft.member_email share_message t.field_errors }
  | some share ↦ record t {
    splits = t.splits ++ share ∷ [];
    allocated_minor = add_double t.allocated_minor share.amount_minor;
  }
]

unfoldable pub tally : Tally → List TransactionSplitDraft → Tally
unfolding tally_draft
tally t [] = t
tally t (draft ∷ drafts) = tally (tally_draft t draft) drafts

abbrev pub no_tally : Tally
no_tally = record { field_errors = []; splits = []; allocated_minor = 0 }

-- The decision behind the loop.
unfoldable pub conclude : Tally → ℕ → TransactionSplitValidation
conclude t amount =
    if ltb 0 (length t.field_errors)
    then refused invalid t.splits t.allocated_minor t.field_errors
    else if not (t.allocated_minor == amount)
    then refused total t.splits t.allocated_minor t.field_errors
    else accepted t.splits t.allocated_minor

abbrev pub entered : TransactionSplitDraft → Bool
entered draft = is_filled (trim draft.amount_major)

unfoldable pub validate_entered : List TransactionSplitDraft → ℕ → TransactionSplitValidation
unfolding conclude tally
validate_entered [] amount = refused empty [] 0 []
validate_entered (draft ∷ drafts) amount = conclude (tally no_tally (draft ∷ drafts)) amount

unfoldable pub validate_transaction_splits :
    List TransactionSplitDraft → ℕ → TransactionSplitValidation
unfolding validate_entered
validate_transaction_splits drafts amount = validate_entered (filter entered drafts) amount
