-- ===== src/WriteFlow/Fields.antt =====
-- The messages under the fields of a form.
use ledgerly_app.Base.{
  ◌≡◌, refl, ◌∙◌, true, false, Option, none, some, List, [], ◌∷◌, Text, ◌==◌, text_eq,
  if◌then◌else◌, Map, get, get-put, ap, text_beq_iff, get-delete, arith,
}
use ledgerly_app.WriteFlow.{
  issue_field, lacks, add_issue, add_issues, to_field_errors, clear_field_error,
}

abbrev pub unless_shown : Option Text → Text → Option Text
unless_shown none message = some message
unless_shown (some []) message = some message
unless_shown (some (u ∷ us)) message = some (u ∷ us)

-- The first message of a field that is not empty; with none, the field's last message, if any.
unfoldable pub shown_message : Option Text → Text → List (Option Text × Text) → Option Text
shown_message shown field [] = shown
shown_message shown field ((path, message) ∷ issues) =
    shown_message (if issue_field path == field then unless_shown shown message else shown) field
      issues

get-add_issue :
    (fields : Map Text Text) (path : Option Text) (message field : Text)
    → get field (add_issue fields (path, message)) ≡ (
        if issue_field path == field
        then unless_shown (get field fields) message
        else get field fields)
unfolding add_issue
get-add_issue fields path message field =
    ground (
      arith,
      get-put (issue_field path) field message fields,
      text_beq_iff (issue_field path) field,
    )

get-add_issues :
    (fields : Map Text Text) (issues : List (Option Text × Text)) (field : Text)
    → get field (add_issues fields issues) ≡ shown_message (get field fields) field issues
unfolding add_issues shown_message
get-add_issues fields [] field = refl
get-add_issues fields ((path, message) ∷ issues) field =
    get-add_issues (add_issue fields (path, message)) issues field
    ∙ ap (λ shown. shown_message shown field issues) (get-add_issue fields path message field)

-- Under every field stands its first message that is not empty or, when all its messages are empty,
-- an empty one; under a field with no issue there is none.
pub to_field_errors-first :
    (issues : List (Option Text × Text)) (field : Text)
    → get field (to_field_errors issues) ≡ shown_message none field issues
unfolding to_field_errors get
to_field_errors-first issues field = get-add_issues [] issues field

-- After a field's error is cleared it has no message but an empty one, and every other field has the
-- message it had.
pub clear_field_error_lem :
    (field : Text) (current : Map Text Text) (other : Text)
    → (lacks field (clear_field_error field current) ≡ true)
      × ((other == field) ≡ false → get other (clear_field_error field current) ≡ get other current)
unfolding clear_field_error
clear_field_error_lem field current other = ground (
  arith,
  get-delete field other current,
  get-delete field field current,
  text_beq_iff field field,
  text_beq_iff other field,
  text_beq_iff field other,
)
