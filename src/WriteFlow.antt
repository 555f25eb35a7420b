-- ===== src/WriteFlow.antt =====
-- web/src/pages/finance-writes/shared.ts, `useWriteFlow` and the field errors of forms: the life of a
-- dialog that writes. The request itself, the haptics and the query cache are outside: a request is
-- sent when `sent` grows, and `invalidated` lists the query keys that are invalidated.
pub mod Locking
pub mod Fields
use ledgerly_app.Base.{
  ℕ, suc, ◌+◌, Bool, true, false, not, ◌&&◌, ◌||◌, Option, none, some, List, [], ◌∷◌, ◌++◌, map,
  Text, codes, ◌==◌, text_eq, nat_eq, filter, has, if◌then◌else◌, Map, get, put, delete,
}

pub data Tone : Type 0 where
  success error info : Tone

pub record FinanceFeedback : Type 0 where
  pub tone : Tone
  pub message : Text

-- An error of the mutation: an `ApiError` with its field errors, if any, or another one.
pub data WriteError : Type 0 where
  api_error : Option (Map Text Text) → Text → WriteError
  other_error : WriteError

pub record WriteFlowOptions : Type 0 where
  pub invalidate : List Text
  pub invalidate_period_reviews : Bool
  pub success_message : Text
  pub workspace_id : Text

-- `lock` is lockRef, `close_timer` closeTimerRef, `armed` the timers that have neither run out nor
-- been cleared, `closed` counts the calls of `onClose`, `server_fields` has what `onServerFields` was
-- given.
pub record Flow (V : Type 0) : Type 0 where
  pub lock : Bool
  pub locked : Bool
  pub pending : Bool
  pub feedback : Option FinanceFeedback
  pub close_timer : Option ℕ
  pub armed : List ℕ
  pub next_timer : ℕ
  pub sent : List V
  pub written : ℕ
  pub closed : ℕ
  pub invalidated : List (List Text)
  pub server_fields : List (Map Text Text)

abbrev pub idle : (V : Type 0) → Flow V
idle V = record {
  lock = false;
  locked = false;
  pending = false;
  feedback = none;
  close_timer = none;
  armed = [];
  next_timer = 0;
  sent = [];
  written = 0;
  closed = 0;
  invalidated = [];
  server_fields = [];
}

-- `clearTimeout`, and what becomes of a timer that runs out.
abbrev pub clear : ℕ → List ℕ → List ℕ
clear timer armed = filter (λ other. not (timer == other)) armed

abbrev pub query_key : Text → Text → List Text
query_key workspace_id key =
    if key == codes "notifications" then codes "notifications" ∷ [] else key ∷ workspace_id ∷ []

abbrev pub period_reviews : Bool → Text → List (List Text)
period_reviews true workspace_id = (codes "period-reviews" ∷ workspace_id ∷ []) ∷ []
period_reviews false workspace_id = []

abbrev pub error_message : WriteError → Text
error_message (api_error (some fields) message) =
    codes "Check the highlighted fields and try again."
error_message (api_error none message) = message
error_message other_error = codes "The server could not save this change. No data was changed."

abbrev pub error_fields : WriteError → List (Map Text Text)
error_fields (api_error (some fields) message) = fields ∷ []
error_fields _ = []

module _ {V : Type 0} where
  -- The effect on `open`, which runs when it changes.
  unfoldable pub open_changes : Bool → Flow V → Flow V
  open_changes true f = record f { lock = false; locked = false; feedback = none }
  open_changes false f = elim f.close_timer [
    | none ↦ f
    | some timer ↦ record f { close_timer = none; armed = clear timer f.armed }
  ]

  unfoldable pub finish : Text → Flow V → Flow V
  finish message f = record f {
    feedback = some (record { tone = success; message = message });
    close_timer = some f.next_timer;
    armed = f.armed ++ f.next_timer ∷ [];
    next_timer = suc f.next_timer;
  }

  -- A timer runs out.
  unfoldable pub timer_fires : ℕ → Flow V → Flow V
  timer_fires timer f =
      if has timer f.armed
      then record f { closed = f.closed + 1; armed = clear timer f.armed }
      else f

  abbrev pub begun : Flow V → Flow V
  begun f = record f { lock = true; locked = true; feedback = none }

  -- `begin` and what the caller does if it lets it.
  unfoldable pub submit_live : V → Flow V → Flow V × Bool
  submit_live variables f =
      if f.lock || f.pending
      then (f, false)
      else (record (begun f) { pending = true; sent = f.sent ++ variables ∷ [] }, true)

  unfoldable pub complete_demo : Text → Flow V → Flow V × Bool
  unfolding finish
  complete_demo message f =
      if f.lock || f.pending
      then (f, false)
      else (finish message (record (begun f) { written = f.written + 1 }), true)

  -- `onSuccess`
  unfoldable pub on_success : WriteFlowOptions → Flow V → Flow V
  unfolding finish
  on_success options f = finish options.success_message (record f {
    pending = false;
    invalidated =
        f.invalidated
        ++ map (query_key options.workspace_id) options.invalidate
        ++ period_reviews options.invalidate_period_reviews options.workspace_id;
  })

  -- `onError`
  unfoldable pub on_error : WriteError → Flow V → Flow V
  on_error e f = record f {
    pending = false;
    lock = false;
    locked = false;
    server_fields = f.server_fields ++ error_fields e;
    feedback = some (record { tone = error; message = error_message e });
  }

  abbrev pub busy : Flow V → Bool
  busy f = f.locked || f.pending

-- `toFieldErrors`: an issue is the first part of its path, if it has one, and a message.
abbrev issue_field : Option Text → Text
issue_field none = codes "form"
issue_field (some field) = field

-- `!fields[field]`: an empty message counts as none.
abbrev pub lacks : Text → Map Text Text → Bool
lacks field fields = elim (get field fields) [ none ↦ true | some [] ↦ true | some (_ ∷ _) ↦ false ]

unfoldable pub add_issue : Map Text Text → Option Text × Text → Map Text Text
add_issue fields (path, message) =
    if lacks (issue_field path) fields then put (issue_field path) message fields else fields

unfoldable pub add_issues : Map Text Text → List (Option Text × Text) → Map Text Text
unfolding add_issue
add_issues fields [] = fields
add_issues fields (issue ∷ issues) = add_issues (add_issue fields issue) issues

unfoldable pub to_field_errors : List (Option Text × Text) → Map Text Text
unfolding add_issues
to_field_errors issues = add_issues [] issues

-- `aliases[field] ?? field`
abbrev pub aliased : Map Text Text → Text → Text
aliased aliases field = elim (get field aliases) [ none ↦ field | some name ↦ name ]

-- `Object.fromEntries` of the renamed entries.
unfoldable pub rename_fields : Map Text Text → Map Text Text → Map Text Text → Map Text Text
rename_fields aliases renamed [] = renamed
rename_fields aliases renamed ((field, message) ∷ fields) =
    rename_fields aliases (put (aliased aliases field) message renamed) fields

unfoldable pub map_server_fields : Map Text Text → Map Text Text → Map Text Text
unfolding rename_fields
map_server_fields fields aliases = rename_fields aliases [] fields

-- `clearFieldError`, as a function of the current errors.
unfoldable pub clear_field_error : Text → Map Text Text → Map Text Text
clear_field_error field current = if lacks field current then current else delete field current
