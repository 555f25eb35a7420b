-- ===== src/Session/Workspaces.antt =====
-- The workspaces of a session. `answer` is what the API returns, none where it throws.
use ledgerly_app.Base.{
  Bool, true, false, not, ◌&&◌, Option, none, some, List, [], ◌∷◌, Text, ◌==◌, text_eq,
  if◌then◌else◌,
}
use ledgerly_app.Session.Stored.{
  Workspace, find_workspace, or_else, stored_default_workspace_id, select_available_workspace,
}
use ledgerly_app.Session.App.{App, is_unlocked}
use ledgerly_app.Session.Login.{clear_queries, sign_out}

abbrev pub is_text : Text → Bool
is_text [] = false
is_text (_ ∷ _) = true

abbrev pub show_workspace : Option Workspace → App → App
show_workspace none app = app
show_workspace (some w) app = record app {
  workspace = w;
  stored = record (app.stored) { workspace = some w };
}

-- The workspace that a refresh selects; a preferred id that is missing is the empty one.
abbrev pub refreshed_workspace : List Workspace → Text → App → Option Workspace
refreshed_workspace available preferred_id app =
    let preferred = or_else (find_workspace preferred_id available) app.stored.workspace in
    if is_text preferred_id
    then select_available_workspace available preferred preferred_id
    else select_available_workspace available preferred (stored_default_workspace_id app.stored)

-- How `refreshWorkspaces` ends: with the workspaces that it read, or by an exception.
pub data RefreshResult : Type 0 where
  refreshed : App → RefreshResult
  refresh_failed : App → RefreshResult

unfoldable pub refresh_workspaces : Text → Option (List Workspace) → App → RefreshResult
unfolding select_available_workspace
refresh_workspaces preferred_id none app = refresh_failed app
refresh_workspaces preferred_id (some []) app = refresh_failed app
refresh_workspaces preferred_id (some (w ∷ ws)) app = refreshed (
    show_workspace (refreshed_workspace (w ∷ ws) preferred_id app)
      (record (clear_queries app) { available_workspaces = w ∷ ws }))

abbrev pub app_after : RefreshResult → App
app_after (refreshed app) = app
app_after (refresh_failed app) = app

abbrev pub restore_is_due : App → Bool
restore_is_due app =
    not app.demo_mode && app.is_authenticated && is_unlocked app.device_access && app.needs_refresh

-- The effect that refreshes a restored session, once; its errors are dropped.
unfoldable pub restore_effect : Option (List Workspace) → App → App
unfolding refresh_workspaces
restore_effect answer app =
    if restore_is_due app
    then app_after (refresh_workspaces [] answer (record app { needs_refresh = false }))
    else app

abbrev pub is_available : Text → List Workspace → Bool
is_available id [] = false
is_available id (w ∷ ws) = if w.id == id then true else is_available id ws

-- The default that a deletion leaves; the workspaces are `first` and `others`.
abbrev pub next_default : Text → Workspace → List Workspace → Text
next_default id first others = if is_available id (first ∷ others) then id else first.id

-- `null` where the workspace that is shown is the deleted one.
abbrev pub preferred_after : Text → App → Option Workspace
preferred_after id app = if id == app.workspace.id then none else some app.workspace

abbrev pub keep_default : Text → App → App
keep_default id app = record app {
  default_workspace_id = id;
  stored = record (app.stored) { default_workspace_id = some id };
}

unfoldable pub after_delete : Text → List Workspace → App → App
unfolding sign_out select_available_workspace
after_delete id [] app = sign_out (clear_queries app)
after_delete id (w ∷ ws) app =
    let default_id = next_default app.default_workspace_id w ws in
    show_workspace (select_available_workspace (w ∷ ws) (preferred_after id app) default_id)
      (keep_default default_id (record (clear_queries app) { available_workspaces = w ∷ ws }))

-- `deleteWorkspace`; `deleted` is false where the request to delete throws.
unfoldable pub delete_workspace : Text → Bool → Option (List Workspace) → App → App
unfolding after_delete
delete_workspace id false answer app = app
delete_workspace id true none app = app
delete_workspace id true (some ws) app = if app.demo_mode then app else after_delete id ws app

unfoldable pub set_workspace : Workspace → App → App
set_workspace next app = show_workspace (find_workspace next.id app.available_workspaces) app

abbrev pub show_as_default : Option Workspace → App → App
show_as_default none app = app
show_as_default (some w) app = show_workspace (some w) (keep_default w.id app)

unfoldable pub set_default_workspace : Workspace → App → App
set_default_workspace next app =
    show_as_default (find_workspace next.id app.available_workspaces) app
