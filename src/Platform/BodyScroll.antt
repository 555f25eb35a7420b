-- ===== src/Platform/BodyScroll.antt =====
-- web/src/platform/body-scroll-lock.ts: the page stands still while something locks its scrolling.
-- A closure that `lockBodyScroll` returns is a number; `held` has those that are not released.
pub mod Restore
use ledgerly_app.Base.{
  ℕ, suc, ◌+◌, ◌-◌, Bool, true, false, not, Option, none, some, List, [], ◌∷◌, ◌++◌, Text, codes,
  filter, has, ltb, ◌==◌, nat_eq, if◌then◌else◌,
}
use ledgerly_app.Base.Decimal.{decimal}

pub record BodyScrollStyles : Type 0 where
  pub position : Text
  pub top : Text
  pub left : Text
  pub right : Text
  pub overflow : Text

pub record BodyScrollLockState : Type 0 where
  pub count : ℕ
  pub scroll_y : ℕ
  pub styles : BodyScrollStyles

-- The module's variable, and what it works on: the styles of the body and the window's position in
-- whole pixels, where `scrollTo` sets it. A browser may give a fraction of a pixel, or a position above
-- the page while it bounces; it is only kept, written as an offset and put back.
pub record Page : Type 0 where
  pub state : Option BodyScrollLockState
  pub styles : BodyScrollStyles
  pub scroll_y : ℕ
  pub held : List ℕ
  pub next : ℕ

-- The styles that hold the body in place.
abbrev pub fixed_styles : ℕ → BodyScrollStyles
fixed_styles scroll_y = record {
  position = codes "fixed";
  top = b'-' ∷ decimal scroll_y ++ codes "px";
  left = codes "0";
  right = codes "0";
  overflow = codes "hidden";
}

abbrev first_lock : Page → Page
first_lock p = record p {
  state = some (record { count = 0; scroll_y = p.scroll_y; styles = p.styles });
  styles = fixed_styles p.scroll_y;
}

abbrev take_hold : BodyScrollLockState → Page → Page × ℕ
take_hold state p = (
  record p {
    state = some (record state { count = state.count + 1 });
    held = p.next ∷ p.held;
    next = p.next + 1;
  },
  p.next,
)

abbrev lock_page : Option BodyScrollLockState → Page → Page × ℕ
lock_page (some state) p = take_hold state p
lock_page none p =
    take_hold (record { count = 0; scroll_y = p.scroll_y; styles = p.styles }) (first_lock p)

-- `lockBodyScroll` in a browser. (With no `document` it returns a closure that does nothing.)
unfoldable pub lock_body_scroll : Page → Page × ℕ
lock_body_scroll p = lock_page p.state p

abbrev release_from : ℕ → Option BodyScrollLockState → Page → Page
release_from a none p = p
release_from a (some state) p =
    let released = record p { held = filter (λ b. not (b == a)) p.held } in
    if ltb 0 (state.count - 1)
    then record released { state = some (record state { count = state.count - 1 }) }
    else record released { state = none; styles = state.styles; scroll_y = state.scroll_y }

-- The closure: `released || !state` ends it at once.
unfoldable pub release : ℕ → Page → Page
unfolding has
release a p = if not (has a p.held) then p else release_from a p.state p
