-- ===== src/Examples/BodyScroll.antt =====
-- Two nested locks of a page that was scrolled.
use ledgerly_app.Base.{◌≡◌, ◌<◌, refl, [], codes, some, none, length}
use ledgerly_app.Platform.BodyScroll.{
  BodyScrollStyles, BodyScrollLockState, Page, fixed_styles, lock_body_scroll, release,
}
use ledgerly_app.Platform.BodyScroll.Restore.{here, next, locks, releases, Reach-styles}

abbrev plain : BodyScrollStyles
plain = record { position = []; top = []; left = []; right = []; overflow = codes "auto" }

abbrev open_page : Page
open_page = record { state = none; styles = plain; scroll_y = 140; held = []; next = 0 }

abbrev one_lock : Page
one_lock = (lock_body_scroll open_page).0

abbrev two_locks : Page
two_locks = (lock_body_scroll one_lock).0

held_in_place : two_locks.styles ≡ fixed_styles 140
unfolding lock_body_scroll
held_in_place = refl

given_back : release 1 (release 0 two_locks) ≡ record open_page { next = 2 }
unfolding lock_body_scroll release
given_back = refl

Reach-styles_example :
    ((release 0 one_lock).held ≡ []
      → ((release 0 one_lock).state ≡ none) × ((release 0 one_lock).styles ≡ plain))
    × (0 < length (release 0 one_lock).held
        → (state : BodyScrollLockState) × ((release 0 one_lock).state ≡ some state)
          × ((release 0 one_lock).styles ≡ fixed_styles state.scroll_y))
Reach-styles_example =
    Reach-styles open_page (release 0 one_lock) refl refl (next (next here locks) (releases 0))

abbrev saved : BodyScrollLockState
saved = record { count = 1; scroll_y = 140; styles = plain }

locked_once : one_lock.state ≡ some saved
unfolding lock_body_scroll
locked_once = refl
