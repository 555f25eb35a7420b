-- ===== src/WriteFlow/Locking.antt =====
-- A dialog sends one request at a time, and none after one that succeeded.
use ledgerly_app.Base.{
  All, ℕ, ◌+◌, ◌≡◌, refl, ◌∙◌, Bool, true, false, List, [], ◌∷◌, Text, arith, length, length-append,
  if◌then◌else◌,
}
use ledgerly_app.WriteFlow.{
  Flow, idle, WriteError, WriteFlowOptions, open_changes, timer_fires, submit_live, complete_demo,
  on_success, on_error, finish,
}

-- What happens to a dialog. Only a pending request settles.
pub data Event (V : Type 0) : Type 0 where
  opens closes : Event V
  timer : ℕ → Event V
  submits : V → Event V
  demo : Text → Event V
  succeeds : WriteFlowOptions → Event V
  fails : WriteError → Event V

abbrev pub count : Bool → ℕ
count true = 1
count false = 0

module _ {V : Type 0} where
  unfoldable pub step : Event V → Flow V → Flow V
  step opens f = open_changes true f
  step closes f = open_changes false f
  step (timer t) f = timer_fires t f
  step (submits variables) f = (submit_live variables f).0
  step (demo message) f = (complete_demo message f).0
  step (succeeds options) f = if f.pending then on_success options f else f
  step (fails e) f = if f.pending then on_error e f else f

  unfoldable pub run : List (Event V) → Flow V → Flow V
  run [] f = f
  run (e ∷ es) f = run es (step e f)

  -- How many requests an event settles.
  unfoldable pub settles : Event V → Flow V → ℕ
  settles (succeeds _) f = count f.pending
  settles (fails _) f = count f.pending
  settles _ f = 0

  unfoldable pub settled : List (Event V) → Flow V → ℕ
  settled [] f = 0
  settled (e ∷ es) f = settles e f + settled es (step e f)

  closes-sent :
      (f : Flow V)
      → ((open_changes false f).sent ≡ f.sent) × ((open_changes false f).pending ≡ f.pending)
  unfolding open_changes
  closes-sent f = ground (arith)

  timer-sent :
      (t : ℕ) (f : Flow V)
      → ((timer_fires t f).sent ≡ f.sent) × ((timer_fires t f).pending ≡ f.pending)
  unfolding timer_fires
  timer-sent t f = ground (arith)

  demo-sent :
      (message : Text) (f : Flow V)
      → ((complete_demo message f).0.sent ≡ f.sent)
        × ((complete_demo message f).0.pending ≡ f.pending)
  unfolding complete_demo finish
  demo-sent message f = ground (arith)

  submit-sent :
      (v : V) (f : Flow V)
      → length (submit_live v f).0.sent + count f.pending
        ≡ length f.sent + count (submit_live v f).0.pending
  unfolding submit_live
  submit-sent v f = ground (arith, length-append f.sent (v ∷ []))

  success-sent :
      (options : WriteFlowOptions) (f : Flow V)
      → ((on_success options f).sent ≡ f.sent) × ((on_success options f).pending ≡ false)
  unfolding on_success finish
  success-sent options f = (refl, refl)

  failure-sent :
      (e : WriteError) (f : Flow V)
      → ((on_error e f).sent ≡ f.sent) × ((on_error e f).pending ≡ false)
  unfolding on_error
  failure-sent e f = (refl, refl)

  step-balance :
      (e : Event V) (f : Flow V)
      → length (step e f).sent + count f.pending
        ≡ length f.sent + settles e f + count (step e f).pending
  unfolding step settles open_changes
  step-balance opens f = ground (arith)
  step-balance closes f = ground (arith, closes-sent f)
  step-balance (timer t) f = ground (arith, timer-sent t f)
  step-balance (submits v) f = ground (arith, submit-sent v f)
  step-balance (demo m) f = ground (arith, demo-sent m f)
  step-balance (succeeds o) f = ground (arith, success-sent o f)
  step-balance (fails e) f = ground (arith, failure-sent e f)

  run-balance :
      (es : List (Event V)) (f : Flow V)
      → length (run es f).sent + count f.pending
        ≡ length f.sent + settled es f + count (run es f).pending
  unfolding run settled
  run-balance [] f = omega arith
  run-balance (e ∷ es) f = ground (arith, step-balance e f, run-balance es (step e f))

  -- From a dialog that was never used, in whatever order it is opened, closed and submitted, and
  -- requests succeed or fail: the requests that were sent are those that settled and, while one is
  -- pending, that one.
  pub run-sent :
      (es : List (Event V))
      → length (run es (idle V)).sent ≡ settled es (idle V) + count (run es (idle V)).pending
  run-sent es = omega (arith, run-balance es (idle V))

  -- Any event but the opening of the dialog.
  abbrev pub StaysOpen : Event V → Type 0
  StaysOpen opens = ⊥
  StaysOpen _ = Unit

  closes-locked :
      (f : Flow V)
      → f.lock ≡ true
      → f.pending ≡ false
      → ((open_changes false f).lock ≡ true)
        × ((open_changes false f).pending ≡ false)
        × ((open_changes false f).sent ≡ f.sent)
        × ((open_changes false f).written ≡ f.written)
  unfolding open_changes
  closes-locked f lock pending = ground (arith)

  timer-locked :
      (t : ℕ) (f : Flow V)
      → f.lock ≡ true
      → f.pending ≡ false
      → ((timer_fires t f).lock ≡ true)
        × ((timer_fires t f).pending ≡ false)
        × ((timer_fires t f).sent ≡ f.sent)
        × ((timer_fires t f).written ≡ f.written)
  unfolding timer_fires
  timer-locked t f lock pending = ground (arith)

  step-locked :
      (e : Event V) (f : Flow V)
      → StaysOpen e
      → f.lock ≡ true
      → f.pending ≡ false
      → ((step e f).lock ≡ true)
        × ((step e f).pending ≡ false)
        × ((step e f).sent ≡ f.sent)
        × ((step e f).written ≡ f.written)
  unfolding step submit_live complete_demo
  step-locked opens f h lock pending = elim h [ ]
  step-locked closes f h lock pending = closes-locked f lock pending
  step-locked (timer t) f h lock pending = timer-locked t f lock pending
  step-locked (submits v) f h lock pending = ground (arith)
  step-locked (demo m) f h lock pending = ground (arith)
  step-locked (succeeds o) f h lock pending = ground (arith)
  step-locked (fails e) f h lock pending = ground (arith)

  -- After a request that succeeded, or a demo write, while its lock is held: until the dialog is opened
  -- again nothing more is sent or written, whatever is pressed, and the lock stays.
  pub run-locked :
      (es : List (Event V)) (f : Flow V)
      → All StaysOpen es
      → f.lock ≡ true
      → f.pending ≡ false
      → ((run es f).sent ≡ f.sent) × ((run es f).written ≡ f.written) × ((run es f).lock ≡ true)
  unfolding run
  run-locked [] f h lock pending = (refl, refl, lock)
  run-locked (e ∷ es) f (h, hs) lock pending =
      let (lock', pending', sent, written) = step-locked e f h lock pending in
      let (sents, writtens, last) = run-locked es (step e f) hs lock' pending' in
      (sents ∙ sent, writtens ∙ written, last)
