-- ===== src/Examples/WriteFlow.antt =====
-- A dialog that is submitted twice, fails, and succeeds.
use ledgerly_app.Base.{
  ℕ, ◌+◌, ◌≡◌, refl, ◌∷◌, [], List, Text, codes, length, true, false, none, some, Option, text_eq,
}
use ledgerly_app.WriteFlow.{
  Flow, idle, WriteFlowOptions, other_error, submit_live, open_changes, on_error, on_success,
}
use ledgerly_app.WriteFlow.Locking.{
  Event, opens, closes, timer, submits, succeeds, fails, step, run, settled, count, run-sent,
  run-locked,
}

abbrev options : WriteFlowOptions
options = record {
  invalidate = codes "accounts" ∷ [];
  invalidate_period_reviews = false;
  success_message = codes "Saved";
  workspace_id = codes "w1";
}

abbrev story : List (Event ℕ)
story = opens ∷ submits 1 ∷ submits 2 ∷ fails other_error ∷ submits 3 ∷ succeeds options ∷ []

only_two : (run story (idle ℕ)).sent ≡ 1 ∷ 3 ∷ []
unfolding run step submit_live open_changes on_error on_success
only_two = refl

run-sent_example :
    length (run story (idle ℕ)).sent ≡ settled story (idle ℕ) + count (run story (idle ℕ)).pending
run-sent_example = run-sent story

abbrev done : Flow ℕ
done = run story (idle ℕ)

done-locked : done.lock ≡ true
unfolding run step submit_live open_changes on_error on_success
done-locked = refl

done-settled : done.pending ≡ false
unfolding run step submit_live open_changes on_error on_success
done-settled = refl

abbrev late : List (Event ℕ)
late = submits 4 ∷ timer 0 ∷ closes ∷ []

run-locked_example :
    ((run late done).sent ≡ done.sent)
    × ((run late done).written ≡ done.written)
    × ((run late done).lock ≡ true)
run-locked_example = run-locked late done (tt, (tt, (tt, tt))) done-locked done-settled

abbrev issues : List (Option Text × Text)
issues =
    (some (codes "amount"), [])
    ∷ (some (codes "amount"), codes "Enter an amount")
    ∷ (none, codes "Check the form")
    ∷ []
