-- ===== src/Tests/Actions.antt =====
-- Action lists at concrete inputs.
use gdbserver.Base.{true, some, [], ◌∷◌, ◌≡◌, refl, arith}
use gdbserver.Ftl.Sample.{sample, sample_laws}
use gdbserver.ThreadActions.{
  continue_action, step_action, ThreadActionList, thread_action_list, all_ids,
}
use gdbserver.ThreadActions.Items.{Item, continues, steps, default_item, process_item, print_items}
use gdbserver.ThreadActions.Parse.{thread_action_list-print}

abbrev step_one : Item
step_one = process_item steps 1234 17

thread_action_list-print_example :
    thread_action_list sample 0 1234 (print_items sample step_one (default_item continues ∷ []))
    ≡ some (record {
      valid = true;
      default_action = continue_action;
      actions = record { action = step_action; pid = 1234; tid = 17 } ∷ [];
    })
thread_action_list-print_example =
    thread_action_list-print sample sample_laws 0 1234 (omega arith) step_one
      (default_item continues ∷ []) ((omega arith), (tt, tt)) (refl, tt)

abbrev step_first : ThreadActionList
step_first = record {
  valid = true;
  default_action = continue_action;
  actions = record { action = step_action; pid = 1234; tid = all_ids } ∷ [];
}
