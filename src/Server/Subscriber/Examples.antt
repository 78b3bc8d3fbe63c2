-- ===== src/Server/Subscriber/Examples.antt =====
-- Runs of one subscription of task_subscription_service.cpp.
use a2a_cpp.Base.{◌≡◌, refl, arith, true, List, [], ◌∷◌, ◌++◌, codes, length, false}
use a2a_cpp.Core.Proto.{Task, default_task, working, completed, set_state, is_terminal_task_state}
use a2a_cpp.Server.Subscriber.{
  build_current_task_event, opened, ended, next, deliver, close, enqueue, signal_subscriber, resume,
  await_event, await_resume, wait_for_next, start, resume_yielded, take_value,
  record_delivered_event, is_live,
}
use a2a_cpp.Server.Subscriber.Order.{remaining}
use a2a_cpp.Server.Subscriber.Runs.{
  Action, publish, poll, run, accepted, polls, run-order, drain-ends,
}
use a2a_cpp.Server.Subscriber.Pending.{outstanding, run-is_live}

abbrev new_task : Task
new_task = record default_task { id = codes "t" }

abbrev updates : List Action
updates =
    poll
    ∷ publish (set_state working new_task)
    ∷ publish (set_state completed new_task)
    ∷ publish (set_state working new_task)
    ∷ []

run-order_example :
    (run updates (opened new_task)).0 ++ remaining (run updates (opened new_task)).1
    ≡ build_current_task_event new_task ∷ accepted updates false
run-order_example = run-order new_task updates

drain-ends_example :
    let before = (run updates (opened new_task)).1 in
    let after = run (polls (length (remaining before))) (close before) in
    (after.0 ≡ remaining before) × ((next after.1).0 ≡ ended)
drain-ends_example = drain-ends new_task updates

two_left : outstanding (run updates (opened new_task)).1 ≡ 2
unfolding next wait_for_next start resume_yielded take_value record_delivered_event resume
    await_event await_resume deliver enqueue signal_subscriber is_terminal_task_state
two_left = refl

run-is_live_example : is_live (run updates (opened new_task)).1 ≡ true
run-is_live_example =
    run-is_live new_task updates (omega (arith, two_left)) (omega (arith, two_left))
