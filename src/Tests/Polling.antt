-- ===== src/Tests/Polling.antt =====
-- A program with one workflow that polls, from its start to its end.
use paperminer.Base.{
  ℕ, suc, ◌+◌, ◌*◌, ◌≤◌, ◌≡◌, refl, ◌⊎◌, true, false, Option, none, some, [], ◌∷◌, All,
}
use paperminer.Errors.{Err, sentinel, canceled, server_closed}
use paperminer.Poller.{without_canceled}
use paperminer.Poller.Channel.{choosing, back, Looping, enter, call_poll, polls, ends}
use paperminer.Httpsrv.{
  HttpStep, silent, serving, awaiting, waiting, returned, finished, after_listen, after_serve,
  label_of, listens, announce, shuts_down, helper_ends, serve_ends, finishes,
}
use paperminer.Core.Mux.{Receiver}
use paperminer.Core.Serve.{http_options, started, cancel, http_moves, http_returns, Reach, IsOver}
use paperminer.Core.Pollers.{
  active, gone, this_receives, receive_member, poll_result, this_moves, this_returns, Whole,
  system_of, initial_whole, group_moves, begins, loop_moves, poll_returns, WholeSteps, no_more,
  step_first, notified_first,
}
use paperminer.Core.Pollers.Ends.{whole_left, CanGoOn, pollers_end}
use paperminer.Core.Pollers.Well.{HasReturnedNil, pollers_return_nil}
use paperminer.Tests.Serving.{Outcome, address, group, group-IsErrGroup}
use paperminer.Tests.Lifecycle.{hourly, delay}

abbrev poller : Receiver ℕ
poller = record { call = suc; next = delay; options = hourly; loop = enter 0 }

abbrev polled : Looping ℕ
polled = record { position = choosing; pending = false; ctx_err = none; begun = 1; state = 1 }

-- The workflow has polled once, and then the context has ended.
abbrev ending : Whole Outcome ℕ
ending = record {
  http = record { main = serving; helper = waiting; shut = false };
  starter = started;
  members = active (record poller { loop = polled }) ∷ [];
  group = record { done = true; first = none };
}

ending-WholeSteps :
    WholeSteps group (http_options address) 4 0 (initial_whole group (poller ∷ [])) ending
unfolding after_listen http_options initial_whole call_poll
ending-WholeSteps = step_first (group_moves (http_moves (listens refl) refl) refl) (
    step_first (begins (announce refl) refl refl) (
      step_first (loop_moves (this_moves _ (polls refl)))
        (step_first (group_moves (cancel refl) refl) no_more)))

-- A notification comes, and the loop returns.
abbrev left : Whole Outcome ℕ
left = record ending {
  members =
      active (record poller {
        loop = record polled {
          position = back (sentinel canceled);
          pending = true;
          ctx_err = some (sentinel canceled);
        };
      })
      ∷ [];
}

left-WholeSteps : WholeSteps group (http_options address) 1 1 ending left
unfolding receive_member paperminer.Poller.Channel.notify_post_consume
left-WholeSteps =
    notified_first this_receives
      (step_first (loop_moves (this_moves _ (ends (sentinel canceled) refl refl))) no_more)

pollers_end_example :
    (1 + whole_left group left ≤ whole_left group ending + 2 * 1)
    × (IsOver (system_of left) ⊎ CanGoOn group (http_options address) left)
pollers_end_example =
    pollers_end group group-IsErrGroup address (poller ∷ []) 4 0 1 1 ending left ending-WholeSteps
      refl refl left-WholeSteps

-- The loop returns, `Poll` has no error, and the server is shut down.
abbrev over : Whole Outcome ℕ
over = record {
  http = record { main = returned none; helper = finished; shut = true };
  starter = started;
  members =
      gone
        (record poller {
          loop = record polled {
            position = back (sentinel canceled);
            ctx_err = some (sentinel canceled);
          };
        })
        none
      ∷ [];
  group = record { done = true; first = none };
}

-- Before that, the workflow is about to return, or the server to come to the end of `Serve`.
abbrev returning : Whole Outcome ℕ
returning = record ending {
  members =
      active (record poller {
        loop = record polled {
          position = back (sentinel canceled);
          ctx_err = some (sentinel canceled);
        };
      })
      ∷ [];
}

abbrev shut_down : Whole Outcome ℕ
shut_down = record over { http = record { main = serving; helper = finished; shut = true } }

abbrev closed : Whole Outcome ℕ
closed = record over { http = record { main = awaiting; helper = finished; shut = true } }

nil_result : ◌≡◌ {A = Option Err} none (poll_result true (sentinel canceled))
unfolding poll_result without_canceled
nil_result = refl

last_move : HttpStep (http_options address) true shut_down.http silent closed.http
unfolding after_serve label_of
last_move = serve_ends (sentinel server_closed) refl (λ e. refl)

returning-over : WholeSteps group (http_options address) 5 0 returning over
returning-over =
    step_first (poll_returns none (this_returns _ (sentinel canceled) refl nil_result)) (
      step_first (group_moves (http_moves (shuts_down refl refl) refl) refl) (
        step_first (group_moves (http_moves (helper_ends refl) refl) refl) (
          step_first {w = shut_down} {v = closed} (group_moves (http_moves last_move refl) refl)
            (step_first (group_moves (http_returns none (finishes refl refl) refl) refl) no_more))))

over-WholeSteps :
    WholeSteps group (http_options address) 10 0 (initial_whole group (poller ∷ [])) over
unfolding after_listen http_options initial_whole call_poll
over-WholeSteps = step_first (group_moves (http_moves (listens refl) refl) refl) (
    step_first (begins (announce refl) refl refl) (
      step_first (loop_moves (this_moves _ (polls refl))) (
        step_first (group_moves (cancel refl) refl) (
          step_first (loop_moves (this_moves _ (ends (sentinel canceled) refl refl)))
            returning-over))))

pollers_return_nil_example : All HasReturnedNil over.members
unfolding paperminer.Core.Serve.any_running
pollers_return_nil_example =
    pollers_return_nil group group-IsErrGroup address (poller ∷ []) 10 0 over over-WholeSteps refl
      ((none, refl), (λ e. cc), refl)
