-- ===== src/Controller/Examples.antt =====
-- The theorems on src/main/simulator-controller.js on a run of the controller.
use gps_device_virtual_farm.Prelude.{◌+◌, ◌≡◌, refl, true, false, List, [], ◌∷◌}
use gps_device_virtual_farm.Prelude.Sets.{has, delete}
use gps_device_virtual_farm.Controller.{
  Event, start_called, stop_called, message, exited, timer_fired, reply, log, run, new_controller,
  resolved, timed_out, step, failed, fatal, drain, handle, on_worker_exit, on_message, on_answer,
  on_timeout, stop, start, request, outcome_of, result_of, settle, continue_call, terminate_worker,
}
use gps_device_virtual_farm.Controller.Promises.{
  settlements, occurrences, issued, AllSettled, request_settles_once, failure_settles_all,
}

-- The worker answers the first request, and not the second, which times out; its late answer is dropped.
abbrev events : List Event
events =
    start_called false true
    ∷ message log
    ∷ message (reply 1)
    ∷ stop_called false
    ∷ timer_fired 2
    ∷ message (reply 2)
    ∷ exited 1
    ∷ []

events_settled :
    (run events new_controller).settled
    ≡ record { id = 2; outcome = timed_out } ∷ record { id = 1; outcome = resolved } ∷ []
unfolding run step drain handle on_worker_exit on_message on_answer has on_timeout stop start
    request outcome_of result_of settle continue_call delete terminate_worker
events_settled = refl

request_settles_once_example :
    (settlements (run events new_controller).settled 2
        + occurrences (run events new_controller).pending 2
      ≡ issued (run events new_controller).request_sequence 2)
    × (occurrences (run events new_controller).timers 2
        ≡ occurrences (run events new_controller).pending 2)
request_settles_once_example = request_settles_once events 2

failure_settles_all_example :
    AllSettled (step failed (run (start_called false true ∷ []) new_controller))
    × AllSettled (step (message fatal) (run (start_called false true ∷ []) new_controller))
failure_settles_all_example = failure_settles_all (start_called false true ∷ [])
