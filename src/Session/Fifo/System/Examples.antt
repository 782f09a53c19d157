-- ===== src/Session/Fifo/System/Examples.antt =====
-- A history of src/SessionCoordinator.cpp's queues: a save, a sign-out during it, a deletion that
-- fails, and its retry.
use arkham_horror_linux.Common.{
  ℕ, true, none, List, [], ◌∷◌, Text, text_key, text_discrete, lookup, insert, codes, ◌≡◌, refl,
}
use arkham_horror_linux.Session.Fifo.{save, TokenOp, accept, retry_stuck}
use arkham_horror_linux.Session.Fifo.Invariant.{local, Good}
use arkham_horror_linux.Session.Fifo.System.{
  success, backend_error, enqueue, invalidate, Event, act_on, completed, empty, step, run,
}
use arkham_horror_linux.Session.Fifo.System.Reachable.{run-Good}
use arkham_horror_linux.Session.Fifo.System.Replays.{accepted_once}
use arkham_horror_linux.Session.Fifo.{restore_read, invalidate_for_endpoint_change}
use arkham_horror_linux.Session.Fifo.System.{restore}
use arkham_horror_linux.Session.Fifo.System.Endpoints.{ReadsBehind, endpoint_change-ReadsBehind}
use arkham_horror_linux.Session.Fifo.System.Retries.{Reissues, retry_stuck-Reissues}

abbrev home : Text
home = codes "home"

abbrev saving : List (Event ℕ)
saving = act_on (enqueue home save (codes "t0k3n") (codes "https://home") 7 true) ∷ []

abbrev withdrawing : List (Event ℕ)
withdrawing = act_on (invalidate home) ∷ completed home 1 1 success [] [] ∷ []

abbrev stuck : List (Event ℕ)
stuck =
    act_on (enqueue home save (codes "t0k3n") (codes "https://home") 7 true)
    ∷ act_on (invalidate home)
    ∷ completed home 1 1 success [] []
    ∷ completed home 2 2 backend_error (codes "locked") []
    ∷ []

run-Good_example : Good (local (run 0 (empty 0) stuck) home) (run 0 (empty 0) stuck).next_op_id
run-Good_example = run-Good 0 stuck home

abbrev saved : TokenOp ℕ
saved = record {
  kind = save;
  token = codes "t0k3n";
  on_complete = 7;
  admission_epoch = 0;
  admission_endpoint_epoch = 0;
  op_id = 1;
  endpoint_identity = codes "https://home";
  restore_eligible = true;
}

accepted_once_example :
    accept
      (run 0 (step 0 (run 0 (empty 0) saving) (completed home 1 1 success [] [])) withdrawing)
      home
      1
      1
    ≡ none
unfolding accept run lookup insert text_discrete
accepted_once_example = accepted_once 0 saving withdrawing home 1 1 success [] [] saved [] refl 1

retry_stuck-Reissues_example :
    Reissues (run 0 (empty 0) stuck) (retry_stuck (run 0 (empty 0) stuck) home) home
unfolding accept run lookup insert text_discrete
retry_stuck-Reissues_example = retry_stuck-Reissues 0 stuck home refl refl

abbrev reading : List (Event ℕ)
reading = act_on (restore home (codes "https://home") 3) ∷ []

endpoint_change-ReadsBehind_example :
    ReadsBehind
      (run 0 (empty 0) reading)
      (restore_read
        (invalidate_for_endpoint_change 0 (run 0 (empty 0) reading) home)
        home
        (codes "https://elsewhere")
        4)
      home
      (codes "https://elsewhere")
      4
endpoint_change-ReadsBehind_example =
    endpoint_change-ReadsBehind 0 reading home (codes "https://elsewhere") 4
