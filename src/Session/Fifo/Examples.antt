-- ===== src/Session/Fifo/Examples.antt =====
-- A queue of src/SessionCoordinator.cpp with a save from before an invalidation and a later one.
use arkham_horror_linux.Common.{ℕ, true, [], ◌∷◌, text_discrete, lookup, codes, refl, ◌⊎◌}
use arkham_horror_linux.Session.Fifo.{save, TokenOp, Fifo, queue_of, start_front_token_op}
use arkham_horror_linux.Session.Fifo.Issues.{Issues, Drops, start_front_sends}

-- A save of the epoch 0 before the one of the epoch 1.
abbrev saving : ℕ → ℕ → TokenOp ℕ
saving id epoch = record {
  kind = save;
  token = codes "t0k3n";
  on_complete = 7;
  admission_epoch = epoch;
  admission_endpoint_epoch = 0;
  op_id = id;
  endpoint_identity = codes "https://home";
  restore_eligible = true;
}

abbrev waiting : Fifo ℕ
waiting = record {
  queues = (codes "home", saving 1 0 ∷ saving 2 1 ∷ []) ∷ [];
  dispatches = [];
  epochs = record { credential_epochs = (codes "home", 1) ∷ []; endpoint_epochs = [] };
  stalls = record { stalled = []; stalled_order = [] };
  next_op_id = 3;
  next_attempt_id = 1;
  calls = [];
}

start_front_sends_example :
    Issues waiting
      (start_front_token_op waiting (codes "home"))
      (codes "home")
      (queue_of waiting (codes "home"))
    ⊎ Drops waiting
        (start_front_token_op waiting (codes "home"))
        (codes "home")
        (queue_of waiting (codes "home"))
unfolding lookup text_discrete
start_front_sends_example = start_front_sends waiting (codes "home") refl refl
