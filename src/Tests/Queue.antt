-- ===== src/Tests/Queue.antt =====
-- A worker whose handler fails on an update.
use grpc_traffic_controller.Prelude.{◌≡◌, codes, List, [], ◌∷◌, ◌++◌, map, none, some, ℕ, true}
use grpc_traffic_controller.Errors.{ok, err, external}
use grpc_traffic_controller.Queue.{EventHandler, Item, other, queue_add, queue_update, run_worker}
use grpc_traffic_controller.Queue.Worker.{IsPanicFree, settled, settles, run_worker_lem}

abbrev handler : EventHandler ℕ ℕ
handler = record {
  on_add = λ obj. ok 1;
  on_update = λ old_obj new_obj. err (external (codes "conflict"));
  on_delete = λ obj. ok 3;
}

handler-IsPanicFree : IsPanicFree handler
handler-IsPanicFree = record {
  add_returns = λ obj e. absurd (cc);
  update_returns = λ old_obj new_obj e. absurd (cc);
  delete_returns = λ obj e. absurd (cc);
}

abbrev items : List (Item ℕ)
items = queue_add 7 ∷ queue_update 7 8 ∷ other ∷ []

run_worker_lem_example :
    ((run_worker handler (map some items ++ none ∷ [])).0 ≡ ok true)
    × (settled (run_worker handler (map some items ++ none ∷ [])).1 ≡ settles items)
run_worker_lem_example = run_worker_lem handler items handler-IsPanicFree

abbrev recorder : EventHandler ℕ ℕ
recorder = record {
  on_add = λ obj. ok 1;
  on_update = λ old_obj new_obj. ok 2;
  on_delete = λ obj. ok 3;
}
