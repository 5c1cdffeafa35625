-- ===== src/Queue/Worker.antt =====
-- pkg/controllersupport/handler.go: a worker settles every item it takes.
use grpc_traffic_controller.Prelude.{
  ◌≡◌, ◌≢◌, refl, ap, ◌∙◌, List, [], ◌∷◌, ◌++◌, map, Option, some, none, true, arith,
}
use grpc_traffic_controller.Errors.{Result, ok, err, panic}
use grpc_traffic_controller.Queue.{
  EventHandler, QueueEvent, Item, event, other, queue_add, queue_update, queue_delete, Call,
  handled, logged, forgot, finished, Kind, kind_add, kind_update, kind_delete, kind_unknown,
  dispatch_kind, dispatch, outcome, deferred, with_deferred, process_item, run_worker,
}

-- The calls on the queue of a trace.
abbrev pub settled :
    {Object Output : Type 0} → List (Call Object Output) → List (Call Object Output)
settled [] = []
settled (handled out ∷ calls) = settled calls
settled (logged e ∷ calls) = settled calls
settled (forgot item ∷ calls) = forgot item ∷ settled calls
settled (finished item ∷ calls) = finished item ∷ settled calls

-- Each item forgotten and then done, in order.
abbrev pub settles : {Object Output : Type 0} → List (Item Object) → List (Call Object Output)
settles [] = []
settles (item ∷ items) = forgot item ∷ finished item ∷ settles items

settled-append :
    {Object Output : Type 0} (a b : List (Call Object Output))
    → settled (a ++ b) ≡ settled a ++ settled b
settled-append [] b = refl
settled-append (handled out ∷ a) b = settled-append a b
settled-append (logged e ∷ a) b = settled-append a b
settled-append (forgot item ∷ a) b = ap (λ l. forgot item ∷ l) (settled-append a b)
settled-append (finished item ∷ a) b = ap (λ l. finished item ∷ l) (settled-append a b)

module _ {Object Output : Type 0} (handler : EventHandler Object Output) where
  -- A handler of which no method panics.
  pub record IsPanicFree : Type 0 where
    pub add_returns : (o : Option Object) → handler.on_add o ≢ panic
    pub update_returns : (a b : Option Object) → handler.on_update a b ≢ panic
    pub delete_returns : (o : Option Object) → handler.on_delete o ≢ panic

  record IsSettled (item : Item Object) : Type 0 where
    goes_on : (process_item handler (some item)).0 ≡ ok true
    settles_it : settled (process_item handler (some item)).1 ≡ forgot item ∷ finished item ∷ []

  outcome-IsSettled :
      (item : Item Object) (m : Option (Result Output))
      → m ≢ some panic
      → ((with_deferred handler item (outcome handler m)).0 ≡ ok true)
        × (settled (with_deferred handler item (outcome handler m)).1
            ≡ forgot item ∷ finished item ∷ [])
  outcome-IsSettled item none safe = (refl, refl)
  outcome-IsSettled item (some (ok out)) safe = (refl, refl)
  outcome-IsSettled item (some (err e)) safe = (refl, refl)
  outcome-IsSettled item (some panic) safe = absurd (safe refl)

  dispatch_kind-ne-panic :
      (k : Kind) (e : QueueEvent Object) → IsPanicFree → dispatch_kind handler k e ≢ some panic
  dispatch_kind-ne-panic kind_unknown e safe = λ same. absurd (cc)
  dispatch_kind-ne-panic kind_add e safe = λ same. safe.add_returns e.object (ground arith)
  dispatch_kind-ne-panic kind_update e safe =
      λ same. safe.update_returns e.old_obj e.new_obj (ground arith)
  dispatch_kind-ne-panic kind_delete e safe = λ same. safe.delete_returns e.object (ground arith)

  process_item-IsSettled : (item : Item Object) → IsPanicFree → IsSettled item
  unfolding process_item dispatch
  process_item-IsSettled other safe = record { goes_on = refl; settles_it = refl }
  process_item-IsSettled (event e) safe =
      let (goes_on, settles_it) =
        outcome-IsSettled (event e) (dispatch_kind handler e.kind e)
          (dispatch_kind-ne-panic e.kind e safe) in
      record { goes_on = goes_on; settles_it = settles_it }

  -- A worker whose handler does not panic returns when the queue has shut down, and has then forgotten and
  -- done each item that it took, in order, whatever errors the handler reports and whatever the items are.
  pub run_worker_lem :
      (items : List (Item Object))
      → IsPanicFree
      → ((run_worker handler (map some items ++ none ∷ [])).0 ≡ ok true)
        × (settled (run_worker handler (map some items ++ none ∷ [])).1 ≡ settles items)
  unfolding run_worker process_item
  run_worker_lem [] safe = (refl, refl)
  run_worker_lem (item ∷ items) safe =
      let one = process_item-IsSettled item safe in
      let (returned, all) = run_worker_lem items safe in
      let goes_on = one.goes_on in
      let rest = (run_worker handler (map some items ++ none ∷ [])).1 in
      rw (run_worker, goes_on)
        (
          returned,
          settled-append (process_item handler (some item)).1 rest
              ∙ ap (λ calls. calls ++ settled rest) one.settles_it
              ∙ ap (λ calls. forgot item ∷ finished item ∷ calls) all,
        )

  -- An event that an informer adds to the queue reaches the method of its kind with its objects, if that
  -- method returns without an error; what the method does stands before the item is forgotten and done.
  pub process_item-queued :
      (old_obj obj : Object) (added updated deleted : Output)
      → handler.on_add (some obj) ≡ ok added
      → handler.on_update (some old_obj) (some obj) ≡ ok updated
      → handler.on_delete (some obj) ≡ ok deleted
      → (process_item handler (some (queue_add obj))
          ≡ (ok true, handled added ∷ deferred handler (queue_add obj)))
        × (process_item handler (some (queue_update old_obj obj))
            ≡ (ok true, handled updated ∷ deferred handler (queue_update old_obj obj)))
        × (process_item handler (some (queue_delete obj))
            ≡ (ok true, handled deleted ∷ deferred handler (queue_delete obj)))
  unfolding process_item dispatch queue_add queue_update queue_delete
  process_item-queued old_obj obj added updated deleted e e' e'' =
      (rw e refl, rw e' refl, rw e'' refl)
