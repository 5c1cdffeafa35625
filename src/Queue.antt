-- ===== src/Queue.antt =====
-- pkg/controllersupport/handler.go: the queue between the informers and a handler. The work queue is a
-- library's: what Get gives is an argument, and the calls of Forget and Done stand in the trace.
pub mod Worker
use grpc_traffic_controller.Prelude.{List, [], ◌∷◌, ◌++◌, Option, some, none, Bool, true, false}
use grpc_traffic_controller.Errors.{Error, Result, ok, err, panic}

-- EventHandler; an object may be nil, and what a method does is its output.
pub record EventHandler (Object Output : Type 0) : Type 0 where
  pub on_add : Option Object → Result Output
  pub on_update : (old_obj new_obj : Option Object) → Result Output
  pub on_delete : Option Object → Result Output

-- queueEventKind
pub data Kind : Type 0 where
  kind_unknown : Kind
  kind_add : Kind
  kind_update : Kind
  kind_delete : Kind

pub record QueueEvent (Object : Type 0) : Type 0 where
  pub kind : Kind
  pub object : Option Object
  pub old_obj : Option Object
  pub new_obj : Option Object

-- What is in the queue: an event, or a value of another type.
pub data Item (Object : Type 0) : Type 0 where
  event : QueueEvent Object → Item Object
  other : Item Object

-- QueuedEventHandler.OnAdd, OnUpdate and OnDelete: what they add to the queue
unfoldable pub queue_add : {Object : Type 0} → Object → Item Object
queue_add obj =
    event (record { kind = kind_add; object = some obj; old_obj = none; new_obj = none })

unfoldable pub queue_update : {Object : Type 0} → (old_obj new_obj : Object) → Item Object
queue_update old_obj new_obj =
    event
      (record { kind = kind_update; object = none; old_obj = some old_obj; new_obj = some new_obj })

unfoldable pub queue_delete : {Object : Type 0} → Object → Item Object
queue_delete obj =
    event (record { kind = kind_delete; object = some obj; old_obj = none; new_obj = none })

-- What a worker does, in order.
pub data Call (Object Output : Type 0) : Type 0 where
  handled : Output → Call Object Output
  logged : Error → Call Object Output
  forgot : Item Object → Call Object Output
  finished : Item Object → Call Object Output

module _ {Object Output : Type 0} (handler : EventHandler Object Output) where
  -- the switch of processItem; another kind calls nothing
  abbrev pub dispatch_kind : Kind → QueueEvent Object → Option (Result Output)
  dispatch_kind kind_unknown e = none
  dispatch_kind kind_add e = some (handler.on_add e.object)
  dispatch_kind kind_update e = some (handler.on_update e.old_obj e.new_obj)
  dispatch_kind kind_delete e = some (handler.on_delete e.object)

  unfoldable pub dispatch : QueueEvent Object → Option (Result Output)
  dispatch e = dispatch_kind e.kind e

  -- What is left after the call of the handler: the result of processItem, and what came of the call.
  abbrev pub outcome : Option (Result Output) → Result Bool × List (Call Object Output)
  outcome none = (ok true, [])
  outcome (some (ok out)) = (ok true, handled out ∷ [])
  outcome (some (err e)) = (ok true, logged e ∷ [])
  outcome (some panic) = (panic, [])

  -- The deferred calls, the last one first; they run when the handler panics too.
  abbrev pub deferred : Item Object → List (Call Object Output)
  deferred item = forgot item ∷ finished item ∷ []

  abbrev pub with_deferred :
      Item Object
      → Result Bool × List (Call Object Output)
      → Result Bool × List (Call Object Output)
  with_deferred item (result, calls) = (result, calls ++ deferred item)

  -- processItem; `none` is a queue that has shut down
  unfoldable pub process_item : Option (Item Object) → Result Bool × List (Call Object Output)
  unfolding dispatch
  process_item none = (ok false, [])
  process_item (some other) = with_deferred other (ok true, [])
  process_item (some (event e)) = with_deferred (event e) (outcome (dispatch e))

  -- runWorker, on what the calls of Get give: whether it has returned, and its trace. It waits where the
  -- list ends.
  unfoldable pub run_worker : List (Option (Item Object)) → Result Bool × List (Call Object Output)
  unfolding process_item
  run_worker [] = (ok false, [])
  run_worker (got ∷ more) =
      let (result, calls) = process_item got in
      let (returned, rest) = run_worker more in
      elim result [
        | ok true ↦ (returned, calls ++ rest)
        | ok false ↦ (ok true, calls)
        | err e ↦ (err e, calls)
        | panic ↦ (panic, calls)
      ]
