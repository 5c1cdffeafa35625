-- ===== src/Propagation/System.antt =====
-- gtc/server.go, gtc/notify.go, gtc/watcher.go and gtc/cache.go: the informers' caches, the queues, the
-- handlers, the sends and the watches as one transition system. One step is what one goroutine does
-- between two calls that it can block in; a resolution is one step.
use grpc_traffic_controller.Prelude.{
  ℕ, ◌≡◌, Text, List, [], ◌∷◌, ◌++◌, map, Option, none, Bool, true, false, if◌then◌else◌, text_eq,
  ◌==◌, In,
}
use grpc_traffic_controller.Errors.{Error, ok, err}
use grpc_traffic_controller.Envoy.{Library, Any}
use grpc_traffic_controller.Kubernetes.{Listers}
use grpc_traffic_controller.Resources.{ResolveResponse}
use grpc_traffic_controller.Watches.{
  watch, ResourceRef, ref_eq, Watcher, Watches, new_watches, new_watcher, notify_changed, stop_one,
}
use grpc_traffic_controller.ConfigWatcher.{
  Request, config_resolver, change_request, first_request, has_resource_diff,
}
use grpc_traffic_controller.Propagation.{Event, handle_event, received, resource_of}
use grpc_traffic_controller.Propagation.Caches.{IsCache, IsChange, untold}

-- Where the goroutine of a watch is: not started, in the loop that subscribes, before its first response, at its `select`, or
-- resolving a resource that it has been told of, or in the loop that unsubscribes.
pub data Phase : Type 0 where
  unborn : Phase
  subscribing : (names : List Text) → Phase
  starting : Phase
  waiting : Phase
  serving : ResourceRef → Phase
  releasing : (refs : List ResourceRef) → Phase
  ended : Phase

pub record System : Type 0 where
  -- what the informers have stored
  pub cache : Listers
  -- both queues: what the informers have told of and no worker has handled
  pub queue : List Event
  -- what the handlers that run have still to pass to watches.notifyChanged
  pub announcing : List ResourceRef
  pub watches : Watches
  -- the goroutines of resourceWatchers.notifyChanged that have not yet sent
  pub sends : List (ℕ × ResourceRef)
  pub phase : ℕ → Phase
  pub watcher : ℕ → Watcher
  -- what the changes so far have not told any handler; no step reads it
  pub missed : List Event
  -- what the responses of a watch have last carried for a resource
  pub content : ℕ → ResourceRef → Option Any

abbrev pub initial : Listers → System
initial listers = record {
  cache = listers;
  queue = [];
  announcing = [];
  watches = new_watches;
  sends = [];
  phase = λ v. unborn;
  watcher = new_watcher;
  missed = [];
  content = λ v ref. none;
}

abbrev pub at_watch {ℓ} : {A : Type ℓ} → ℕ → A → (ℕ → A) → ℕ → A
at_watch v a f u = if v == u then a else f u

-- What a workqueue holds after an event is added: an event that it holds already is not added again.
pub data Enqueues (e : Event) (queue : List Event) : List Event → Type 0 where
  added : Enqueues e queue (queue ++ e ∷ [])
  present : In e queue → Enqueues e queue queue

-- watcher.notifyChanged, in a goroutine for each watcher
abbrev pub start_sends : ResourceRef → List ℕ → List (ℕ × ResourceRef)
start_sends ref = map (λ v. (v, ref))

-- What the first response of a watch carries for a resource, and what a response to a change does.
abbrev pub first_content : Request → ResolveResponse → ResourceRef → Option Any
first_content req resp ref =
    if text_eq req.type_url ref.type_url
    then received req.resource_names resp.resources ref.resource_name
    else none

abbrev pub later_content :
    ResourceRef → ResolveResponse → (ResourceRef → Option Any) → ResourceRef → Option Any
later_content changed resp content ref =
    if ref_eq changed ref then resource_of (ok resp) else content ref

-- The watches that have subscribed to all their names, and whose goroutine still runs.
abbrev pub is_live : Phase → Bool
is_live unborn = false
is_live (subscribing names) = false
is_live starting = true
is_live waiting = true
is_live (serving ref) = true
is_live (releasing refs) = false
is_live ended = false

-- The watches that may stand in a set of watchers.
abbrev pub is_started : Phase → Bool
is_started unborn = false
is_started (subscribing names) = true
is_started starting = true
is_started waiting = true
is_started (serving ref) = true
is_started (releasing refs) = true
is_started ended = false

-- The request of each watch, and the names that its stream knew when it started.
module _ (lib : Library) (requests : ℕ → Request) (known : ℕ → List Text) where
  -- after hasResourceDiff: the first response is resolved, or the loop begins
  abbrev pub first_phase : ℕ → Phase
  first_phase v =
      if has_resource_diff (known v) (requests v).resource_names then starting else waiting

  abbrev pub named_ref : ℕ → Text → ResourceRef
  named_ref v name = record { type_url = (requests v).type_url; resource_name = name }

  pub data Step (s : System) : System → Type 0 where
    -- an informer stores a change and adds its event to a queue
    change :
        (listers : Listers) (e : Event) (queue : List Event) (changed : IsChange s.cache listers e)
        → IsCache listers
        → Enqueues e s.queue queue
        → Step s (record s { cache = listers; queue = queue; missed = untold changed ++ s.missed })
    -- a worker takes an event, and its handler works out what to announce
    handle :
        (before after : List Event) (e : Event) (refs : List ResourceRef)
        → s.queue ≡ before ++ e ∷ after
        → handle_event lib s.cache e ≡ ok refs
        → Step s (record s { queue = before ++ after; announcing = refs ++ s.announcing })
    -- watches.notifyChanged
    notify :
        (before after : List ResourceRef) (ref : ResourceRef)
        → s.announcing ≡ before ++ ref ∷ after
        → Step s (record s {
          announcing = before ++ after;
          sends = start_sends ref (notify_changed s.watches ref) ++ s.sends;
        })
    -- configWatcher.watch: buildWatch
    start :
        (v : ℕ)
        → s.phase v ≡ unborn
        → Step s (record s {
          watcher = at_watch v (new_watcher v) s.watcher;
          phase = at_watch v (subscribing (requests v).resource_names) s.phase;
        })
    -- one round of the loop over the requested names: watcher.watch
    subscribe :
        (v : ℕ) (name : Text) (names : List Text)
        → s.phase v ≡ subscribing (name ∷ names)
        → Step s (record s {
          watches = (watch (named_ref v name) (s.watcher v, s.watches)).1;
          watcher = at_watch v (watch (named_ref v name) (s.watcher v, s.watches)).0 s.watcher;
          phase = at_watch v (subscribing names) s.phase;
        })
    -- the end of the loop, and hasResourceDiff; nothing has been sent
    begin_serving :
        (v : ℕ)
        → s.phase v ≡ subscribing []
        → Step s (record s {
          phase = at_watch v (first_phase v) s.phase;
          content = at_watch v (λ ref. none) s.content;
        })
    -- the first response
    first :
        (v : ℕ) (resp : ResolveResponse)
        → s.phase v ≡ starting
        → config_resolver lib s.cache (first_request (config_resolver lib s.cache) (requests v))
          ≡ ok resp
        → Step s (record s {
          phase = at_watch v waiting s.phase;
          content = at_watch v (first_content (requests v) resp) s.content;
        })
    -- an error of the first resolution is dropped
    first_failed :
        (v : ℕ) (e : Error)
        → s.phase v ≡ starting
        → config_resolver lib s.cache (first_request (config_resolver lib s.cache) (requests v))
          ≡ err e
        → Step s (record s { phase = at_watch v waiting s.phase })
    -- watcher.notifyChanged sends, and the `select` of the watch receives
    deliver :
        (before after : List (ℕ × ResourceRef)) (v : ℕ) (ref : ResourceRef)
        → s.sends ≡ before ++ (v, ref) ∷ after
        → s.phase v ≡ waiting
        → Step s (record s { sends = before ++ after; phase = at_watch v (serving ref) s.phase })
    -- a response to a change
    respond :
        (v : ℕ) (ref : ResourceRef) (resp : ResolveResponse)
        → s.phase v ≡ serving ref
        → config_resolver lib s.cache
            (change_request (config_resolver lib s.cache) (requests v) ref)
          ≡ ok resp
        → Step s (record s {
          phase = at_watch v waiting s.phase;
          content = at_watch v (later_content ref resp (s.content v)) s.content;
        })
    -- an error is logged, and the loop goes on
    respond_failed :
        (v : ℕ) (ref : ResourceRef) (e : Error)
        → s.phase v ≡ serving ref
        → config_resolver lib s.cache
            (change_request (config_resolver lib s.cache) (requests v) ref)
          ≡ err e
        → Step s (record s { phase = at_watch v waiting s.phase })
    -- the context is done: the cleanup of buildWatch begins
    stop :
        (v : ℕ)
        → is_live (s.phase v) ≡ true
        → Step s
            (record s { phase = at_watch v (releasing (s.watcher v).watched_resources) s.phase })
    -- one round of watches.stopAllWatches, which ranges over a map in any order
    release_one :
        (v : ℕ) (before after : List ResourceRef) (ref : ResourceRef)
        → s.phase v ≡ releasing (before ++ ref ∷ after)
        → Step s (record s {
          watches = stop_one (s.watcher v).number ref s.watches;
          phase = at_watch v (releasing (before ++ after)) s.phase;
        })
    -- the watcher's channel `done` is closed
    close :
        (v : ℕ)
        → s.phase v ≡ releasing []
        → Step s (record s {
          watcher = at_watch v (record (s.watcher v) { done = true }) s.watcher;
          phase = at_watch v ended s.phase;
        })
    -- watcher.notifyChanged finds `done` closed
    drop :
        (before after : List (ℕ × ResourceRef)) (v : ℕ) (ref : ResourceRef)
        → s.sends ≡ before ++ (v, ref) ∷ after
        → s.phase v ≡ ended
        → Step s (record s { sends = before ++ after })

  -- A run of the server.
  pub data Run (s : System) : System → Type 0 where
    rest : Run s s
    then_step : {t u : System} → Run s t → Step t u → Run s u

  -- A state that a run reaches from its start with some caches.
  pub data Reachable : System → Type 0 where
    reach :
        {s : System} (listers : Listers) → IsCache listers → Run (initial listers) s → Reachable s
