-- ===== src/Propagation/Waiting.antt =====
-- gtc/cache.go: a running watch comes to wait for changes.
use grpc_traffic_controller.Prelude.{ℕ, Text, ◌≡◌, ◌≢◌, refl, ◌∙◌, List, true, arith}
use grpc_traffic_controller.Errors.{ok, panic, Result-cases, is_ok, is_err, is_panic}
use grpc_traffic_controller.Envoy.{Library}
use grpc_traffic_controller.Kubernetes.{Listers}
use grpc_traffic_controller.Watches.{ResourceRef}
use grpc_traffic_controller.ConfigWatcher.{Request, config_resolver, first_request, change_request}
use grpc_traffic_controller.ConfigWatcher.Lifetime.{asks_for}
use grpc_traffic_controller.Propagation.{Event, handle_event}
use grpc_traffic_controller.Propagation.Pending.{at_watch-same}
use grpc_traffic_controller.Propagation.System.{
  subscribing, Phase, unborn, starting, waiting, serving, releasing, ended, System, initial,
  at_watch, first_content, later_content, is_live, Step, first, first_failed, respond,
  respond_failed, Run, rest, then_step, Reachable, reach,
}
use grpc_traffic_controller.Propagation.Freshness.{IsSettled}
use grpc_traffic_controller.Propagation.Asking.{IsAsked}

module _ (lib : Library) (requests : ℕ → Request) (known : ℕ → List Text) where
  pub Run-trans :
      (s m w : System)
      → Run lib requests known s m
      → Run lib requests known m w
      → Run lib requests known s w
  Run-trans s m _ before rest = before
  Run-trans s m _ before (then_step {t} {u} run step) = then_step (Run-trans s m t before run) step

  pub Reachable-Run :
      (s t : System)
      → Reachable lib requests known s
      → Run lib requests known s t
      → Reachable lib requests known t
  Reachable-Run s t (reach listers cached before) run =
      reach listers cached (Run-trans (initial listers) s t before run)

  pub Reachable-Step :
      (s t : System)
      → Reachable lib requests known s
      → Step lib requests known s t
      → Reachable lib requests known t
  Reachable-Step s t reached step = Reachable-Run s t reached (then_step rest step)

  -- As the caches are, no handler and no resolution for a watch panics.
  pub record NeverPanics (listers : Listers) (v : ℕ) : Type 0 where
    pub handles : (e : Event) → (refs : List ResourceRef) × (handle_event lib listers e ≡ ok refs)
    pub resolves_first :
        config_resolver lib listers (first_request (config_resolver lib listers) (requests v))
        ≢ panic
    pub resolves :
        (ref : ResourceRef)
        → asks_for (requests v) ref ≡ true
        → config_resolver lib listers
            (change_request (config_resolver lib listers) (requests v) ref)
          ≢ panic

  -- A state after a state, with the same caches, in which a watch is settled.
  pub record Settles (s : System) (v : ℕ) : Type 0 where
    pub later : System
    pub run : Run lib requests known s later
    pub same_cache : later.cache ≡ s.cache
    pub settled : IsSettled lib requests known later v

  pub Settles-after :
      (s t : System) (v : ℕ)
      → Run lib requests known s t
      → t.cache ≡ s.cache
      → Settles t v
      → Settles s v
  Settles-after s t v run same r = record {
    later = r.later;
    run = Run-trans s t r.later run r.run;
    same_cache = r.same_cache ∙ same;
    settled = r.settled;
  }

  -- A watch that serves a change comes to wait, with the same sends.
  pub record Waits (s : System) (v : ℕ) : Type 0 where
    pub later : System
    pub run : Run lib requests known s later
    pub same_cache : later.cache ≡ s.cache
    pub same_queue : later.queue ≡ s.queue
    pub same_announcing : later.announcing ≡ s.announcing
    pub same_sends : later.sends ≡ s.sends
    pub waits : later.phase v ≡ waiting

  pub at_self : (v : ℕ) (p : Phase) (f : ℕ → Phase) → at_watch v p f v ≡ p
  at_self v p f = at_watch-same v v p f (ground arith)

  pub serving-Waits :
      (s : System) (v : ℕ) (ref : ResourceRef)
      → s.phase v ≡ serving ref
      → config_resolver lib s.cache (change_request (config_resolver lib s.cache) (requests v) ref)
        ≢ panic
      → Waits s v
  serving-Waits s v ref serves resolves =
      elim (Result-cases (
        config_resolver lib s.cache
          (change_request (config_resolver lib s.cache) (requests v) ref))) [
            | is_panic e ↦ absurd (resolves e)
            | is_err e failed ↦ record {
              later = record s { phase = at_watch v waiting s.phase };
              run = then_step rest (respond_failed v ref e serves failed);
              same_cache = refl;
              same_queue = refl;
              same_announcing = refl;
              same_sends = refl;
              waits = at_self v waiting s.phase;
            }
            | is_ok resp resolved ↦ record {
              later = record s {
                phase = at_watch v waiting s.phase;
                content = at_watch v (later_content ref resp (s.content v)) s.content;
              };
              run = then_step rest (respond v ref resp serves resolved);
              same_cache = refl;
              same_queue = refl;
              same_announcing = refl;
              same_sends = refl;
              waits = at_self v waiting s.phase;
            }
          ]

  starting-Waits :
      (s : System) (v : ℕ)
      → s.phase v ≡ starting
      → config_resolver lib s.cache (first_request (config_resolver lib s.cache) (requests v))
        ≢ panic
      → Waits s v
  starting-Waits s v starts resolves =
      elim (Result-cases
        (config_resolver lib s.cache (first_request (config_resolver lib s.cache) (requests v)))) [
          | is_panic e ↦ absurd (resolves e)
          | is_err e failed ↦ record {
            later = record s { phase = at_watch v waiting s.phase };
            run = then_step rest (first_failed v e starts failed);
            same_cache = refl;
            same_queue = refl;
            same_announcing = refl;
            same_sends = refl;
            waits = at_self v waiting s.phase;
          }
          | is_ok resp resolved ↦ record {
            later = record s {
              phase = at_watch v waiting s.phase;
              content = at_watch v (first_content (requests v) resp) s.content;
            };
            run = then_step rest (first v resp starts resolved);
            same_cache = refl;
            same_queue = refl;
            same_announcing = refl;
            same_sends = refl;
            waits = at_self v waiting s.phase;
          }
        ]

  pub live-Waits :
      (s : System) (v : ℕ) (p : Phase)
      → s.phase v ≡ p
      → is_live p ≡ true
      → IsAsked requests s
      → NeverPanics s.cache v
      → Waits s v
  live-Waits s v unborn is live asked calm = absurd (cc)
  live-Waits s v (subscribing names) is live asked calm = absurd (cc)
  live-Waits s v (releasing refs) is live asked calm = absurd (cc)
  live-Waits s v ended is live asked calm = absurd (cc)
  live-Waits s v starting is live asked calm = starting-Waits s v is calm.resolves_first
  live-Waits s v (serving ref) is live asked calm =
      serving-Waits s v ref is (calm.resolves ref (asked.served v ref is))
  live-Waits s v waiting is live asked calm = record {
    later = s;
    run = rest;
    same_cache = refl;
    same_queue = refl;
    same_announcing = refl;
    same_sends = refl;
    waits = is;
  }
