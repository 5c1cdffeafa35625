-- ===== src/Propagation/Asked.antt =====
-- gtc/watcher.go and gtc/cache.go: who is in the sets of watchers, and what they are told, as watches come
-- and go.
use grpc_traffic_controller.Prelude.{
  ℕ, Text, ◌≡◌, refl, sym, ◌∙◌, inl, inr, ◌⊎◌, List, true, false, ◌&&◌, Bool-cases, In,
}
use grpc_traffic_controller.Envoy.{Library}
use grpc_traffic_controller.Kubernetes.{Listers}
use grpc_traffic_controller.Watches.{
  contains, get_resource_watchers, find_address, ResourceRef, notify_changed,
}
use grpc_traffic_controller.Watches.Validity.{is_watching}
use grpc_traffic_controller.ConfigWatcher.{Request, has_resource_diff}
use grpc_traffic_controller.ConfigWatcher.Lifetime.{asks_for}
use grpc_traffic_controller.Propagation.Pending.{IsFollowed}
use grpc_traffic_controller.Propagation.System.{
  Phase, unborn, subscribing, starting, waiting, ended, is_started, subscribe, begin_serving,
  serving, System, initial, is_live, first_phase, Step, change, handle, notify, start, first,
  first_failed, deliver, respond, respond_failed, stop, release_one, close, releasing, drop, Run,
  rest, then_step, Reachable, reach,
}
use grpc_traffic_controller.Propagation.Freshness.{
  never_subscribing, never_releasing, Run-IsFollowed, initial-IsFollowed, Reachable-IsFollowed,
}
use grpc_traffic_controller.Propagation.Asking.{
  IsAsked, notify-IsAsked, waits-IsAsked, deliver-IsAsked, drop-IsAsked,
}
use grpc_traffic_controller.Propagation.Joining.{
  start-IsAsked, subscribe-IsAsked, begin_serving-IsAsked,
}
use grpc_traffic_controller.Propagation.Releasing.{stop-IsAsked, release_one-IsAsked, close-IsAsked}

module _ (lib : Library) (requests : ℕ → Request) (known : ℕ → List Text) where
  started_live :
      (p : Phase)
      → ((ns : List Text) → p ≡ subscribing ns → ⊥)
      → ((rs : List ResourceRef) → p ≡ releasing rs → ⊥)
      → is_started p ≡ true
      → is_live p ≡ true
  started_live unborn not_joining not_leaving started = absurd (cc)
  started_live (subscribing ns) not_joining not_leaving started = absurd (not_joining ns refl)
  started_live starting not_joining not_leaving started = refl
  started_live waiting not_joining not_leaving started = refl
  started_live (serving ref) not_joining not_leaving started = refl
  started_live (releasing rs) not_joining not_leaving started = absurd (not_leaving rs refl)
  started_live ended not_joining not_leaving started = absurd (cc)

  first_phase_lem :
      (v : ℕ)
      → (is_started (first_phase lib requests known v) ≡ true)
        × ((ref : ResourceRef) → first_phase lib requests known v ≡ serving ref → ⊥)
  first_phase_lem v = elim (Bool-cases (has_resource_diff (known v) (requests v).resource_names)) [
    | inl e ↦ rw e (refl, λ ref is. cc)
    | inr e ↦ rw e (refl, λ ref is. cc)
  ]

  Step-IsAsked :
      (s t : System)
      → IsFollowed lib requests s
      → IsAsked requests s
      → Step lib requests known s t
      → IsAsked requests t
  Step-IsAsked s _ now asked (change listers e queue changed cached enqueued) = record {
    kept = asked.kept;
    watched = asked.watched;
    joining = asked.joining;
    leaving = asked.leaving;
    sent = asked.sent;
    served = asked.served;
  }
  Step-IsAsked s _ now asked (handle before after e refs held handled) = record {
    kept = asked.kept;
    watched = asked.watched;
    joining = asked.joining;
    leaving = asked.leaving;
    sent = asked.sent;
    served = asked.served;
  }
  Step-IsAsked s _ now asked (notify before after ref held) =
      notify-IsAsked lib requests s now asked before after ref
  Step-IsAsked s _ now asked (start v is) = start-IsAsked lib requests s now asked v is
  Step-IsAsked s _ now asked (subscribe v name names is) =
      subscribe-IsAsked lib requests s now asked v name names is
  Step-IsAsked s _ now asked (begin_serving v is) =
      let (started, not_serving) = first_phase_lem v in
      begin_serving-IsAsked lib requests s now asked v (first_phase lib requests known v) is started
        (never_subscribing lib requests known v) (never_releasing lib requests known v) not_serving
  Step-IsAsked s _ now asked (first v resp is resolved) =
      waits-IsAsked lib requests s now asked v _ (rw is refl)
  Step-IsAsked s _ now asked (first_failed v e is failed) =
      waits-IsAsked lib requests s now asked v s.content (rw is refl)
  Step-IsAsked s _ now asked (deliver before after v ref held is) =
      deliver-IsAsked lib requests s now asked before after v ref held is
  Step-IsAsked s _ now asked (respond v ref resp is resolved) =
      waits-IsAsked lib requests s now asked v _ (rw is refl)
  Step-IsAsked s _ now asked (respond_failed v ref e is failed) =
      waits-IsAsked lib requests s now asked v s.content (rw is refl)
  Step-IsAsked s _ now asked (stop v live) = stop-IsAsked lib requests s now v live asked
  Step-IsAsked s _ now asked (release_one v before after ref is) =
      release_one-IsAsked lib requests s now v before after ref is asked
  Step-IsAsked s _ now asked (close v is) = close-IsAsked lib requests s now v is asked
  Step-IsAsked s _ now asked (drop before after v ref held is) =
      drop-IsAsked lib requests s now asked before after v ref held

  Run-IsAsked :
      (s t : System)
      → IsFollowed lib requests s
      → IsAsked requests s
      → Run lib requests known s t
      → IsAsked requests t
  Run-IsAsked s _ now asked rest = asked
  Run-IsAsked s _ now asked (then_step {t} {u} run step) =
      Step-IsAsked t u (Run-IsFollowed lib requests known s t now run)
        (Run-IsAsked s t now asked run) step

  initial-IsAsked : (listers : Listers) → IsAsked requests (initial listers)
  unfolding notify_changed get_resource_watchers find_address contains
  initial-IsAsked listers = record {
    kept = λ v ref live. absurd (cc);
    watched = λ v ref watching. absurd (cc);
    joining = λ v names ref is. absurd (cc);
    leaving = λ v refs ref is watching. absurd (cc);
    sent = λ v ref m. elim m [ ];
    served = λ v ref serves. absurd (cc);
  }

  pub Reachable-IsAsked : (s : System) → Reachable lib requests known s → IsAsked requests s
  Reachable-IsAsked s (reach listers cached run) =
      Run-IsAsked (initial listers) s (initial-IsFollowed lib requests known listers cached)
        (initial-IsAsked listers) run

  -- In every state that a run reaches, a watch that is not in the midst of its subscriptions or of its cleanup
  -- stands in the set of a resource exactly if it runs and its request asks for that resource: whatever
  -- watches have come and gone, in any order, the sets hold no watch that has ended, and miss none that runs.
  pub is_watching_iff :
      (s : System) (v : ℕ) (ref : ResourceRef)
      → Reachable lib requests known s
      → ((names : List Text) → s.phase v ≡ subscribing names → ⊥)
      → ((refs : List ResourceRef) → s.phase v ≡ releasing refs → ⊥)
      → is_watching v ref s.watches ≡ (is_live (s.phase v) && asks_for (requests v) ref)
  is_watching_iff s v ref reached not_joining not_leaving =
      let asked = Reachable-IsAsked s reached in
      let now = Reachable-IsFollowed lib requests known s reached in
      elim (Bool-cases (is_watching v ref s.watches)) [
        | inl watching ↦
            let (started, asks) = asked.watched v ref watching in
            rw (watching, started_live (s.phase v) not_joining not_leaving started, asks) refl
        | inr not_watching ↦ elim (Bool-cases (is_live (s.phase v))) [
          | inr ends ↦ rw (not_watching, ends) refl
          | inl live ↦ elim (Bool-cases (asks_for (requests v) ref)) [
            | inr other ↦ rw (not_watching, live, other) refl
            | inl asks ↦ absurd (
                let both : true ≡ false = sym (now.subscribed v ref live asks) ∙ not_watching in cc)
          ]
        ]
      ]

  -- In every state that a run reaches, a watch is told only of resources that its request asks for, by the
  -- sends that are under way and by the change that it serves.
  pub told_only_asked :
      (s : System) (v : ℕ) (ref : ResourceRef)
      → Reachable lib requests known s
      → In (v, ref) s.sends ⊎ (s.phase v ≡ serving ref)
      → asks_for (requests v) ref ≡ true
  told_only_asked s v ref reached (inl m) = (Reachable-IsAsked s reached).sent v ref m
  told_only_asked s v ref reached (inr serves) = (Reachable-IsAsked s reached).served v ref serves
