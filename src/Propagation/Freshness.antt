-- ===== src/Propagation/Freshness.antt =====
-- gtc/notify.go, gtc/watcher.go and gtc/cache.go together: no change is lost on its way to a watch.
use grpc_traffic_controller.Prelude.{
  Bool-cases, ℕ, Text, ◌≡◌, refl, sym, ◌∙◌, inl, inr, List, [], some, true, In,
}
use grpc_traffic_controller.Envoy.{Library, Any}
use grpc_traffic_controller.Kubernetes.{Listers}
use grpc_traffic_controller.Watches.{ResourceRef}
use grpc_traffic_controller.Watches.Validity.{new_watches-IsValid}
use grpc_traffic_controller.ConfigWatcher.{has_resource_diff, Request}
use grpc_traffic_controller.ConfigWatcher.Lifetime.{asks_for}
use grpc_traffic_controller.Propagation.{Event, answer}
use grpc_traffic_controller.Propagation.Caches.{IsCache, IsCanonical, Covers}
use grpc_traffic_controller.Propagation.Pending.{
  by_event, by_announcement, by_send, by_service, by_change, IsFollowed,
}
use grpc_traffic_controller.Propagation.System.{
  subscribe, begin_serving, subscribing, starting, waiting, serving, System, initial, first_phase,
  Step, change, handle, notify, start, first, first_failed, deliver, respond, respond_failed, stop,
  release_one, close, releasing, drop, Run, rest, then_step, Reachable, reach,
}
use grpc_traffic_controller.Propagation.Announcements.{
  change-IsFollowed, handle-IsFollowed, notify-IsFollowed,
}
use grpc_traffic_controller.Propagation.Deliveries.{deliver-IsFollowed, drop-IsFollowed}
use grpc_traffic_controller.Propagation.Subscriptions.{
  start-IsFollowed, subscribe-IsFollowed, begin_serving-IsFollowed,
}
use grpc_traffic_controller.Propagation.Releasing.{
  stop-IsFollowed, release_one-IsFollowed, close-IsFollowed,
}
use grpc_traffic_controller.Propagation.Responses.{
  first-IsFollowed, first_failed-IsFollowed, respond-IsFollowed, respond_failed-IsFollowed,
}

module _ (lib : Library) (requests : ℕ → Request) (known : ℕ → List Text) where
  pub never_subscribing :
      (v : ℕ) (ns : List Text) → first_phase lib requests known v ≡ subscribing ns → ⊥
  never_subscribing v ns e =
      elim (Bool-cases (has_resource_diff (known v) (requests v).resource_names)) [
        | inl differs ↦ let never : starting ≡ subscribing ns = rw differs at e in cc
        | inr known_all ↦ let never : waiting ≡ subscribing ns = rw known_all at e in cc
      ]

  pub never_releasing :
      (v : ℕ) (rs : List ResourceRef) → first_phase lib requests known v ≡ releasing rs → ⊥
  never_releasing v rs e =
      elim (Bool-cases (has_resource_diff (known v) (requests v).resource_names)) [
        | inl differs ↦ let never : starting ≡ releasing rs = rw differs at e in cc
        | inr known_all ↦ let never : waiting ≡ releasing rs = rw known_all at e in cc
      ]

  Step-IsFollowed :
      (s t : System)
      → IsFollowed lib requests s
      → Step lib requests known s t
      → IsFollowed lib requests t
  Step-IsFollowed s _ now (change listers e queue changed cached enqueued) =
      change-IsFollowed lib requests s now listers e queue changed cached enqueued
  Step-IsFollowed s _ now (handle before after e refs held handled) =
      handle-IsFollowed lib requests s now before after e refs held handled
  Step-IsFollowed s _ now (notify before after ref held) =
      notify-IsFollowed lib requests s now before after ref held
  Step-IsFollowed s _ now (start v is) = start-IsFollowed lib requests s now v
  Step-IsFollowed s _ now (subscribe v name names is) =
      subscribe-IsFollowed lib requests s now v name names is
  Step-IsFollowed s _ now (begin_serving v is) =
      begin_serving-IsFollowed lib requests s now v (first_phase lib requests known v) is
        (never_subscribing v) (never_releasing v)
  Step-IsFollowed s _ now (first v resp is resolved) =
      first-IsFollowed lib requests s now v resp is resolved
  Step-IsFollowed s _ now (first_failed v e is failed) =
      first_failed-IsFollowed lib requests s now v is
  Step-IsFollowed s _ now (deliver before after v ref held is) =
      deliver-IsFollowed lib requests s now before after v ref held is
  Step-IsFollowed s _ now (respond v ref resp is resolved) =
      respond-IsFollowed lib requests s now v ref resp is resolved
  Step-IsFollowed s _ now (respond_failed v ref e is failed) =
      respond_failed-IsFollowed lib requests s now v ref e is failed
  Step-IsFollowed s _ now (stop v live) = stop-IsFollowed lib requests s now v live
  Step-IsFollowed s _ now (release_one v before after ref is) =
      release_one-IsFollowed lib requests s now v before after ref is
  Step-IsFollowed s _ now (close v is) = close-IsFollowed lib requests s now v is
  Step-IsFollowed s _ now (drop before after v ref held is) =
      drop-IsFollowed lib requests s now before after v ref held is

  pub initial-IsFollowed :
      (listers : Listers) → IsCache listers → IsFollowed lib requests (initial listers)
  initial-IsFollowed listers cached = record {
    cached = cached;
    valid = new_watches-IsValid;
    numbered = λ v live. absurd (cc);
    joining = λ v names is. absurd (cc);
    leaving = λ v refs is. absurd (cc);
    subscribed = λ v ref live asks. absurd (cc);
    fresh = λ v ref x y live asks canonical has answered. absurd (cc);
  }

  pub Run-IsFollowed :
      (s t : System)
      → IsFollowed lib requests s
      → Run lib requests known s t
      → IsFollowed lib requests t
  Run-IsFollowed s _ now rest = now
  Run-IsFollowed s _ now (then_step {t} {u} run step) =
      Step-IsFollowed t u (Run-IsFollowed s t now run) step

  -- In every state that a run reaches, each running watch is subscribed to what its request asks for, one
  -- that is in the midst of its subscriptions to all but the names that are left; and where it has been sent
  -- something for a resource of canonical name that has an answer now, that is the answer, or the news is on
  -- its way, or was never told: the event of a change that its handler will announce for that resource is
  -- queued, the resource is about to be announced, a send to this watch has been started, the watch is about
  -- to resolve the resource anew, or a slice has left, by an update, a service whose endpoints the resource has.
  pub Reachable-IsFollowed :
      (s : System) → Reachable lib requests known s → IsFollowed lib requests s
  Reachable-IsFollowed s (reach listers cached run) =
      Run-IsFollowed (initial listers) s (initial-IsFollowed listers cached) run

  -- Nothing is on its way to a watch: no event, no announcement, no send to it; and it waits.
  pub record IsSettled (s : System) (v : ℕ) : Type 0 where
    pub no_event : s.queue ≡ []
    pub no_announcement : s.announcing ≡ []
    pub no_send : (ref : ResourceRef) → In (v, ref) s.sends → ⊥
    pub waits : s.phase v ≡ waiting

  -- Eventual consistency: in every state that a run reaches, whatever the order of its steps, a watch that
  -- nothing is on its way to holds the answer of now for each resource of canonical name that its request asks
  -- for, that it has been sent something for, and that has an answer; unless a slice has left, by an update,
  -- a service whose endpoints the resource has.
  pub settled_is_fresh :
      (s : System) (v : ℕ) (ref : ResourceRef) (x y : Any)
      → Reachable lib requests known s
      → IsSettled s v
      → asks_for (requests v) ref ≡ true
      → IsCanonical ref
      → s.content v ref ≡ some x
      → answer lib s.cache (requests v) ref ≡ some y
      → ((e : Event) → In e s.missed → Covers lib s.cache ref e → ⊥)
      → x ≡ y
  settled_is_fresh s v ref x y reached settled asks canonical has answered none_missed =
      let waits = settled.waits in
      let now = Reachable-IsFollowed s reached in
      elim (now.fresh v ref x y (rw waits refl) asks canonical has answered) [
        | inl same ↦ sym same
        | inr (by_event e m covered) ↦
            absurd (let m' : In e [] = rw settled.no_event at m in elim m' [ ])
        | inr (by_announcement m) ↦
            absurd (let m' : In ref [] = rw settled.no_announcement at m in elim m' [ ])
        | inr (by_send m) ↦ absurd (settled.no_send ref m)
        | inr (by_change e m covered) ↦ absurd (none_missed e m covered)
        | inr (by_service p) ↦ absurd (let both : waiting ≡ serving ref = sym waits ∙ p in cc)
      ]
