-- ===== src/Propagation/Announcements.antt =====
-- gtc/notify.go and gtc/watcher.go: the steps of the informers and of the handlers keep every running watch
-- followed.
use grpc_traffic_controller.Prelude.{
  ℕ, ◌≡◌, inl, inr, List, ◌∷◌, ◌++◌, true, In-append_left, In-append_right,
}
use grpc_traffic_controller.Errors.{ok}
use grpc_traffic_controller.Envoy.{Library}
use grpc_traffic_controller.Kubernetes.{Listers}
use grpc_traffic_controller.Watches.{ResourceRef, notify_changed}
use grpc_traffic_controller.Watches.Validity.{is_watching}
use grpc_traffic_controller.ConfigWatcher.{Request}
use grpc_traffic_controller.Propagation.{Event, handle_event}
use grpc_traffic_controller.Propagation.Caches.{IsCache, IsChange, untold}
use grpc_traffic_controller.Propagation.Coverage.{change-Covers, Covers-change, Covers-announced}
use grpc_traffic_controller.Propagation.Pending.{
  by_event, by_announcement, by_send, by_service, by_change, IsFollowed, Enqueues-kept,
  Enqueues-new, In-take, is_watching-In,
}
use grpc_traffic_controller.Propagation.System.{System, Enqueues, start_sends}

module _ (lib : Library) (requests : ℕ → Request) (s : System)
    (now : IsFollowed lib requests s) where
  pub change-IsFollowed :
      (listers : Listers) (e : Event) (queue : List Event) (changed : IsChange s.cache listers e)
      → IsCache listers
      → Enqueues e s.queue queue
      → IsFollowed lib requests
          (record s { cache = listers; queue = queue; missed = untold changed ++ s.missed })
  change-IsFollowed listers e queue changed cached enqueued = record {
    cached = cached;
    valid = now.valid;
    numbered = now.numbered;
    joining = now.joining;
    leaving = now.leaving;
    subscribed = now.subscribed;
    fresh = λ v ref x y live asks canonical has answered.
        elim (change-Covers lib s.cache listers (requests v) ref y e changed now.cached canonical
          answered) [
            | inr (inl covered) ↦ inr (by_event e (Enqueues-new enqueued) covered)
            | inr (inr missed) ↦
                inr
                  (by_change missed.event (In-append_left s.missed missed.is_untold) missed.covers)
            | inl before ↦ elim (now.fresh v ref x y live asks canonical has before) [
              | inl same ↦ inl same
              | inr (by_announcement m) ↦ inr (by_announcement m)
              | inr (by_send m) ↦ inr (by_send m)
              | inr (by_service p) ↦ inr (by_service p)
              | inr (by_event pending m covered) ↦
                  elim (Covers-change lib s.cache listers (requests v) ref y pending e covered
                    changed canonical answered) [
                      | inl still ↦ inr (by_event pending (Enqueues-kept enqueued m) still)
                      | inr anew ↦ inr (by_event e (Enqueues-new enqueued) anew)
                    ]
              | inr (by_change past m covered) ↦
                  elim (Covers-change lib s.cache listers (requests v) ref y past e covered changed
                    canonical answered) [
                      | inl still ↦ inr (by_change past (In-append_right (untold changed) m) still)
                      | inr anew ↦ inr (by_event e (Enqueues-new enqueued) anew)
                    ]
            ]
          ];
  }

  pub handle-IsFollowed :
      (before after : List Event) (e : Event) (refs : List ResourceRef)
      → s.queue ≡ before ++ e ∷ after
      → handle_event lib s.cache e ≡ ok refs
      → IsFollowed lib requests
          (record s { queue = before ++ after; announcing = refs ++ s.announcing })
  handle-IsFollowed before after e refs held handled = record {
    cached = now.cached;
    valid = now.valid;
    numbered = now.numbered;
    joining = now.joining;
    leaving = now.leaving;
    subscribed = now.subscribed;
    fresh = λ v ref x y live asks canonical has answered.
        elim (now.fresh v ref x y live asks canonical has answered) [
          | inl same ↦ inl same
          | inr (by_announcement m) ↦ inr (by_announcement (In-append_right refs m))
          | inr (by_send m) ↦ inr (by_send m)
          | inr (by_change e m covered) ↦ inr (by_change e m covered)
          | inr (by_service p) ↦ inr (by_service p)
          | inr (by_event pending m covered) ↦ elim (In-take before after (rw held at m)) [
            | inr kept ↦ inr (by_event pending kept covered)
            | inl is ↦ inr (
                by_announcement (
                  In-append_left s.announcing (
                    Covers-announced lib s.cache ref e refs (rw is at covered) now.cached canonical
                      handled)))
          ]
        ];
  }

  pub notify-IsFollowed :
      (before after : List ResourceRef) (announced : ResourceRef)
      → s.announcing ≡ before ++ announced ∷ after
      → IsFollowed lib requests (record s {
        announcing = before ++ after;
        sends = start_sends announced (notify_changed s.watches announced) ++ s.sends;
      })
  notify-IsFollowed before after announced held = record {
    cached = now.cached;
    valid = now.valid;
    numbered = now.numbered;
    joining = now.joining;
    leaving = now.leaving;
    subscribed = now.subscribed;
    fresh = λ v ref x y live asks canonical has answered.
        elim (now.fresh v ref x y live asks canonical has answered) [
          | inl same ↦ inl same
          | inr (by_event e m covered) ↦ inr (by_event e m covered)
          | inr (by_send m) ↦ inr (by_send (In-append_right _ m))
          | inr (by_change e m covered) ↦ inr (by_change e m covered)
          | inr (by_service p) ↦ inr (by_service p)
          | inr (by_announcement m) ↦ elim (In-take before after (rw held at m)) [
            | inr kept ↦ inr (by_announcement kept)
            | inl is ↦
                let watching : is_watching v announced s.watches ≡ true =
                  rw (← is) (now.subscribed v ref live asks) in
                let sent =
                  is_watching-In v announced (notify_changed s.watches announced) watching in
                inr (by_send (In-append_left s.sends (rw is sent)))
          ]
        ];
  }
