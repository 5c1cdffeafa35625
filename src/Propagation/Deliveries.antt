-- ===== src/Propagation/Deliveries.antt =====
-- gtc/watcher.go: a send that is received, or that finds its watch done, keeps every running watch followed.
use grpc_traffic_controller.Prelude.{
  ℕ, ◌≡◌, refl, sym, ◌∙◌, ap, inl, inr, List, ◌∷◌, ◌++◌, true, false, ◌==◌, Bool-cases, arith,
}
use grpc_traffic_controller.Envoy.{Library}
use grpc_traffic_controller.Watches.{ResourceRef}
use grpc_traffic_controller.ConfigWatcher.{Request}
use grpc_traffic_controller.Propagation.Pending.{
  by_event, by_announcement, by_send, by_service, by_change, IsFollowed, In-take, at_watch-same,
  at_watch-other, same_watch, joining_other, leaving_other, at_watch-live,
}
use grpc_traffic_controller.Propagation.System.{waiting, serving, ended, System, at_watch, is_live}

module _ (lib : Library) (requests : ℕ → Request) (s : System)
    (now : IsFollowed lib requests s) where
  pub deliver-IsFollowed :
      (before after : List (ℕ × ResourceRef)) (v : ℕ) (ref : ResourceRef)
      → s.sends ≡ before ++ (v, ref) ∷ after
      → s.phase v ≡ waiting
      → IsFollowed lib requests
          (record s { sends = before ++ after; phase = at_watch v (serving ref) s.phase })
  deliver-IsFollowed before after v ref held is_waiting =
      let was : is_live (s.phase v) ≡ true = rw is_waiting refl in
      record {
        cached = now.cached;
        valid = now.valid;
        numbered = λ u live. now.numbered u (at_watch-live v u (serving ref) s.phase was live);
        joining = λ u names is.
            now.joining u names (joining_other v u (serving ref) names s.phase (λ ns e. cc) is);
        leaving = λ u refs is.
            now.leaving u refs (leaving_other v u (serving ref) refs s.phase (λ rs e. cc) is);
        subscribed = λ u ref' live asks.
            now.subscribed u ref' (at_watch-live v u (serving ref) s.phase was live) asks;
        fresh = λ u ref' x y live asks canonical has answered.
            elim (now.fresh u ref' x y (at_watch-live v u (serving ref) s.phase was live) asks
              canonical has answered) [
                | inl same ↦ inl same
                | inr (by_event e m covered) ↦ inr (by_event e m covered)
                | inr (by_announcement m) ↦ inr (by_announcement m)
                | inr (by_change e m covered) ↦ inr (by_change e m covered)
                | inr (by_service p) ↦ elim (Bool-cases (v == u)) [
                  | inr e ↦ inr (by_service (at_watch-other v u (serving ref) s.phase e ∙ p))
                  | inl e ↦
                      let p' : s.phase v ≡ serving ref' = rw (same_watch v u e) p in
                      absurd (let both : waiting ≡ serving ref' = sym is_waiting ∙ p' in cc)
                ]
                | inr (by_send m) ↦ elim (In-take before after (rw held at m)) [
                  | inr kept ↦ inr (by_send kept)
                  | inl is ↦
                      let same_v : u ≡ v = ap (λ (p : ℕ × ResourceRef). p.0) is in
                      let same_ref : ref' ≡ ref = ap (λ (p : ℕ × ResourceRef). p.1) is in
                      inr (
                        by_service (
                          rw (same_v, same_ref)
                            (at_watch-same v v (serving ref) s.phase (ground arith))))
                ]
              ];
      }

  pub drop-IsFollowed :
      (before after : List (ℕ × ResourceRef)) (v : ℕ) (ref : ResourceRef)
      → s.sends ≡ before ++ (v, ref) ∷ after
      → s.phase v ≡ ended
      → IsFollowed lib requests (record s { sends = before ++ after })
  drop-IsFollowed before after v ref held is_ended = record {
    cached = now.cached;
    valid = now.valid;
    numbered = now.numbered;
    joining = now.joining;
    leaving = now.leaving;
    subscribed = now.subscribed;
    fresh = λ u ref' x y live asks canonical has answered.
        elim (now.fresh u ref' x y live asks canonical has answered) [
          | inl same ↦ inl same
          | inr (by_event e m covered) ↦ inr (by_event e m covered)
          | inr (by_announcement m) ↦ inr (by_announcement m)
          | inr (by_change e m covered) ↦ inr (by_change e m covered)
          | inr (by_service p) ↦ inr (by_service p)
          | inr (by_send m) ↦ elim (In-take before after (rw held at m)) [
            | inr kept ↦ inr (by_send kept)
            | inl is ↦
                let same_v : u ≡ v = ap (λ (p : ℕ × ResourceRef). p.0) is in
                let live' : is_live (s.phase v) ≡ true = rw (← same_v) live in
                absurd (let never : false ≡ true = rw is_ended at live' in cc)
          ]
        ];
  }
