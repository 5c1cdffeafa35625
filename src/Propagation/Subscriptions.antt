-- ===== src/Propagation/Subscriptions.antt =====
-- gtc/cache.go and gtc/watcher.go: the loop that subscribes keeps every running watch followed.
use grpc_traffic_controller.Prelude.{
  ℕ, Text, [], Bool, ◌||◌, ◌&&◌, text_eq, ◌≡◌, refl, ◌∙◌, inl, inr, List, ◌∷◌, some, none, true,
  false, ◌==◌, Bool-cases, arith,
}
use grpc_traffic_controller.Envoy.{Library}
use grpc_traffic_controller.Watches.{ResourceRef, watch, new_watcher}
use grpc_traffic_controller.Watches.Validity.{is_watching}
use grpc_traffic_controller.Watches.Subscription.{is_watching-watch, watch-IsValid, number-watch}
use grpc_traffic_controller.ConfigWatcher.{Request, is_known}
use grpc_traffic_controller.ConfigWatcher.Lifetime.{asks_for, ref_eq-named}
use grpc_traffic_controller.Propagation.Pending.{
  by_event, by_announcement, by_send, by_service, by_change, IsFollowed, at_watch-other, same_watch,
  IsJoining, joining_other, leaving_other,
}
use grpc_traffic_controller.Propagation.System.{Phase, subscribing, releasing, System, at_watch}

or_true : (b : Bool) → (b || true) ≡ true
or_true b = ground arith

left_true : (b t : Bool) → (b || (t && false)) ≡ true → b ≡ true
left_true b t e = ground arith

moves :
    (was t n k same : Bool)
    → same ≡ true
    → (was || (t && (n || k))) ≡ true
    → ((was || (same && (t && n))) || (t && k)) ≡ true
moves was t n k same e covered = ground arith

module _ (lib : Library) (requests : ℕ → Request) (s : System)
    (now : IsFollowed lib requests s) where
  -- A name that is subscribed to need not be subscribed to any more.
  joins :
      (v : ℕ) (name : Text) (names : List Text) (ref : ResourceRef)
      → IsJoining requests v (name ∷ names) (s.watcher v) s.watches
      → asks_for (requests v) ref ≡ true
      → (is_watching v ref
            (watch
              (record { type_url = (requests v).type_url; resource_name = name })
              (s.watcher v, s.watches)).1
          || (text_eq (requests v).type_url ref.type_url && is_known ref.resource_name names))
        ≡ true
  unfolding is_known
  joins v name names ref before asks =
      let one : ResourceRef = record { type_url = (requests v).type_url; resource_name = name } in
      let covered = before.covered ref asks in
      rw
        (
          is_watching-watch one ref (s.watcher v) s.watches v now.valid,
          before.numbered,
          ref_eq-named (requests v).type_url name ref,
        )
        (moves (is_watching v ref s.watches) (text_eq (requests v).type_url ref.type_url)
          (text_eq name ref.resource_name) (is_known ref.resource_name names) (v == v)
          (ground arith) covered)

  pub start-IsFollowed :
      (v : ℕ)
      → IsFollowed lib requests (record s {
        watcher = at_watch v (new_watcher v) s.watcher;
        phase = at_watch v (subscribing (requests v).resource_names) s.phase;
      })
  start-IsFollowed v = record {
    cached = now.cached;
    valid = now.valid;
    numbered = λ u live. elim (Bool-cases (v == u)) [
      | inl e ↦ absurd (let live' : false ≡ true = rw e at live in cc)
      | inr e ↦ rw e (now.numbered u (rw e at live))
    ];
    joining = λ u names is. elim (Bool-cases (v == u)) [
      | inl e ↦
          let is' : subscribing (requests v).resource_names ≡ subscribing names = rw e at is in
          let same : (requests v).resource_names ≡ names = cc in
          rw (e, ← same_watch v u e, ← same)
            (record { numbered = refl; covered = λ ref asks. ground arith })
      | inr e ↦ rw e (now.joining u names (rw e at is))
    ];
    leaving = λ u refs is. elim (Bool-cases (v == u)) [
      | inl e ↦
          absurd (
            let never : subscribing (requests v).resource_names ≡ releasing refs = rw e at is in cc)
      | inr e ↦ rw e (now.leaving u refs (rw e at is))
    ];
    subscribed = λ u ref live asks. elim (Bool-cases (v == u)) [
      | inl e ↦ absurd (let live' : false ≡ true = rw e at live in cc)
      | inr e ↦ now.subscribed u ref (rw e at live) asks
    ];
    fresh = λ u ref x y live asks canonical has answered. elim (Bool-cases (v == u)) [
      | inl e ↦ absurd (let live' : false ≡ true = rw e at live in cc)
      | inr e ↦ elim (now.fresh u ref x y (rw e at live) asks canonical has answered) [
        | inl same ↦ inl same
        | inr (by_event pending m covered) ↦ inr (by_event pending m covered)
        | inr (by_announcement m) ↦ inr (by_announcement m)
        | inr (by_send m) ↦ inr (by_send m)
        | inr (by_change e m covered) ↦ inr (by_change e m covered)
        | inr (by_service was) ↦ inr (by_service (at_watch-other v u _ s.phase e ∙ was))
      ]
    ];
  }

  pub subscribe-IsFollowed :
      (v : ℕ) (name : Text) (names : List Text)
      → s.phase v ≡ subscribing (name ∷ names)
      → IsFollowed lib requests (record s {
        watches =
            (watch
              (record { type_url = (requests v).type_url; resource_name = name })
              (s.watcher v, s.watches)).1;
        watcher =
            at_watch v
              (watch
                (record { type_url = (requests v).type_url; resource_name = name })
                (s.watcher v, s.watches)).0
              s.watcher;
        phase = at_watch v (subscribing names) s.phase;
      })
  subscribe-IsFollowed v name names is_subscribing =
      let one : ResourceRef = record { type_url = (requests v).type_url; resource_name = name } in
      let before = now.joining v (name ∷ names) is_subscribing in
      let more : (u : ℕ) (ref : ResourceRef)
          → is_watching u ref s.watches ≡ true
          → is_watching u ref (watch one (s.watcher v, s.watches)).1 ≡ true =
        λ u ref was. rw (is_watching-watch one ref (s.watcher v) s.watches u now.valid, was) refl in
      record {
        cached = now.cached;
        valid = watch-IsValid one (s.watcher v) s.watches now.valid;
        numbered = λ u live. elim (Bool-cases (v == u)) [
          | inl e ↦ absurd (let live' : false ≡ true = rw e at live in cc)
          | inr e ↦ rw e (now.numbered u (rw e at live))
        ];
        joining = λ u names' is. elim (Bool-cases (v == u)) [
          | inl e ↦
              let is' : subscribing names ≡ subscribing names' = rw e at is in
              let same : names ≡ names' = cc in
              rw (e, ← same_watch v u e, ← same)
                (record {
                  numbered = number-watch one (s.watcher v) s.watches ∙ before.numbered;
                  covered = λ ref asks. joins v name names ref before asks;
                })
          | inr e ↦
              let old = now.joining u names' (rw e at is) in
              rw e (record {
                numbered = old.numbered;
                covered = λ ref asks. elim (Bool-cases (is_watching u ref s.watches)) [
                  | inl was ↦ rw (more u ref was) refl
                  | inr was_not ↦
                      let left = old.covered ref asks in
                      let left' : (text_eq (requests u).type_url ref.type_url
                            && is_known ref.resource_name names')
                          ≡ true =
                        rw was_not at left in
                      rw left' (or_true (is_watching u ref (watch one (s.watcher v, s.watches)).1))
                ];
              })
        ];
        leaving = λ u refs is. elim (Bool-cases (v == u)) [
          | inl e ↦ absurd (let never : subscribing names ≡ releasing refs = rw e at is in cc)
          | inr e ↦ rw e (now.leaving u refs (rw e at is))
        ];
        subscribed = λ u ref live asks. elim (Bool-cases (v == u)) [
          | inl e ↦ absurd (let live' : false ≡ true = rw e at live in cc)
          | inr e ↦ more u ref (now.subscribed u ref (rw e at live) asks)
        ];
        fresh = λ u ref x y live asks canonical has answered. elim (Bool-cases (v == u)) [
          | inl e ↦ absurd (let live' : false ≡ true = rw e at live in cc)
          | inr e ↦ elim (now.fresh u ref x y (rw e at live) asks canonical has answered) [
            | inl same ↦ inl same
            | inr (by_event pending m covered) ↦ inr (by_event pending m covered)
            | inr (by_announcement m) ↦ inr (by_announcement m)
            | inr (by_send m) ↦ inr (by_send m)
            | inr (by_change e m covered) ↦ inr (by_change e m covered)
            | inr (by_service was) ↦ inr (by_service (at_watch-other v u _ s.phase e ∙ was))
          ]
        ];
      }

  pub begin_serving-IsFollowed :
      (v : ℕ) (p : Phase)
      → s.phase v ≡ subscribing []
      → ((ns : List Text) → p ≡ subscribing ns → ⊥)
      → ((rs : List ResourceRef) → p ≡ releasing rs → ⊥)
      → IsFollowed lib requests
          (record s { phase = at_watch v p s.phase; content = at_watch v (λ ref. none) s.content })
  unfolding is_known
  begin_serving-IsFollowed v p is_subscribing never not_releasing =
      let before = now.joining v [] is_subscribing in
      record {
        cached = now.cached;
        valid = now.valid;
        numbered = λ u live. elim (Bool-cases (v == u)) [
          | inl e ↦ rw (← same_watch v u e) before.numbered
          | inr e ↦ now.numbered u (rw e at live)
        ];
        joining = λ u names is. now.joining u names (joining_other v u p names s.phase never is);
        leaving =
            λ u refs is. now.leaving u refs (leaving_other v u p refs s.phase not_releasing is);
        subscribed = λ u ref live asks. elim (Bool-cases (v == u)) [
          | inl e ↦
              let all = before.covered ref (rw (same_watch v u e) asks) in
              rw (← same_watch v u e) (
                left_true (is_watching v ref s.watches) (text_eq (requests v).type_url ref.type_url)
                  all)
          | inr e ↦ now.subscribed u ref (rw e at live) asks
        ];
        fresh = λ u ref x y live asks canonical has answered. elim (Bool-cases (v == u)) [
          | inl e ↦ absurd (let has' : none ≡ some x = rw e at has in cc)
          | inr e ↦
              elim (now.fresh u ref x y (rw e at live) asks canonical (rw e at has) answered) [
                | inl same ↦ inl same
                | inr (by_event pending m covered) ↦ inr (by_event pending m covered)
                | inr (by_announcement m) ↦ inr (by_announcement m)
                | inr (by_send m) ↦ inr (by_send m)
                | inr (by_change e m covered) ↦ inr (by_change e m covered)
                | inr (by_service was) ↦ inr (by_service (at_watch-other v u p s.phase e ∙ was))
              ]
        ];
      }
