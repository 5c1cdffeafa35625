-- ===== src/Propagation/Joining.antt =====
-- gtc/watcher.go and gtc/cache.go: the loop that subscribes keeps the sets of watchers to
-- watches that ask.
use grpc_traffic_controller.Prelude.{
  ℕ, Text, Bool, ◌||◌, text_eq, ◌≡◌, refl, ◌∙◌, inl, inr, List, [], ◌∷◌, none, true, false, ◌&&◌,
  ◌==◌, Bool-cases, arith,
}
use grpc_traffic_controller.Envoy.{Library}
use grpc_traffic_controller.Watches.{ResourceRef, ref_eq, watch, new_watcher}
use grpc_traffic_controller.Watches.Validity.{is_watching}
use grpc_traffic_controller.Watches.Subscription.{keeps, is_watching-watch, keeps-watch}
use grpc_traffic_controller.ConfigWatcher.{Request, is_known}
use grpc_traffic_controller.ConfigWatcher.Lifetime.{asks_for, ref_eq-named}
use grpc_traffic_controller.Propagation.Pending.{
  IsFollowed, same_watch, joining_other, leaving_other,
}
use grpc_traffic_controller.Propagation.System.{
  Phase, unborn, subscribing, releasing, is_started, serving, System, at_watch,
}
use grpc_traffic_controller.Propagation.Asking.{IsAsked}

among : (kept t n k asks : Bool) → (kept || (t && (n || k))) ≡ asks → (t && n) ≡ true → asks ≡ true
among kept t n k asks e new = ground arith

passes : (kept t n k : Bool) → (((t && n) || kept) || (t && k)) ≡ (kept || (t && (n || k)))
passes kept t n k = ground arith

nothing_left : (kept t : Bool) → kept ≡ (kept || (t && false))
nothing_left kept t = ground arith

module _ (lib : Library) (requests : ℕ → Request) (s : System) (now : IsFollowed lib requests s)
    (asked : IsAsked requests s) where
  pub start-IsAsked :
      (v : ℕ)
      → s.phase v ≡ unborn
      → IsAsked requests (record s {
        watcher = at_watch v (new_watcher v) s.watcher;
        phase = at_watch v (subscribing (requests v).resource_names) s.phase;
      })
  unfolding keeps
  start-IsAsked v is_unborn = record {
    kept = λ u ref live. elim (Bool-cases (v == u)) [
      | inl e ↦ absurd (let live' : false ≡ true = rw e at live in cc)
      | inr e ↦ rw e (asked.kept u ref (rw e at live))
    ];
    watched = λ u ref watching.
        let (started, asks) = asked.watched u ref watching in
        elim (Bool-cases (v == u)) [ inl e ↦ (rw e refl, asks) | inr e ↦ (rw e started, asks) ];
    joining = λ u names ref is. elim (Bool-cases (v == u)) [
      | inl e ↦
          let is' : subscribing (requests v).resource_names ≡ subscribing names = rw e at is in
          let same : (requests v).resource_names ≡ names = cc in
          rw (e, ← same_watch v u e, ← same) refl
      | inr e ↦ rw e (asked.joining u names ref (rw e at is))
    ];
    leaving = λ u refs ref is watching. elim (Bool-cases (v == u)) [
      | inl e ↦ absurd (let never : subscribing _ ≡ releasing refs = rw e at is in cc)
      | inr e ↦ asked.leaving u refs ref (rw e at is) watching
    ];
    sent = asked.sent;
    served = λ u ref serves. elim (Bool-cases (v == u)) [
      | inl e ↦ absurd (let never : subscribing _ ≡ serving ref = rw e at serves in cc)
      | inr e ↦ asked.served u ref (rw e at serves)
    ];
  }

  pub subscribe-IsAsked :
      (v : ℕ) (name : Text) (names : List Text)
      → s.phase v ≡ subscribing (name ∷ names)
      → IsAsked requests (record s {
        watches =
            (watch
              (record { type_url = (requests v).type_url; resource_name = name })
              (s.watcher v, s.watches)).1;
        watcher =
            at_watch v
              (watch
                (record { type_url = (requests v).type_url; resource_name = name })
                (s.watcher v, s.watches)).0
              s.watcher;
        phase = at_watch v (subscribing names) s.phase;
      })
  unfolding is_known
  subscribe-IsAsked v name names is_subscribing =
      let one : ResourceRef = record { type_url = (requests v).type_url; resource_name = name } in
      let before = now.joining v (name ∷ names) is_subscribing in
      record {
        kept = λ u ref live. elim (Bool-cases (v == u)) [
          | inl e ↦ absurd (let live' : false ≡ true = rw e at live in cc)
          | inr e ↦ rw e (asked.kept u ref (rw e at live))
        ];
        watched = λ u ref watching.
            let watching' : (is_watching u ref s.watches
                  || (v == u
                      && (text_eq (requests v).type_url ref.type_url
                          && text_eq name ref.resource_name)))
                ≡ true =
              rw
                (
                  is_watching-watch one ref (s.watcher v) s.watches u now.valid,
                  before.numbered,
                  ref_eq-named (requests v).type_url name ref,
                )
                at watching in
            elim (Bool-cases (v == u)) [
              | inr e ↦
                  let was : is_watching u ref s.watches ≡ true = ground arith in
                  let (started, asks) = asked.watched u ref was in (rw e started, asks)
              | inl e ↦ (
                rw e refl,
                rw (← same_watch v u e) (elim (Bool-cases (is_watching v ref s.watches)) [
                  | inl was ↦ let (_, asks) = asked.watched v ref was in asks
                  | inr was_not ↦
                      let was_not' : is_watching u ref s.watches ≡ false =
                        rw (← same_watch v u e) was_not in
                      let new : (text_eq (requests v).type_url ref.type_url
                            && text_eq name ref.resource_name)
                          ≡ true =
                        ground arith in
                      let all = asked.joining v (name ∷ names) ref is_subscribing in
                      among (keeps ref (s.watcher v).watched_resources)
                        (text_eq (requests v).type_url ref.type_url)
                        (text_eq name ref.resource_name) (is_known ref.resource_name names)
                        (asks_for (requests v) ref) all new
                ]),
              )
            ];
        joining = λ u names' ref is. elim (Bool-cases (v == u)) [
          | inr e ↦ rw e (asked.joining u names' ref (rw e at is))
          | inl e ↦
              let is' : subscribing names ≡ subscribing names' = rw e at is in
              let same : names ≡ names' = cc in
              let all = asked.joining v (name ∷ names) ref is_subscribing in
              rw
                (
                  e,
                  ← same_watch v u e,
                  ← same,
                  keeps-watch one ref (s.watcher v) s.watches,
                  ref_eq-named (requests v).type_url name ref,
                )
                (passes (keeps ref (s.watcher v).watched_resources)
                    (text_eq (requests v).type_url ref.type_url) (text_eq name ref.resource_name)
                    (is_known ref.resource_name names)
                  ∙ all)
        ];
        leaving = λ u refs ref is watching. elim (Bool-cases (v == u)) [
          | inl e ↦ absurd (let never : subscribing names ≡ releasing refs = rw e at is in cc)
          | inr e ↦
              let watching' : (is_watching u ref s.watches || (false && ref_eq one ref)) ≡ true =
                rw
                  (
                    is_watching-watch one ref (s.watcher v) s.watches u now.valid,
                    before.numbered,
                    e,
                  )
                  at watching in
              asked.leaving u refs ref (rw e at is) (ground arith)
        ];
        sent = asked.sent;
        served = λ u ref serves. elim (Bool-cases (v == u)) [
          | inl e ↦ absurd (let never : subscribing names ≡ serving ref = rw e at serves in cc)
          | inr e ↦ asked.served u ref (rw e at serves)
        ];
      }

  pub begin_serving-IsAsked :
      (v : ℕ) (p : Phase)
      → s.phase v ≡ subscribing []
      → is_started p ≡ true
      → ((ns : List Text) → p ≡ subscribing ns → ⊥)
      → ((rs : List ResourceRef) → p ≡ releasing rs → ⊥)
      → ((ref : ResourceRef) → p ≡ serving ref → ⊥)
      → IsAsked requests
          (record s { phase = at_watch v p s.phase; content = at_watch v (λ ref. none) s.content })
  unfolding is_known
  begin_serving-IsAsked v p is_subscribing started never not_releasing not_serving = record {
    kept = λ u ref live. elim (Bool-cases (v == u)) [
      | inl e ↦ rw (← same_watch v u e) (
          nothing_left (keeps ref (s.watcher v).watched_resources)
            (text_eq (requests v).type_url ref.type_url)
          ∙ asked.joining v [] ref is_subscribing)
      | inr e ↦ asked.kept u ref (rw e at live)
    ];
    watched = λ u ref watching.
        let (was_started, asks) = asked.watched u ref watching in
        elim (Bool-cases (v == u)) [
          | inl e ↦ (rw e started, asks)
          | inr e ↦ (rw e was_started, asks)
        ];
    joining =
        λ u names ref is. asked.joining u names ref (joining_other v u p names s.phase never is);
    leaving = λ u refs ref is.
        asked.leaving u refs ref (leaving_other v u p refs s.phase not_releasing is);
    sent = asked.sent;
    served = λ u ref serves. elim (Bool-cases (v == u)) [
      | inl e ↦ absurd (not_serving ref (rw e at serves))
      | inr e ↦ asked.served u ref (rw e at serves)
    ];
  }
