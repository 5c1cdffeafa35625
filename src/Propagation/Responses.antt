-- ===== src/Propagation/Responses.antt =====
-- gtc/cache.go: the steps of a running watch keep it followed.
use grpc_traffic_controller.Prelude.{
  ℕ, ◌≡◌, refl, sym, ◌∙◌, ap, inl, inr, ◌⊎◌, Option, some, none, true, false, ◌==◌, text_eq,
  text_eq→eq, Bool-cases,
}
use grpc_traffic_controller.Errors.{Error, ok, err}
use grpc_traffic_controller.Envoy.{Library, Any}
use grpc_traffic_controller.Resources.{ResolveResponse}
use grpc_traffic_controller.Watches.{ResourceRef, ref_eq}
use grpc_traffic_controller.Watches.Laws.{ref_eq→eq, ref_eq_refl}
use grpc_traffic_controller.ConfigWatcher.{Request, config_resolver, first_request, change_request}
use grpc_traffic_controller.ConfigWatcher.Lifetime.{asks_for}
use grpc_traffic_controller.Propagation.{answer, received, resource_of}
use grpc_traffic_controller.Propagation.Answers.{received-eq-answer}
use grpc_traffic_controller.Propagation.Caches.{IsCanonical}
use grpc_traffic_controller.Propagation.Pending.{
  IsBehind, by_event, by_announcement, by_send, by_service, by_change, IsFollowed, at_watch-other,
  same_watch, joining_other, leaving_other, at_watch-live,
}
use grpc_traffic_controller.Propagation.System.{
  starting, waiting, serving, System, at_watch, first_content, later_content, is_live,
}

module _ (lib : Library) (requests : ℕ → Request) (s : System)
    (now : IsFollowed lib requests s) where
  abbrev waits : ℕ → System
  waits v = record s { phase = at_watch v waiting s.phase }

  -- A watch that goes back to wait is told no less, but of the resource that it was resolving.
  IsBehind-waits :
      (v u : ℕ) (ref : ResourceRef)
      → ((v == u) ≡ true → s.phase u ≡ serving ref → ⊥)
      → IsBehind lib s u ref
      → IsBehind lib (waits v) u ref
  IsBehind-waits v u ref not_it (by_event e m covered) = by_event e m covered
  IsBehind-waits v u ref not_it (by_announcement m) = by_announcement m
  IsBehind-waits v u ref not_it (by_send m) = by_send m
  IsBehind-waits v u ref not_it (by_change e m covered) = by_change e m covered
  IsBehind-waits v u ref not_it (by_service was) = elim (Bool-cases (v == u)) [
    | inl e ↦ absurd (not_it e was)
    | inr e ↦ by_service (at_watch-other v u waiting s.phase e ∙ was)
  ]

  -- The same, where the content may have changed.
  waits-IsFollowed :
      (v : ℕ) (content : ℕ → ResourceRef → Option Any)
      → is_live (s.phase v) ≡ true
      → ((u : ℕ) (ref : ResourceRef) (x y : Any)
          → asks_for (requests u) ref ≡ true
          → IsCanonical ref
          → content u ref ≡ some x
          → answer lib s.cache (requests u) ref ≡ some y
          → (y ≡ x)
            ⊎ ((s.content u ref ≡ some x) × ((v == u) ≡ true → s.phase u ≡ serving ref → ⊥)))
      → IsFollowed lib requests (record (waits v) { content = content })
  waits-IsFollowed v content was renewed = record {
    cached = now.cached;
    valid = now.valid;
    numbered = λ u live. now.numbered u (at_watch-live v u waiting s.phase was live);
    joining =
        λ u names is. now.joining u names (joining_other v u waiting names s.phase (λ ns e. cc) is);
    leaving =
        λ u refs is. now.leaving u refs (leaving_other v u waiting refs s.phase (λ rs e. cc) is);
    subscribed =
        λ u ref live asks. now.subscribed u ref (at_watch-live v u waiting s.phase was live) asks;
    fresh = λ u ref x y live asks canonical has answered.
        elim (renewed u ref x y asks canonical has answered) [
          | inl same ↦ inl same
          | inr (had, not_it) ↦
              elim (now.fresh u ref x y (at_watch-live v u waiting s.phase was live) asks canonical
                had answered) [
                  | inl same ↦ inl same
                  | inr pending ↦ elim (IsBehind-waits v u ref not_it pending) [
                    | by_event e m covered ↦ inr (by_event e m covered)
                    | by_announcement m ↦ inr (by_announcement m)
                    | by_send m ↦ inr (by_send m)
                    | by_change e m covered ↦ inr (by_change e m covered)
                    | by_service p ↦ inr (by_service p)
                  ]
                ]
        ];
  }

  not_serving :
      (v u : ℕ) (ref : ResourceRef)
      → s.phase v ≡ starting
      → (v == u) ≡ true
      → s.phase u ≡ serving ref
      → ⊥
  not_serving v u ref is_starting e is_serving =
      let is : s.phase v ≡ serving ref = rw (same_watch v u e) is_serving in
      let both : starting ≡ serving ref = sym is_starting ∙ is in cc

  pub first-IsFollowed :
      (v : ℕ) (resp : ResolveResponse)
      → s.phase v ≡ starting
      → config_resolver lib s.cache (first_request (config_resolver lib s.cache) (requests v))
        ≡ ok resp
      → IsFollowed lib requests (record s {
        phase = at_watch v waiting s.phase;
        content = at_watch v (first_content (requests v) resp) s.content;
      })
  first-IsFollowed v resp is_starting resolved =
      waits-IsFollowed v (at_watch v (first_content (requests v) resp) s.content)
        (rw is_starting refl)
        λ u ref x y asks canonical has answered. elim (Bool-cases (v == u)) [
          | inr e ↦ inr (rw e at has, not_serving v u ref is_starting)
          | inl e ↦
              let has' : first_content (requests v) resp ref ≡ some x = rw e at has in
              elim (Bool-cases (text_eq (requests v).type_url ref.type_url)) [
                | inr other ↦ absurd (let none_sent : none ≡ some x = rw other at has' in cc)
                | inl typed ↦
                    let got : received (requests v).resource_names resp.resources ref.resource_name
                        ≡ some x =
                      rw typed at has' in
                    let same_ref : record {
                      type_url = (requests v).type_url;
                      resource_name = ref.resource_name;
                    }
                        ≡ ref =
                      λ j. record {
                        type_url = text_eq→eq (requests v).type_url ref.type_url typed j;
                        resource_name = ref.resource_name;
                      } in
                    let answers_now : answer lib s.cache (requests v) ref ≡ some x =
                      rw (← same_ref) (
                        received-eq-answer lib s.cache (requests v) resp ref.resource_name x
                          resolved got) in
                    let now_is : answer lib s.cache (requests v) ref ≡ some y =
                      rw (same_watch v u e) answered in
                    let both : some y ≡ some x = sym now_is ∙ answers_now in inl (cc)
              ]
        ]

  pub first_failed-IsFollowed :
      (v : ℕ)
      → s.phase v ≡ starting
      → IsFollowed lib requests (record s { phase = at_watch v waiting s.phase })
  first_failed-IsFollowed v is_starting =
      waits-IsFollowed v s.content (rw is_starting refl)
        λ u ref x y asks canonical has answered. inr (has, not_serving v u ref is_starting)

  serves_one :
      (v u : ℕ) (ref ref' : ResourceRef)
      → s.phase v ≡ serving ref
      → ref_eq ref ref' ≡ false
      → (v == u) ≡ true
      → s.phase u ≡ serving ref'
      → ⊥
  serves_one v u ref ref' is_serving other e also =
      let is : s.phase v ≡ serving ref' = rw (same_watch v u e) also in
      let both : serving ref ≡ serving ref' = sym is_serving ∙ is in
      let same : ref ≡ ref' = cc in
      let differs : ref_eq ref ref ≡ false = rw (← same) at other in
      let agrees = ref_eq_refl ref in cc

  pub respond-IsFollowed :
      (v : ℕ) (ref : ResourceRef) (resp : ResolveResponse)
      → s.phase v ≡ serving ref
      → config_resolver lib s.cache (change_request (config_resolver lib s.cache) (requests v) ref)
        ≡ ok resp
      → IsFollowed lib requests (record s {
        phase = at_watch v waiting s.phase;
        content = at_watch v (later_content ref resp (s.content v)) s.content;
      })
  unfolding answer
  respond-IsFollowed v ref resp is_serving resolved =
      waits-IsFollowed v (at_watch v (later_content ref resp (s.content v)) s.content)
        (rw is_serving refl)
        λ u ref' x y asks canonical has answered. elim (Bool-cases (v == u)) [
          | inr e ↦ inr (rw e at has, λ e'. absurd (let both : true ≡ false = sym e' ∙ e in cc))
          | inl e ↦
              let has' : later_content ref resp (s.content v) ref' ≡ some x = rw e at has in
              elim (Bool-cases (ref_eq ref ref')) [
                | inr other ↦ inr (
                  rw (← same_watch v u e) (rw other at has'),
                  serves_one v u ref ref' is_serving other,
                )
                | inl is ↦
                    let sent : resource_of (ok resp) ≡ some x = rw is at has' in
                    let answers_now : answer lib s.cache (requests v) ref ≡ some x =
                      ap resource_of resolved ∙ sent in
                    let now_is : answer lib s.cache (requests v) ref ≡ some y =
                      rw (same_watch v u e, ref_eq→eq ref ref' is) answered in
                    let both : some y ≡ some x = sym now_is ∙ answers_now in inl (cc)
              ]
        ]

  pub respond_failed-IsFollowed :
      (v : ℕ) (ref : ResourceRef) (e : Error)
      → s.phase v ≡ serving ref
      → config_resolver lib s.cache (change_request (config_resolver lib s.cache) (requests v) ref)
        ≡ err e
      → IsFollowed lib requests (record s { phase = at_watch v waiting s.phase })
  unfolding answer
  respond_failed-IsFollowed v ref x is_serving failed =
      waits-IsFollowed v s.content (rw is_serving refl) λ u ref' x y asks canonical has answered.
        elim (Bool-cases (ref_eq ref ref')) [
          | inr other ↦ inr (has, serves_one v u ref ref' is_serving other)
          | inl is ↦ elim (Bool-cases (v == u)) [
            | inr e ↦ inr (has, λ e'. absurd (let both : true ≡ false = sym e' ∙ e in cc))
            | inl e ↦
                let now_is : answer lib s.cache (requests v) ref ≡ some y =
                  rw (same_watch v u e, ref_eq→eq ref ref' is) answered in
                absurd (let both : none ≡ some y = sym (ap resource_of failed) ∙ now_is in cc)
          ]
        ]
