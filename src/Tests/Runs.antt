-- ===== src/Tests/Runs.antt =====
-- A run of the whole: a watch starts, its listener changes, and the news reaches the watch.
use grpc_traffic_controller.Prelude.{
  ℕ, ◌≡◌, ◌≢◌, ◌⊎◌, refl, sym, ◌∙◌, ap, Text, codes, List, [], ◌∷◌, ◌++◌, Option, none, some, pos,
  In, here, there, inl, inr, Bool, true, false, ◌&&◌, ◌||◌, if◌then◌else◌, text_eq, text_eq→eq,
  Bool-cases, arith, ◌==◌,
}
use mathlib.Core.Path.{subst}
use grpc_traffic_controller.Api.{GrpcListener}
use grpc_traffic_controller.Errors.{ok, panic}
use grpc_traffic_controller.Names.{parse_backend_name}
use grpc_traffic_controller.Resources.{ResolveResponse}
use grpc_traffic_controller.Watches.{
  ResourceRef, watch, new_watches, new_watcher, Watches, notify_changed,
}
use grpc_traffic_controller.Watches.Validity.{is_watching}
use grpc_traffic_controller.Notifications.{ObjectMeta, handle_listener, handle_slice}
use grpc_traffic_controller.Propagation.Effects.{&&-true}
use grpc_traffic_controller.ConfigWatcher.{
  Request, has_resource_diff, is_known, config_resolver, first_request, change_request,
}
use grpc_traffic_controller.ConfigWatcher.Lifetime.{asks_for}
use grpc_traffic_controller.Propagation.{Event, listener_changed, slice_changed, handle_event}
use grpc_traffic_controller.Propagation.System.{
  System, initial, change, handle, notify, start, subscribe, begin_serving, subscribing, releasing,
  unborn, first, deliver, respond, waiting, starting, serving, at_watch, added, first_content,
  later_content, first_phase, start_sends, Run, rest, then_step, Reachable, reach, is_live,
}
use grpc_traffic_controller.Propagation.Pending.{IsFollowed}
use grpc_traffic_controller.Propagation.Freshness.{
  IsSettled, settled_is_fresh, Reachable-IsFollowed,
}
use grpc_traffic_controller.Propagation.Asked.{is_watching_iff, told_only_asked}
use grpc_traffic_controller.Propagation.Waiting.{NeverPanics, Settles}
use grpc_traffic_controller.Propagation.Draining.{running-Settles}
use grpc_traffic_controller.Tests.Propagation.{
  lib, holding, before, after, changes, place, its_listener, its_endpoints, requests, known,
  place-IsCanonical, encoded, response, resolves_before, resolves_after, answer-after, announced,
  handles, holding-IsCache,
}

-- The states of a run: the watch starts and gets its first response, the listener changes, and the news
-- reaches the watch.
abbrev s_0 : System
s_0 = record (initial (holding before)) {
  watcher = at_watch 1 (new_watcher 1) new_watcher;
  phase = at_watch 1 (subscribing (place.resource_name ∷ [])) (initial (holding before)).phase;
}

abbrev s_s : System
s_s = record s_0 {
  watches = (watch place (new_watcher 1, new_watches)).1;
  watcher = at_watch 1 (watch place (new_watcher 1, new_watches)).0 s_0.watcher;
  phase = at_watch 1 (subscribing []) s_0.phase;
}

abbrev s_1 : System
s_1 = record s_s {
  phase = at_watch 1 (first_phase lib requests known 1) s_s.phase;
  content = at_watch 1 (λ ref. none) s_s.content;
}

abbrev s_2 : System
s_2 = record s_1 {
  phase = at_watch 1 waiting s_1.phase;
  content = at_watch 1 (first_content (requests 1) (response (codes "round"))) s_1.content;
}

abbrev s_3 : System
s_3 = record s_2 { cache = holding after; queue = listener_changed after ∷ [] }

abbrev s_4 : System
s_4 = record s_3 { queue = []; announcing = announced }

abbrev notified : System → List ResourceRef → ResourceRef → System
notified s others ref = record s {
  announcing = others;
  sends = start_sends ref (notify_changed s.watches ref) ++ s.sends;
}

abbrev s_5 : System
s_5 = notified s_4 (place ∷ its_endpoints ∷ []) its_listener

abbrev s_6 : System
s_6 = notified s_5 (its_endpoints ∷ []) place

abbrev s_7 : System
s_7 = notified s_6 [] its_endpoints

abbrev s_8 : System
s_8 = record s_7 { sends = []; phase = at_watch 1 (serving place) s_7.phase }

abbrev s_9 : System
s_9 = record s_8 {
  phase = at_watch 1 waiting s_8.phase;
  content = at_watch 1 (later_content place (response (codes "ring")) (s_8.content 1)) s_8.content;
}

starts : s_1.phase 1 ≡ starting
unfolding grpc_traffic_controller.ConfigWatcher.has_resource_diff
starts = refl

Run-to_3 : Run lib requests known (initial (holding before)) s_3
Run-to_3 =
    then_step
      (then_step
        (then_step
          (then_step (then_step rest (start 1 refl)) (subscribe 1 place.resource_name [] refl))
          (begin_serving 1 refl))
        (first 1 (response (codes "round")) starts resolves_before))
      (change (holding after) (listener_changed after) (listener_changed after ∷ []) changes
        (holding-IsCache after) added)

reach_3 : Reachable lib requests known s_3
reach_3 = reach (holding before) (holding-IsCache before) Run-to_3

sent : s_7.sends ≡ (1, place) ∷ []
unfolding notify_changed watch grpc_traffic_controller.Watches.ref_eq text_eq
sent = refl

Run-to_6 : Run lib requests known (initial (holding before)) s_6
Run-to_6 =
    then_step
      (then_step (then_step Run-to_3 (handle [] [] (listener_changed after) announced refl handles))
        (notify [] (place ∷ its_endpoints ∷ []) its_listener refl))
      (notify [] (its_endpoints ∷ []) place refl)

reach_6 : Reachable lib requests known s_6
reach_6 = reach (holding before) (holding-IsCache before) Run-to_6

reach_9 : Reachable lib requests known s_9
reach_9 = reach (holding before) (holding-IsCache before) (
    then_step
      (then_step (then_step Run-to_6 (notify [] [] its_endpoints refl))
        (deliver [] [] 1 place sent refl))
      (respond 1 place (response (codes "ring")) refl resolves_after))

asks : asks_for (requests 1) place ≡ true
unfolding grpc_traffic_controller.Prelude.text_eq grpc_traffic_controller.ConfigWatcher.is_known
asks = refl

settled : IsSettled lib requests known s_9 1
settled = record {
  no_event = refl;
  no_announcement = refl;
  no_send = λ ref m. elim m [ ];
  waits = refl;
}

has_ring : s_9.content 1 place ≡ some (encoded (codes "ring"))
unfolding grpc_traffic_controller.Watches.ref_eq text_eq
has_ring = refl

settled_is_fresh_example : encoded (codes "ring") ≡ encoded (codes "ring")
settled_is_fresh_example =
    settled_is_fresh lib requests known s_9 1 place (encoded (codes "ring"))
      (encoded (codes "ring")) reach_9 settled asks place-IsCanonical has_ring answer-after
      (λ e m covered. elim m [ ])

Reachable-IsFollowed_example : IsFollowed lib requests s_3
Reachable-IsFollowed_example = Reachable-IsFollowed lib requests known s_3 reach_3

not_joining : (v : ℕ) (names : List Text) → s_3.phase v ≡ subscribing names → ⊥
not_joining v names e = elim (Bool-cases (1 == v)) [
  | inl is ↦ let never : waiting ≡ subscribing names = rw is at e in cc
  | inr isnt ↦ let never : unborn ≡ subscribing names = rw isnt at e in cc
]

not_leaving : (v : ℕ) (refs : List ResourceRef) → s_3.phase v ≡ releasing refs → ⊥
not_leaving v refs e = elim (Bool-cases (1 == v)) [
  | inl is ↦ let never : waiting ≡ releasing refs = rw is at e in cc
  | inr isnt ↦ let never : unborn ≡ releasing refs = rw isnt at e in cc
]

is_watching_iff_example :
    is_watching 1 place s_3.watches ≡ (is_live (s_3.phase 1) && asks_for (requests 1) place)
is_watching_iff_example =
    is_watching_iff lib requests known s_3 1 place reach_3 (not_joining 1) (not_leaving 1)

is_sent : In (1, place) s_6.sends
unfolding notify_changed watch grpc_traffic_controller.Watches.ref_eq text_eq
is_sent = here refl

told_only_asked_example : asks_for (requests 1) place ≡ true
told_only_asked_example = told_only_asked lib requests known s_6 1 place reach_6 (inl is_sent)

resolves_first_after :
    config_resolver lib
      (holding after)
      (first_request (config_resolver lib (holding after)) (requests 1))
    ≡ ok (response (codes "ring"))
unfolding config_resolver text_eq grpc_traffic_controller.Clusters.resolve_clusters
    grpc_traffic_controller.Resources.resolve_names parse_backend_name
    grpc_traffic_controller.Prelude.split grpc_traffic_controller.Go.Strconv.atoi
    grpc_traffic_controller.Clusters.find_backend_spec
    grpc_traffic_controller.Resolver.encode_resource grpc_traffic_controller.Clusters.make_cluster
resolves_first_after = refl

handles_slice :
    (obj : ObjectMeta)
    → (refs : List ResourceRef) × (handle_event lib (holding after) (slice_changed obj) ≡ ok refs)
unfolding handle_event handle_slice
handles_slice obj = (_, refl)

handles_listener :
    (l : GrpcListener)
    → handle_event lib (holding after) (listener_changed l) ≡ ok (handle_listener lib (some l))
unfolding handle_event
handles_listener l = refl

only_asks : (ref : ResourceRef) → asks_for (requests 1) ref ≡ true → place ≡ ref
unfolding is_known
only_asks ref asked =
    let (typed, known_name) =
      &&-true (text_eq place.type_url ref.type_url)
        (is_known ref.resource_name (place.resource_name ∷ [])) asked in
    let named : text_eq place.resource_name ref.resource_name ≡ true = ground arith in
    let one = text_eq→eq place.type_url ref.type_url typed in
    let two = text_eq→eq place.resource_name ref.resource_name named in
    λ i. record { type_url = one i; resource_name = two i }

handles_all :
    (e : Event) → (refs : List ResourceRef) × (handle_event lib (holding after) e ≡ ok refs)
handles_all (listener_changed l) = (handle_listener lib (some l), handles_listener l)
handles_all (slice_changed obj) = handles_slice obj

never_panics :
    (ref : ResourceRef)
    → place ≡ ref
    → config_resolver lib
        (holding after)
        (change_request (config_resolver lib (holding after)) (requests 1) ref)
      ≢ panic
never_panics ref same e =
    let made =
      subst
        (λ r.
          config_resolver lib (holding after)
            (change_request (config_resolver lib (holding after)) (requests 1) r)
          ≡ ok (response (codes "ring")))
        same resolves_after in
    let never : ok (response (codes "ring")) ≡ panic = sym made ∙ e in cc

calm : NeverPanics lib requests known (holding after) 1
calm = record {
  handles = handles_all;
  resolves_first =
      λ e. let never : ok (response (codes "ring")) ≡ panic = sym resolves_first_after ∙ e in cc;
  resolves = λ ref asked. never_panics ref (only_asks ref asked);
}

lives : is_live (s_3.phase 1) ≡ true
lives = refl

running-Settles_example : Settles lib requests known s_3 1
running-Settles_example = running-Settles lib requests known s_3 1 reach_3 lives calm
