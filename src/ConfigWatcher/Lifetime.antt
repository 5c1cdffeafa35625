-- ===== src/ConfigWatcher/Lifetime.antt =====
-- gtc/cache.go: the subscriptions of a watch, from its start to its end.
use grpc_traffic_controller.Prelude.{
  ℕ, ◌≡◌, refl, ◌∙◌, Text, List, [], ◌∷◌, Bool, ◌&&◌, ◌||◌, not, text_eq, arith, ◌==◌,
}
use grpc_traffic_controller.Watches.{ResourceRef, ref_eq, Watcher, Watches, new_watcher, watch}
use grpc_traffic_controller.Watches.Validity.{IsValid, is_watching}
use grpc_traffic_controller.Watches.Subscription.{
  watch-IsValid, is_watching-watch, keeps, number-watch, keeps-watch, is_watching-release,
}
use grpc_traffic_controller.ConfigWatcher.{Request, is_known, watch_names, start_watch, end_watch}

-- Whether a request asks for a resource.
abbrev pub asks_for : Request → ResourceRef → Bool
asks_for req ref =
    text_eq req.type_url ref.type_url && is_known ref.resource_name req.resource_names

pub record HasWatched (type_url : Text) (names : List Text) (before after : Watcher × Watches)
    : Type 0 where
  pub valid : IsValid after.1
  pub same_number : after.0.number ≡ before.0.number
  pub added :
      (v : ℕ) (ref : ResourceRef)
      → is_watching v ref after.1 ≡ (
          is_watching v ref before.1
          || (before.0.number == v
              && (text_eq type_url ref.type_url && is_known ref.resource_name names)))
  pub kept :
      (ref : ResourceRef)
      → keeps ref after.0.watched_resources ≡ (
          keeps ref before.0.watched_resources
          || (text_eq type_url ref.type_url && is_known ref.resource_name names))

pub ref_eq-named :
    (type_url n : Text) (ref : ResourceRef)
    → ref_eq (record { type_url = type_url; resource_name = n }) ref
      ≡ (text_eq type_url ref.type_url && text_eq n ref.resource_name)
unfolding ref_eq
ref_eq-named type_url n ref = refl

either_name :
    (b was t n k : Bool)
    → ((was || (b && (t && n))) || (b && (t && k))) ≡ (was || (b && (t && (n || k))))
either_name b was t n k = ground arith

either_kept : (was t n k : Bool) → (((t && n) || was) || (t && k)) ≡ (was || (t && (n || k)))
either_kept was t n k = ground arith

watch_names-HasWatched :
    (type_url : Text) (names : List Text) (w : Watcher) (ws : Watches)
    → IsValid ws
    → HasWatched type_url names (w, ws) (watch_names type_url names (w, ws))
unfolding watch_names is_known
watch_names-HasWatched type_url [] w ws valid = record {
  valid = valid;
  same_number = refl;
  added = λ v ref. ground arith;
  kept = λ ref. ground arith;
}
watch_names-HasWatched type_url (n ∷ ns) w ws valid =
    let first : ResourceRef = record { type_url = type_url; resource_name = n } in
    let rest =
      watch_names-HasWatched type_url ns (watch first (w, ws)).0 (watch first (w, ws)).1
        (watch-IsValid first w ws valid) in
    record {
      valid = rest.valid;
      same_number = rest.same_number ∙ number-watch first w ws;
      added = λ v ref.
          rw
            (
              rest.added v ref,
              number-watch first w ws,
              is_watching-watch first ref w ws v valid,
              ref_eq-named type_url n ref,
            )
            (either_name (w.number == v) (is_watching v ref ws) (text_eq type_url ref.type_url)
              (text_eq n ref.resource_name) (is_known ref.resource_name ns));
      kept = λ ref.
          rw (rest.kept ref, keeps-watch first ref w ws, ref_eq-named type_url n ref)
            (either_kept (keeps ref w.watched_resources) (text_eq type_url ref.type_url)
              (text_eq n ref.resource_name) (is_known ref.resource_name ns));
    }

-- When a watch has started, its watcher watches exactly the resources that the request asks for, besides
-- what it watched before, and nobody else's subscriptions have changed.
pub is_watching-start_watch :
    (number : ℕ) (req : Request) (ws : Watches) (v : ℕ) (ref : ResourceRef)
    → IsValid ws
    → is_watching v ref (start_watch number req ws).1
      ≡ (is_watching v ref ws || (number == v && asks_for req ref))
unfolding start_watch
is_watching-start_watch number req ws v ref valid =
    (watch_names-HasWatched req.type_url req.resource_names (new_watcher number) ws valid).added v
      ref

pub start_watch-IsValid :
    (number : ℕ) (req : Request) (ws : Watches) → IsValid ws → IsValid (start_watch number req ws).1
unfolding start_watch
start_watch-IsValid number req ws valid =
    (watch_names-HasWatched req.type_url req.resource_names (new_watcher number) ws valid).valid

pub number-start_watch :
    (number : ℕ) (req : Request) (ws : Watches)
    → IsValid ws
    → (start_watch number req ws).0.number ≡ number
unfolding start_watch
number-start_watch number req ws valid =
    (watch_names-HasWatched req.type_url req.resource_names (new_watcher number) ws
      valid).same_number

pub keeps-start_watch :
    (number : ℕ) (req : Request) (ws : Watches) (ref : ResourceRef)
    → IsValid ws
    → keeps ref (start_watch number req ws).0.watched_resources ≡ asks_for req ref
unfolding start_watch keeps
keeps-start_watch number req ws ref valid =
    (watch_names-HasWatched req.type_url req.resource_names (new_watcher number) ws valid).kept ref

-- When a watch ends, whatever the watches have become since it started, its watcher watches none of the
-- resources that its request asks for, and nobody else's subscriptions have changed.
pub is_watching-end_watch :
    (number : ℕ) (req : Request) (ws later : Watches) (v : ℕ) (ref : ResourceRef)
    → IsValid ws
    → IsValid later
    → is_watching v ref (end_watch ((start_watch number req ws).0, later)).1
      ≡ (is_watching v ref later && not (number == v && asks_for req ref))
unfolding start_watch keeps
is_watching-end_watch number req ws later v ref valid valid' =
    let started =
      watch_names-HasWatched req.type_url req.resource_names (new_watcher number) ws valid in
    rw
      (
        is_watching-release (start_watch number req ws).0 ref later v valid',
        started.same_number,
        started.kept ref,
      )
      refl
