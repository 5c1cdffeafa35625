-- ===== src/Watches/Subscription.antt =====
-- gtc/watcher.go: what each operation on the watches does to who watches what.
use grpc_traffic_controller.Prelude.{
  ℕ, ◌≡◌, refl, inl, inr, List, [], ◌∷◌, ◌++◌, Bool, false, ◌&&◌, ◌||◌, not, Bool-cases,
  Option-cases, arith, ◌==◌,
}
use grpc_traffic_controller.Watches.{
  ResourceRef, ref_eq, Watches, get_resource_watchers, get_or_create_resource_watchers, add_watcher,
  stop_watch, Watcher, watch, stop_one, stop_all, release, notify_changed,
}
use grpc_traffic_controller.Watches.Laws.{ref_eq→eq, contains-add_watcher, contains-stop_watch}
use grpc_traffic_controller.Watches.Validity.{
  IsValid, is_watching, notify_changed-none, update_at-IsValid, notify_changed-update_at,
  get_or_create-IsCreated,
}

-- Watching keeps the watches valid.
pub watch-IsValid :
    (ref : ResourceRef) (w : Watcher) (ws : Watches) → IsValid ws → IsValid (watch ref (w, ws)).1
unfolding watch
watch-IsValid ref w ws valid =
    let created = get_or_create-IsCreated ws ref valid in
    update_at-IsValid (get_or_create_resource_watchers ws ref).1
      (get_or_create_resource_watchers ws ref).0 (add_watcher w.number) created.valid

-- After a call of watch, a watcher watches a resource if it did before, or if it is the caller and the
-- resource is the one that it asks for: no other entry changes.
pub is_watching-watch :
    (ref ref' : ResourceRef) (w : Watcher) (ws : Watches) (v : ℕ)
    → IsValid ws
    → is_watching v ref' (watch ref (w, ws)).1
      ≡ (is_watching v ref' ws || (w.number == v && ref_eq ref ref'))
unfolding watch
is_watching-watch ref ref' w ws v valid =
    let created = get_or_create-IsCreated ws ref valid in
    let ws' = (get_or_create_resource_watchers ws ref).1 in
    let a = (get_or_create_resource_watchers ws ref).0 in
    rw
      (
        notify_changed-update_at ws' ref ref' a (add_watcher w.number) created.valid created.found,
        created.kept ref',
      )
      (elim (Bool-cases (ref_eq ref ref')) [
        | inl e ↦ rw (e, contains-add_watcher v w.number (notify_changed ws ref')) (ground arith)
        | inr e ↦ rw e (ground arith)
      ])

pub stop_one-IsValid :
    (n : ℕ) (ref : ResourceRef) (ws : Watches) → IsValid ws → IsValid (stop_one n ref ws)
unfolding stop_one
stop_one-IsValid n ref ws valid = elim (Option-cases (get_resource_watchers ws ref)) [
  | inl missing ↦ rw (stop_one, missing) valid
  | inr (a, found) ↦ rw (stop_one, found) (update_at-IsValid ws a (stop_watch n) valid)
]

-- Stopping one watch takes its watcher off one resource.
pub is_watching-stop_one :
    (n : ℕ) (ref ref' : ResourceRef) (ws : Watches) (v : ℕ)
    → IsValid ws
    → is_watching v ref' (stop_one n ref ws)
      ≡ (is_watching v ref' ws && not (n == v && ref_eq ref ref'))
unfolding stop_one
is_watching-stop_one n ref ref' ws v valid = elim (Option-cases (get_resource_watchers ws ref)) [
  | inr (a, found) ↦
      rw (stop_one, found, notify_changed-update_at ws ref ref' a (stop_watch n) valid found)
        (elim (Bool-cases (ref_eq ref ref')) [
          | inl e ↦ rw (e, contains-stop_watch v n (notify_changed ws ref')) (ground arith)
          | inr e ↦ rw e (ground arith)
        ])
  | inl missing ↦
      rw (stop_one, missing)
        (elim (Bool-cases (ref_eq ref ref')) [
          | inl e ↦
              let gone = notify_changed-none ws ref missing in
              rw (← ref_eq→eq ref ref' e, gone) refl
          | inr e ↦ rw e (ground arith)
        ])
]

-- A member of the list of resources that a watcher keeps.
unfoldable pub keeps : ResourceRef → List ResourceRef → Bool
keeps ref [] = false
keeps ref (r ∷ refs) = ref_eq r ref || keeps ref refs

-- A list without one of its resources.
pub keeps-take :
    (r ref : ResourceRef) (before after : List ResourceRef)
    → keeps r (before ++ ref ∷ after) ≡ (ref_eq ref r || keeps r (before ++ after))
unfolding keeps
keeps-take r ref [] after = refl
keeps-take r ref (x ∷ before) after =
    let later = keeps-take r ref before after in rw later (ground arith)

pub stop_all-IsValid :
    (n : ℕ) (refs : List ResourceRef) (ws : Watches) → IsValid ws → IsValid (stop_all n refs ws)
unfolding stop_all
stop_all-IsValid n [] ws valid = valid
stop_all-IsValid n (ref ∷ refs) ws valid =
    stop_all-IsValid n refs (stop_one n ref ws) (stop_one-IsValid n ref ws valid)

-- Stopping a watcher on the resources of a list takes it off these, and changes no other entry.
pub is_watching-stop_all :
    (n : ℕ) (refs : List ResourceRef) (ref' : ResourceRef) (ws : Watches) (v : ℕ)
    → IsValid ws
    → is_watching v ref' (stop_all n refs ws)
      ≡ (is_watching v ref' ws && not (n == v && keeps ref' refs))
unfolding stop_all keeps
is_watching-stop_all n [] ref' ws v valid = ground arith
is_watching-stop_all n (ref ∷ refs) ref' ws v valid =
    rw
      (
        is_watching-stop_all n refs ref' (stop_one n ref ws) v (stop_one-IsValid n ref ws valid),
        is_watching-stop_one n ref ref' ws v valid,
      )
      (ground arith)

pub number-watch :
    (ref : ResourceRef) (w : Watcher) (ws : Watches) → (watch ref (w, ws)).0.number ≡ w.number
unfolding watch
number-watch ref w ws = refl

pub keeps-watch :
    (ref ref' : ResourceRef) (w : Watcher) (ws : Watches)
    → keeps ref' (watch ref (w, ws)).0.watched_resources
      ≡ (ref_eq ref ref' || keeps ref' w.watched_resources)
unfolding watch keeps
keeps-watch ref ref' w ws = refl

-- Releasing a watcher takes it off the resources that it keeps.
pub is_watching-release :
    (w : Watcher) (ref : ResourceRef) (ws : Watches) (v : ℕ)
    → IsValid ws
    → is_watching v ref (release (w, ws)).1
      ≡ (is_watching v ref ws && not (w.number == v && keeps ref w.watched_resources))
unfolding release
is_watching-release w ref ws v valid =
    is_watching-stop_all w.number w.watched_resources ref ws v valid

pub release-IsValid : (w : Watcher) (ws : Watches) → IsValid ws → IsValid (release (w, ws)).1
unfolding release
release-IsValid w ws valid = stop_all-IsValid w.number w.watched_resources ws valid
