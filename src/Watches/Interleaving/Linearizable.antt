-- ===== src/Watches/Interleaving/Linearizable.antt =====
-- gtc/watcher.go: no subscription is lost, however the goroutines interleave.
use grpc_traffic_controller.Prelude.{
  ℕ, ◌≡◌, refl, sym, ap, ◌∙◌, inl, inr, List, ◌∷◌, Option, some, none, Bool, ◌&&◌, ◌||◌, not,
  Bool-cases, arith, ◌==◌,
}
use grpc_traffic_controller.Watches.{
  ResourceRef, ref_eq, Watches, get_resource_watchers, find_address, create_resource_watchers,
  contains, add_watcher, stop_watch, update_at, notify_changed,
}
use grpc_traffic_controller.Watches.Laws.{contains-add_watcher, contains-stop_watch}
use grpc_traffic_controller.Watches.Validity.{
  IsValid, new_watches-IsValid, is_watching, update_at-IsValid, notify_changed-update_at,
  create-IsCreated,
}
use grpc_traffic_controller.Watches.Interleaving.{
  Phase, idle, looking, creating, adding, looking_to_stop, stopping, System, moved, Label, silent,
  subscribed, unsubscribed, Step, begin_watch, look_hit, look_miss, create, add, begin_stop,
  stop_hit, stop_miss, stop, Run, begin, next, watches_after,
}

-- The address that a goroutine holds, with the resource it is for.
abbrev held : Phase → Option (ResourceRef × ℕ)
held idle = none
held (looking ref) = none
held (creating ref) = none
held (adding ref a) = some (ref, a)
held (looking_to_stop ref) = none
held (stopping ref a) = some (ref, a)

abbrev HoldsAddress : Watches → Phase → Type 0
HoldsAddress ws p =
    (ref : ResourceRef) (a : ℕ) → held p ≡ some (ref, a) → get_resource_watchers ws ref ≡ some a

record IsSound (s : System) : Type 0 where
  valid : IsValid s.watches
  addresses : (v : ℕ) → HoldsAddress s.watches (s.phase v)

moved-IsSound :
    (s : System) (v : ℕ) (p : Phase) (ws : Watches)
    → IsSound s
    → IsValid ws
    → ((ref : ResourceRef) (a : ℕ)
        → get_resource_watchers s.watches ref ≡ some a
        → get_resource_watchers ws ref ≡ some a)
    → HoldsAddress ws p
    → IsSound (moved s v p ws)
moved-IsSound s v p ws sound valid same holds = record {
  valid = valid;
  addresses = λ u ref a e. elim (Bool-cases (v == u)) [
    | inl this ↦ holds ref a (rw this at e)
    | inr other ↦ same ref a (sound.addresses u ref a (rw other at e))
  ];
}

held_now :
    (s : System) (v : ℕ) (p : Phase) (ref : ResourceRef) (a : ℕ)
    → IsSound s
    → s.phase v ≡ p
    → held p ≡ some (ref, a)
    → get_resource_watchers s.watches ref ≡ some a
held_now s v p ref a sound at holds = sound.addresses v ref a (rw at holds)

pair_of :
    {ref r : ResourceRef} {a b : ℕ} (ws : Watches)
    → get_resource_watchers ws ref ≡ some a
    → ◌≡◌ {A = Option (ResourceRef × ℕ)} (some (ref, a)) (some (r, b))
    → get_resource_watchers ws r ≡ some b
pair_of {ref} {r} {a} {b} ws found e =
    let same_ref : ref ≡ r = cc in
    let same_address : a ≡ b = cc in rw (← same_ref, ← same_address) found

Step-IsSound : {s s' : System} {l : Label} → Step s l s' → IsSound s → IsSound s'
unfolding get_resource_watchers
Step-IsSound {s} (begin_watch v ref at) sound =
    moved-IsSound s v _ s.watches sound sound.valid (λ r a e. e) (λ r a e. absurd (cc))
Step-IsSound {s} (look_hit v a ref at found) sound =
    moved-IsSound s v _ s.watches sound sound.valid (λ r a e. e)
      (λ r b e. pair_of s.watches found e)
Step-IsSound {s} (look_miss v ref at missing) sound =
    moved-IsSound s v _ s.watches sound sound.valid (λ r a e. e) (λ r a e. absurd (cc))
Step-IsSound {s} (create v ref at) sound =
    let created = create-IsCreated s.watches ref sound.valid in
    moved-IsSound s v _ _ sound created.valid created.same_addresses
      (λ r b e. pair_of (create_resource_watchers s.watches ref).1 created.found e)
Step-IsSound {s} (add v a ref at) sound =
    moved-IsSound s v idle (update_at s.watches a (add_watcher v)) sound
      (update_at-IsValid s.watches a (add_watcher v) sound.valid) (λ r a e. e)
      (λ r a e. absurd (cc))
Step-IsSound {s} (begin_stop v ref at) sound =
    moved-IsSound s v _ s.watches sound sound.valid (λ r a e. e) (λ r a e. absurd (cc))
Step-IsSound {s} (stop_hit v a ref at found) sound =
    moved-IsSound s v _ s.watches sound sound.valid (λ r a e. e)
      (λ r b e. pair_of s.watches found e)
Step-IsSound {s} (stop_miss v ref at missing) sound =
    moved-IsSound s v _ s.watches sound sound.valid (λ r a e. e) (λ r a e. absurd (cc))
Step-IsSound {s} (stop v a ref at) sound =
    moved-IsSound s v idle (update_at s.watches a (stop_watch v)) sound
      (update_at-IsValid s.watches a (stop_watch v) sound.valid) (λ r a e. e) (λ r a e. absurd (cc))

Run-IsSound : {labels : List Label} {s : System} → Run labels s → IsSound s
Run-IsSound begin = record { valid = new_watches-IsValid; addresses = λ v ref a e. absurd (cc) }
Run-IsSound (next run step) = Step-IsSound step (Run-IsSound run)

-- Whether a watcher watches a resource after a step.
abbrev after : Label → ℕ → ResourceRef → Bool → Bool
after silent v ref b = b
after (subscribed u r) v ref b = b || (u == v && ref_eq r ref)
after (unsubscribed u r) v ref b = b && not (u == v && ref_eq r ref)

is_watching-update_add :
    (ws : Watches) (u v a : ℕ) (r ref : ResourceRef)
    → IsValid ws
    → get_resource_watchers ws r ≡ some a
    → is_watching v ref (update_at ws a (add_watcher u))
      ≡ (is_watching v ref ws || (u == v && ref_eq r ref))
is_watching-update_add ws u v a r ref valid found =
    rw (notify_changed-update_at ws r ref a (add_watcher u) valid found)
      (elim (Bool-cases (ref_eq r ref)) [
        | inl e ↦ rw (e, contains-add_watcher v u (notify_changed ws ref)) (ground arith)
        | inr e ↦ rw e (ground arith)
      ])

is_watching-update_stop :
    (ws : Watches) (u v a : ℕ) (r ref : ResourceRef)
    → IsValid ws
    → get_resource_watchers ws r ≡ some a
    → is_watching v ref (update_at ws a (stop_watch u))
      ≡ (is_watching v ref ws && not (u == v && ref_eq r ref))
is_watching-update_stop ws u v a r ref valid found =
    rw (notify_changed-update_at ws r ref a (stop_watch u) valid found)
      (elim (Bool-cases (ref_eq r ref)) [
        | inl e ↦ rw (e, contains-stop_watch v u (notify_changed ws ref)) (ground arith)
        | inr e ↦ rw e (ground arith)
      ])

is_watching-Step :
    {s s' : System} {l : Label} (v : ℕ) (ref : ResourceRef)
    → Step s l s'
    → IsSound s
    → is_watching v ref s'.watches ≡ after l v ref (is_watching v ref s.watches)
is_watching-Step v ref (begin_watch u r at) sound = refl
is_watching-Step v ref (look_hit u a r at found) sound = refl
is_watching-Step v ref (look_miss u r at missing) sound = refl
is_watching-Step {s} v ref (create u r at) sound =
    ap (contains v) ((create-IsCreated s.watches r sound.valid).kept ref)
is_watching-Step {s} v ref (add u a r at) sound =
    is_watching-update_add s.watches u v a r ref sound.valid
      (held_now s u (adding r a) r a sound at refl)
is_watching-Step v ref (begin_stop u r at) sound = refl
is_watching-Step v ref (stop_hit u a r at found) sound = refl
is_watching-Step v ref (stop_miss u r at missing) sound = refl
is_watching-Step {s} v ref (stop u a r at) sound =
    is_watching-update_stop s.watches u v a r ref sound.valid
      (held_now s u (stopping r a) r a sound at refl)

watches_after-after :
    (l : Label) (labels : List Label) (v : ℕ) (ref : ResourceRef)
    → watches_after (l ∷ labels) v ref ≡ after l v ref (watches_after labels v ref)
unfolding watches_after
watches_after-after silent labels v ref = refl
watches_after-after (subscribed u r) labels v ref = refl
watches_after-after (unsubscribed u r) labels v ref = refl

-- However the calls of the goroutines interleave, a watcher is told of the changes of a resource exactly
-- when it has added itself to the resource's set and has not taken itself off since: no subscription is
-- lost to a set that another goroutine makes at the same time.
pub is_watching-Run :
    {labels : List Label} {s : System} (v : ℕ) (ref : ResourceRef)
    → Run labels s
    → is_watching v ref s.watches ≡ watches_after labels v ref
unfolding watches_after notify_changed get_resource_watchers find_address contains
is_watching-Run v ref begin = refl
is_watching-Run v ref (next {labels} {s} {s'} {l} run step) =
    is_watching-Step v ref step (Run-IsSound run)
    ∙ ap (after l v ref) (is_watching-Run v ref run)
    ∙ sym (watches_after-after l labels v ref)
