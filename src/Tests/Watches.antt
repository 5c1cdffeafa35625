-- ===== src/Tests/Watches.antt =====
-- Two watchers of one resource.
use grpc_traffic_controller.Prelude.{◌≡◌, refl, codes, List, [], ◌∷◌, none}
use grpc_traffic_controller.Watches.{
  ResourceRef, Watches, Watcher, new_watches, new_watcher, watch, get_resource_watchers,
  create_resource_watchers, add_watcher, update_at,
}
use grpc_traffic_controller.Watches.Validity.{IsValid, new_watches-IsValid, is_watching}
use grpc_traffic_controller.Watches.Subscription.{watch-IsValid}
use grpc_traffic_controller.Watches.Interleaving.{
  System, initial, moved, idle, looking, creating, adding, Label, silent, subscribed, begin_watch,
  look_miss, create, add, Run, begin, next, watches_after,
}
use grpc_traffic_controller.Watches.Interleaving.Linearizable.{is_watching-Run}

abbrev pub ref : ResourceRef
ref = record { type_url = codes "Cluster"; resource_name = codes "default/echo/route/0/backend/1" }

abbrev after_watch : Watcher × Watches
after_watch = watch ref (new_watcher 1, new_watches)

after_watch-IsValid : IsValid after_watch.1
after_watch-IsValid = watch-IsValid ref (new_watcher 1) new_watches new_watches-IsValid

-- Both watchers look before either creates the set.
abbrev looked : System
looked =
    moved
      (moved (moved (moved initial 1 (looking ref) new_watches) 2 (looking ref) new_watches) 1
        (creating ref) new_watches)
      2 (creating ref) new_watches

abbrev first_made : Watches
first_made = (create_resource_watchers new_watches ref).1

abbrev both_made : Watches
both_made = (create_resource_watchers first_made ref).1

abbrev created : System
created =
    moved (moved looked 1 (adding ref (create_resource_watchers new_watches ref).0) first_made) 2
      (adding ref (create_resource_watchers first_made ref).0) both_made

abbrev first_added : Watches
first_added = update_at both_made (create_resource_watchers new_watches ref).0 (add_watcher 1)

abbrev added : System
added =
    moved (moved created 1 idle first_added) 2 idle
      (update_at first_added (create_resource_watchers first_made ref).0 (add_watcher 2))

abbrev labels : List Label
labels =
    subscribed 2 ref ∷ subscribed 1 ref ∷ silent ∷ silent ∷ silent ∷ silent ∷ silent ∷ silent ∷ []

nobody : get_resource_watchers new_watches ref ≡ none
unfolding get_resource_watchers
nobody = refl

run : Run labels added
run =
    next
      (next
        (next
          (next
            (next
              (next (next (next begin (begin_watch 1 ref refl)) (begin_watch 2 ref refl))
                (look_miss 1 ref refl nobody))
              (look_miss 2 ref refl nobody))
            (create 1 ref refl))
          (create 2 ref refl))
        (add 1 (create_resource_watchers new_watches ref).0 ref refl))
      (add 2 (create_resource_watchers first_made ref).0 ref refl)

is_watching-Run_example : is_watching 1 ref added.watches ≡ watches_after labels 1 ref
is_watching-Run_example = is_watching-Run 1 ref run
