-- ===== src/Watches/Interleaving.antt =====
-- gtc/watcher.go: calls of watch and of stopAllWatches by any number of goroutines, interleaved at the
-- locks: the look of getResourceWatchers, the second look and the write of getOrCreateResourceWatchers,
-- and the change of one set are single steps.
pub mod Linearizable
use grpc_traffic_controller.Prelude.{
  ℕ, ◌≡◌, List, [], ◌∷◌, some, none, Bool, false, ◌&&◌, ◌||◌, not, if◌then◌else◌, ◌==◌,
}
use grpc_traffic_controller.Watches.{
  ResourceRef, ref_eq, Watches, new_watches, get_resource_watchers, create_resource_watchers,
  add_watcher, stop_watch, update_at,
}

-- What the goroutine of a watcher is about to do.
pub data Phase : Type 0 where
  idle : Phase
  looking : ResourceRef → Phase
  creating : ResourceRef → Phase
  adding : ResourceRef → ℕ → Phase
  looking_to_stop : ResourceRef → Phase
  stopping : ResourceRef → ℕ → Phase

pub record System : Type 0 where
  pub watches : Watches
  pub phase : ℕ → Phase

abbrev pub initial : System
initial = record { watches = new_watches; phase = λ _. idle }

abbrev pub moved : System → ℕ → Phase → Watches → System
moved s v p ws = record { watches = ws; phase = λ u. if v == u then p else s.phase u }

-- What a step does, as seen from outside.
pub data Label : Type 0 where
  silent : Label
  subscribed : ℕ → ResourceRef → Label
  unsubscribed : ℕ → ResourceRef → Label

pub data Step (s : System) : Label → System → Type 0 where
  begin_watch :
      (v : ℕ) (ref : ResourceRef)
      → s.phase v ≡ idle
      → Step s silent (moved s v (looking ref) s.watches)
  look_hit :
      (v a : ℕ) (ref : ResourceRef)
      → s.phase v ≡ looking ref
      → get_resource_watchers s.watches ref ≡ some a
      → Step s silent (moved s v (adding ref a) s.watches)
  look_miss :
      (v : ℕ) (ref : ResourceRef)
      → s.phase v ≡ looking ref
      → get_resource_watchers s.watches ref ≡ none
      → Step s silent (moved s v (creating ref) s.watches)
  create :
      (v : ℕ) (ref : ResourceRef)
      → s.phase v ≡ creating ref
      → Step s silent (
          moved s v
            (adding ref (create_resource_watchers s.watches ref).0)
            (create_resource_watchers s.watches ref).1)
  add :
      (v a : ℕ) (ref : ResourceRef)
      → s.phase v ≡ adding ref a
      → Step s (subscribed v ref) (moved s v idle (update_at s.watches a (add_watcher v)))
  begin_stop :
      (v : ℕ) (ref : ResourceRef)
      → s.phase v ≡ idle
      → Step s silent (moved s v (looking_to_stop ref) s.watches)
  stop_hit :
      (v a : ℕ) (ref : ResourceRef)
      → s.phase v ≡ looking_to_stop ref
      → get_resource_watchers s.watches ref ≡ some a
      → Step s silent (moved s v (stopping ref a) s.watches)
  stop_miss :
      (v : ℕ) (ref : ResourceRef)
      → s.phase v ≡ looking_to_stop ref
      → get_resource_watchers s.watches ref ≡ none
      → Step s silent (moved s v idle s.watches)
  stop :
      (v a : ℕ) (ref : ResourceRef)
      → s.phase v ≡ stopping ref a
      → Step s (unsubscribed v ref) (moved s v idle (update_at s.watches a (stop_watch v)))

-- The labels of a run from the initial system, the last one first.
pub data Run : List Label → System → Type 0 where
  begin : Run [] initial
  next :
      {labels : List Label} {s s' : System} {l : Label}
      → Run labels s
      → Step s l s'
      → Run (l ∷ labels) s'

-- Whether a watcher watches a resource, as its own last label about that resource tells.
unfoldable pub watches_after : List Label → ℕ → ResourceRef → Bool
watches_after [] v ref = false
watches_after (silent ∷ labels) v ref = watches_after labels v ref
watches_after (subscribed u r ∷ labels) v ref =
    watches_after labels v ref || (u == v && ref_eq r ref)
watches_after (unsubscribed u r ∷ labels) v ref =
    watches_after labels v ref && not (u == v && ref_eq r ref)
