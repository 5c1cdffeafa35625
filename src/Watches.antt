-- ===== src/Watches.antt =====
-- gtc/watcher.go: who watches which resource. A pointer to a resourceWatchers is an address, the place
-- of its set of watchers in the heap; a pointer to a watcher is its number. Each function here is one
-- call that no other interrupts; Watches/Interleaving is about calls that do.
pub mod Laws
pub mod Validity
pub mod Subscription
pub mod Interleaving
use grpc_traffic_controller.Prelude.{
  ℕ, zero, suc, Text, List, [], ◌∷◌, ◌++◌, Option, some, none, Bool, true, false, ◌&&◌, ◌||◌,
  if◌then◌else◌, text_eq, length, ◌==◌,
}

pub record ResourceRef : Type 0 where
  pub type_url : Text
  pub resource_name : Text

-- equality of the map's keys
unfoldable pub ref_eq : ResourceRef → ResourceRef → Bool
ref_eq a b = text_eq a.type_url b.type_url && text_eq a.resource_name b.resource_name

pub record Watches : Type 0 where
  pub table : List (ResourceRef × ℕ)
  pub heap : List (List ℕ)

abbrev pub new_watches : Watches
new_watches = record { table = []; heap = [] }

unfoldable pub find_address : ResourceRef → List (ResourceRef × ℕ) → Option ℕ
find_address ref [] = none
find_address ref ((key, address) ∷ more) =
    if ref_eq key ref then some address else find_address ref more

-- the set of watchers at an address
unfoldable pub read : List (List ℕ) → ℕ → List ℕ
read [] a = []
read (rw ∷ heap) zero = rw
read (rw ∷ heap) (suc a) = read heap a

unfoldable pub write : List (List ℕ) → ℕ → List ℕ → List (List ℕ)
write [] a rw' = []
write (rw ∷ heap) zero rw' = rw' ∷ heap
write (rw ∷ heap) (suc a) rw' = rw ∷ write heap a rw'

-- watches.getResourceWatchers
unfoldable pub get_resource_watchers : Watches → ResourceRef → Option ℕ
unfolding find_address
get_resource_watchers ws ref = find_address ref ws.table

-- The part of getOrCreateResourceWatchers under the write lock, which looks again.
unfoldable pub create_resource_watchers : Watches → ResourceRef → ℕ × Watches
unfolding get_resource_watchers
create_resource_watchers ws ref = elim (get_resource_watchers ws ref) [
  | some address ↦ (address, ws)
  | none ↦ (
    length ws.heap,
    record { table = (ref, length ws.heap) ∷ ws.table; heap = ws.heap ++ [] ∷ [] },
  )
]

-- watches.getOrCreateResourceWatchers
unfoldable pub get_or_create_resource_watchers : Watches → ResourceRef → ℕ × Watches
unfolding get_resource_watchers create_resource_watchers
get_or_create_resource_watchers ws ref = elim (get_resource_watchers ws ref) [
  | some address ↦ (address, ws)
  | none ↦ create_resource_watchers ws ref
]

unfoldable pub contains : ℕ → List ℕ → Bool
contains w [] = false
contains w (x ∷ xs) = x == w || contains w xs

unfoldable pub delete : ℕ → List ℕ → List ℕ
delete w [] = []
delete w (x ∷ xs) = let rest = delete w xs in if x == w then rest else x ∷ rest

-- resourceWatchers.watch and resourceWatchers.stopWatch, on the set of watchers
unfoldable pub add_watcher : ℕ → List ℕ → List ℕ
unfolding contains
add_watcher w rw = if contains w rw then rw else w ∷ rw

unfoldable pub stop_watch : ℕ → List ℕ → List ℕ
unfolding contains delete
stop_watch w rw = if contains w rw then delete w rw else rw

pub record Watcher : Type 0 where
  pub number : ℕ
  pub watched_resources : List ResourceRef
  pub done : Bool

-- the watcher that watches.buildWatch makes
abbrev pub new_watcher : ℕ → Watcher
new_watcher w = record { number = w; watched_resources = []; done = false }

-- A set written to where it was read from.
abbrev pub update_at : Watches → ℕ → (List ℕ → List ℕ) → Watches
update_at ws a f = record ws { heap = write ws.heap a (f (read ws.heap a)) }

-- watcher.watch; a ref that is watched again stands twice in the list, which stands for a set
unfoldable pub watch : ResourceRef → Watcher × Watches → Watcher × Watches
unfolding get_or_create_resource_watchers add_watcher read write
watch ref (w, ws) =
    let (address, ws') = get_or_create_resource_watchers ws ref in
    (
      record w { watched_resources = ref ∷ w.watched_resources },
      update_at ws' address (add_watcher w.number),
    )

-- one round of watches.stopAllWatches
unfoldable pub stop_one : ℕ → ResourceRef → Watches → Watches
unfolding get_resource_watchers stop_watch read write
stop_one w ref ws = elim (get_resource_watchers ws ref) [
  | none ↦ ws
  | some address ↦ update_at ws address (stop_watch w)
]

unfoldable pub stop_all : ℕ → List ResourceRef → Watches → Watches
unfolding stop_one
stop_all w [] ws = ws
stop_all w (ref ∷ refs) ws = stop_all w refs (stop_one w ref ws)

-- the cleanup function of watches.buildWatch
unfoldable pub release : Watcher × Watches → Watcher × Watches
unfolding stop_all
release (w, ws) = (record w { done = true }, stop_all w.number w.watched_resources ws)

-- watches.notifyChanged: a goroutine is started for each of these watchers
unfoldable pub notify_changed : Watches → ResourceRef → List ℕ
unfolding get_resource_watchers read
notify_changed ws ref = elim (get_resource_watchers ws ref) [
  | none ↦ []
  | some address ↦ read ws.heap address
]
