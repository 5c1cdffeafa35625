-- ===== src/Propagation/Pending.antt =====
-- gtc/watcher.go: where the news of a change is, on its way to a watch.
use grpc_traffic_controller.Prelude.{
  Text, ◌&&◌, ◌||◌, text_eq, ℕ, ◌≡◌, refl, ap, inl, inr, ◌⊎◌, List, [], ◌∷◌, ◌++◌, some, true,
  false, ◌==◌, Bool-cases, arith, In, here, there, In-append_left, In-append_right,
}
use grpc_traffic_controller.Envoy.{Library, Any}
use grpc_traffic_controller.Watches.{ResourceRef, contains, Watcher, Watches}
use grpc_traffic_controller.Watches.Validity.{IsValid, is_watching}
use grpc_traffic_controller.ConfigWatcher.{Request, is_known}
use grpc_traffic_controller.ConfigWatcher.Lifetime.{asks_for}
use grpc_traffic_controller.Propagation.{Event, answer}
use grpc_traffic_controller.Propagation.Caches.{IsCache, IsCanonical, Covers}
use grpc_traffic_controller.Propagation.System.{
  Phase, serving, subscribing, releasing, System, is_live, at_watch, Enqueues, added, present,
  start_sends,
}

-- Why a watch may not hold what it would be answered for a resource: it is still to be told, by an event in
-- a queue, by a handler, by a send, or by what it has just received; or a change has not told any handler.
pub data IsBehind (lib : Library) (s : System) (v : ℕ) (ref : ResourceRef) : Type 0 where
  by_event : (e : Event) → In e s.queue → Covers lib s.cache ref e → IsBehind lib s v ref
  by_announcement : In ref s.announcing → IsBehind lib s v ref
  by_send : In (v, ref) s.sends → IsBehind lib s v ref
  by_service : s.phase v ≡ serving ref → IsBehind lib s v ref
  by_change : (e : Event) → In e s.missed → Covers lib s.cache ref e → IsBehind lib s v ref

-- A watch that still subscribes watches what it asks for, except the names that are left.
pub record IsJoining (requests : ℕ → Request) (v : ℕ) (names : List Text) (w : Watcher)
    (ws : Watches) : Type 0 where
  pub numbered : w.number ≡ v
  pub covered :
      (ref : ResourceRef)
      → asks_for (requests v) ref ≡ true
      → (is_watching v ref ws
          || (text_eq (requests v).type_url ref.type_url && is_known ref.resource_name names))
        ≡ true

-- The subscriptions are those of the running watches, and what a running watch has been sent is what it
-- would be answered now, or it is still to be told.
pub record IsFollowed (lib : Library) (requests : ℕ → Request) (s : System) : Type 0 where
  pub cached : IsCache s.cache
  pub valid : IsValid s.watches
  pub numbered : (v : ℕ) → is_live (s.phase v) ≡ true → (s.watcher v).number ≡ v
  pub joining :
      (v : ℕ) (names : List Text)
      → s.phase v ≡ subscribing names
      → IsJoining requests v names (s.watcher v) s.watches
  pub leaving :
      (v : ℕ) (refs : List ResourceRef) → s.phase v ≡ releasing refs → (s.watcher v).number ≡ v
  pub subscribed :
      (v : ℕ) (ref : ResourceRef)
      → is_live (s.phase v) ≡ true
      → asks_for (requests v) ref ≡ true
      → is_watching v ref s.watches ≡ true
  pub fresh :
      (v : ℕ) (ref : ResourceRef) (x y : Any)
      → is_live (s.phase v) ≡ true
      → asks_for (requests v) ref ≡ true
      → IsCanonical ref
      → s.content v ref ≡ some x
      → answer lib s.cache (requests v) ref ≡ some y
      → (y ≡ x) ⊎ IsBehind lib s v ref

pub Enqueues-kept :
    {e e' : Event} {queue queue' : List Event}
    → Enqueues e queue queue'
    → In e' queue
    → In e' queue'
Enqueues-kept added m = In-append_left _ m
Enqueues-kept (present _) m = m

pub Enqueues-new : {e : Event} {queue queue' : List Event} → Enqueues e queue queue' → In e queue'
Enqueues-new {e} {queue} {queue'} added = In-append_right queue (here refl)
Enqueues-new (present m) = m

-- What is in a list is what is taken out of it, or stays.
pub In-take {ℓ} :
    {A : Type ℓ} {x y : A} (before after : List A)
    → In x (before ++ y ∷ after)
    → (x ≡ y) ⊎ In x (before ++ after)
In-take [] after (here e) = inl e
In-take [] after (there m) = inr m
In-take (z ∷ before) after (here e) = inr (here e)
In-take (z ∷ before) after (there m) = elim (In-take before after m) [
  | inl e ↦ inl e
  | inr m' ↦ inr (there m')
]

contains-In : (w : ℕ) (xs : List ℕ) → contains w xs ≡ true → In w xs
unfolding contains
contains-In w [] e = absurd (cc)
contains-In w (x ∷ xs) e = elim (Bool-cases (x == w)) [
  | inl is ↦ here (ground arith)
  | inr isnt ↦ there (contains-In w xs (ground arith))
]

In-start_sends :
    (v : ℕ) (ref : ResourceRef) (vs : List ℕ) → In v vs → In (v, ref) (start_sends ref vs)
In-start_sends v ref [] m = elim m [ ]
In-start_sends v ref (u ∷ vs) (here e) = here (ap (λ n. (n, ref)) e)
In-start_sends v ref (u ∷ vs) (there m) = there (In-start_sends v ref vs m)

-- A watcher of a resource is one that a send is started for.
pub is_watching-In :
    (v : ℕ) (ref : ResourceRef) (vs : List ℕ)
    → contains v vs ≡ true
    → In (v, ref) (start_sends ref vs)
is_watching-In v ref vs e = In-start_sends v ref vs (contains-In v vs e)

pub at_watch-same {ℓ} :
    {A : Type ℓ} (v u : ℕ) (a : A) (f : ℕ → A) → (v == u) ≡ true → at_watch v a f u ≡ a
at_watch-same v u a f e = rw e refl

pub at_watch-other {ℓ} :
    {A : Type ℓ} (v u : ℕ) (a : A) (f : ℕ → A) → (v == u) ≡ false → at_watch v a f u ≡ f u
at_watch-other v u a f e = rw e refl

pub same_watch : (v u : ℕ) → (v == u) ≡ true → v ≡ u
same_watch v u e = ground arith

-- A running watch of a step that moves a running watch was running.
pub at_watch-live :
    (v u : ℕ) (p : Phase) (f : ℕ → Phase)
    → is_live (f v) ≡ true
    → is_live (at_watch v p f u) ≡ true
    → is_live (f u) ≡ true
at_watch-live v u p f was now = elim (Bool-cases (v == u)) [
  | inl e ↦ rw (← same_watch v u e) was
  | inr e ↦ rw (at_watch-other v u p f e) at now
]

-- A watch that subscribes is not the one that a step moves to a phase of another kind.
pub joining_other :
    (v u : ℕ) (p : Phase) (names : List Text) (f : ℕ → Phase)
    → ((ns : List Text) → p ≡ subscribing ns → ⊥)
    → at_watch v p f u ≡ subscribing names
    → f u ≡ subscribing names
joining_other v u p names f never e = elim (Bool-cases (v == u)) [
  | inl is ↦ absurd (never names (rw is at e))
  | inr other ↦ rw other at e
]

pub leaving_other :
    (v u : ℕ) (p : Phase) (refs : List ResourceRef) (f : ℕ → Phase)
    → ((rs : List ResourceRef) → p ≡ releasing rs → ⊥)
    → at_watch v p f u ≡ releasing refs
    → f u ≡ releasing refs
leaving_other v u p refs f never e = elim (Bool-cases (v == u)) [
  | inl is ↦ absurd (never refs (rw is at e))
  | inr other ↦ rw other at e
]
