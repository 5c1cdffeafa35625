-- ===== src/Propagation/Rounds.antt =====
-- gtc/watcher.go: a step of one watch that leaves its subscriptions keeps every other watch followed.
use grpc_traffic_controller.Prelude.{
  ℕ, Text, ◌≡◌, refl, ◌∙◌, inl, inr, List, true, false, ◌==◌, Bool-cases, arith,
}
use grpc_traffic_controller.Envoy.{Library}
use grpc_traffic_controller.Watches.{ResourceRef, Watcher, Watches, stop_one}
use grpc_traffic_controller.Watches.Validity.{IsValid, is_watching}
use grpc_traffic_controller.Watches.Subscription.{stop_one-IsValid, is_watching-stop_one, keeps}
use grpc_traffic_controller.ConfigWatcher.{Request}
use grpc_traffic_controller.Propagation.Pending.{
  by_event, by_announcement, by_send, by_service, by_change, IsFollowed, IsBehind, same_watch,
  at_watch-other,
}
use grpc_traffic_controller.Propagation.System.{
  Phase, subscribing, is_started, serving, releasing, System, at_watch, is_live,
}
use grpc_traffic_controller.Propagation.Asking.{IsAsked}

live_apart :
    (v u : ℕ) (p : Phase) (f : ℕ → Phase)
    → is_live p ≡ false
    → is_live (at_watch v p f u) ≡ true
    → ((v == u) ≡ false) × (is_live (f u) ≡ true)
live_apart v u p f gone live = elim (Bool-cases (v == u)) [
  | inl e ↦ absurd (let live' : is_live p ≡ true = rw e at live in cc)
  | inr e ↦ (e, rw e at live)
]

joining_apart :
    (v u : ℕ) (p : Phase) (names : List Text) (f : ℕ → Phase)
    → ((ns : List Text) → p ≡ subscribing ns → ⊥)
    → at_watch v p f u ≡ subscribing names
    → ((v == u) ≡ false) × (f u ≡ subscribing names)
joining_apart v u p names f never is = elim (Bool-cases (v == u)) [
  | inl e ↦ absurd (never names (rw e at is))
  | inr e ↦ (e, rw e at is)
]

-- What a round of the cleanup of a watch does to the sets of watchers and to the watchers.
pub record IsRound (s : System) (v : ℕ) (ws : Watches) (w : ℕ → Watcher) : Type 0 where
  pub valid : IsValid ws
  pub same_watcher : (u : ℕ) → (v == u) ≡ false → w u ≡ s.watcher u
  pub same_number : (w v).number ≡ (s.watcher v).number
  pub others :
      (u : ℕ) (ref : ResourceRef)
      → (v == u) ≡ false
      → is_watching u ref ws ≡ is_watching u ref s.watches
  pub shrinks :
      (u : ℕ) (ref : ResourceRef) → is_watching u ref ws ≡ true → is_watching u ref s.watches ≡ true

module _ (lib : Library) (requests : ℕ → Request) (s : System)
    (now : IsFollowed lib requests s) where
  IsBehind-elsewhere :
      (ws : Watches) (w : ℕ → Watcher) (v u : ℕ) (p : Phase) (ref : ResourceRef)
      → (v == u) ≡ false
      → IsBehind lib s u ref
      → IsBehind lib (record s { watches = ws; watcher = w; phase = at_watch v p s.phase }) u ref
  IsBehind-elsewhere ws w v u p ref apart (by_event e m covered) = by_event e m covered
  IsBehind-elsewhere ws w v u p ref apart (by_announcement m) = by_announcement m
  IsBehind-elsewhere ws w v u p ref apart (by_send m) = by_send m
  IsBehind-elsewhere ws w v u p ref apart (by_change e m covered) = by_change e m covered
  IsBehind-elsewhere ws w v u p ref apart (by_service was) =
      by_service (at_watch-other v u p s.phase apart ∙ was)

  pub leaves-IsFollowed :
      (v : ℕ) (p : Phase) (ws : Watches) (w : ℕ → Watcher)
      → is_live p ≡ false
      → ((ns : List Text) → p ≡ subscribing ns → ⊥)
      → (s.watcher v).number ≡ v
      → IsRound s v ws w
      → IsFollowed lib requests
          (record s { watches = ws; watcher = w; phase = at_watch v p s.phase })
  leaves-IsFollowed v p ws w gone never number round = record {
    cached = now.cached;
    valid = round.valid;
    numbered = λ u live.
        let (apart, was) = live_apart v u p s.phase gone live in
        rw (round.same_watcher u apart) (now.numbered u was);
    joining = λ u names is.
        let (apart, was) = joining_apart v u p names s.phase never is in
        let old = now.joining u names was in
        rw (round.same_watcher u apart) (record {
          numbered = old.numbered;
          covered = λ ref asks. rw (round.others u ref apart) (old.covered ref asks);
        });
    leaving = λ u refs is. elim (Bool-cases (v == u)) [
      | inl e ↦ rw (← same_watch v u e) (round.same_number ∙ number)
      | inr e ↦ rw (round.same_watcher u e) (now.leaving u refs (rw e at is))
    ];
    subscribed = λ u ref live asks.
        let (apart, was) = live_apart v u p s.phase gone live in
        round.others u ref apart ∙ now.subscribed u ref was asks;
    fresh = λ u ref x y live asks canonical has answered.
        let (apart, was) = live_apart v u p s.phase gone live in
        elim (now.fresh u ref x y was asks canonical has answered) [
          | inl same ↦ inl same
          | inr pending ↦ inr (IsBehind-elsewhere ws w v u p ref apart pending)
        ];
  }

  pub leaves-IsAsked :
      (v : ℕ) (p : Phase) (ws : Watches) (w : ℕ → Watcher)
      → is_live p ≡ false
      → ((ns : List Text) → p ≡ subscribing ns → ⊥)
      → ((ref : ResourceRef) → p ≡ serving ref → ⊥)
      → IsRound s v ws w
      → ((ref : ResourceRef) → is_watching v ref ws ≡ true → is_started p ≡ true)
      → ((refs : List ResourceRef) (ref : ResourceRef)
          → p ≡ releasing refs
          → is_watching v ref ws ≡ true
          → keeps ref refs ≡ true)
      → IsAsked requests s
      → IsAsked requests (record s { watches = ws; watcher = w; phase = at_watch v p s.phase })
  leaves-IsAsked v p ws w gone never not_serving round started left asked = record {
    kept = λ u ref live.
        let (apart, was) = live_apart v u p s.phase gone live in
        rw (round.same_watcher u apart) (asked.kept u ref was);
    watched = λ u ref watching.
        let (was_started, asks) = asked.watched u ref (round.shrinks u ref watching) in
        elim (Bool-cases (v == u)) [
          | inl e ↦
              let watching' : is_watching v ref ws ≡ true = rw (same_watch v u e) watching in
              (rw e (started ref watching'), asks)
          | inr e ↦ (rw e was_started, asks)
        ];
    joining = λ u names ref is.
        let (apart, was) = joining_apart v u p names s.phase never is in
        rw (round.same_watcher u apart) (asked.joining u names ref was);
    leaving = λ u refs ref is watching. elim (Bool-cases (v == u)) [
      | inl e ↦ left refs ref (rw e at is) (rw (same_watch v u e) watching)
      | inr e ↦ asked.leaving u refs ref (rw e at is) (round.shrinks u ref watching)
    ];
    sent = asked.sent;
    served = λ u ref serves. elim (Bool-cases (v == u)) [
      | inl e ↦ absurd (not_serving ref (rw e at serves))
      | inr e ↦ asked.served u ref (rw e at serves)
    ];
  }

  pub unchanged-IsRound : (v : ℕ) → IsRound s v s.watches s.watcher
  unchanged-IsRound v = record {
    valid = now.valid;
    same_watcher = λ u apart. refl;
    same_number = refl;
    others = λ u ref apart. refl;
    shrinks = λ u ref watching. watching;
  }

  pub stop_one-IsRound :
      (v : ℕ) (ref : ResourceRef)
      → (s.watcher v).number ≡ v
      → IsRound s v (stop_one (s.watcher v).number ref s.watches) s.watcher
  stop_one-IsRound v ref number = record {
    valid = stop_one-IsValid (s.watcher v).number ref s.watches now.valid;
    same_watcher = λ u apart. refl;
    same_number = refl;
    others = λ u ref' apart.
        rw (is_watching-stop_one (s.watcher v).number ref ref' s.watches u now.valid, number, apart)
          (ground arith);
    shrinks = λ u ref' watching.
        let watching' =
          rw (is_watching-stop_one (s.watcher v).number ref ref' s.watches u now.valid) at
            watching in
        ground arith;
  }

  pub close-IsRound :
      (v : ℕ) → IsRound s v s.watches (at_watch v (record (s.watcher v) { done = true }) s.watcher)
  close-IsRound v =
      let itself : (v == v) ≡ true = ground arith in
      record {
        valid = now.valid;
        same_watcher = λ u apart. at_watch-other v u _ s.watcher apart;
        same_number = rw itself refl;
        others = λ u ref apart. refl;
        shrinks = λ u ref watching. watching;
      }
