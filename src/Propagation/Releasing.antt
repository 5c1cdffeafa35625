-- ===== src/Propagation/Releasing.antt =====
-- gtc/watcher.go: the cleanup of a watch, one round of its loop at a time, keeps every other watch followed and
-- the sets of watchers to watches that ask.
use grpc_traffic_controller.Prelude.{
  ℕ, ◌||◌, ◌≡◌, refl, ◌∙◌, List, [], ◌∷◌, ◌++◌, true, false, ◌&&◌, not, ◌==◌, arith,
}
use grpc_traffic_controller.Envoy.{Library}
use grpc_traffic_controller.Watches.{ResourceRef, ref_eq, stop_one}
use grpc_traffic_controller.Watches.Validity.{is_watching}
use grpc_traffic_controller.Watches.Subscription.{is_watching-stop_one, keeps, keeps-take}
use grpc_traffic_controller.ConfigWatcher.{Request}
use grpc_traffic_controller.Propagation.Pending.{IsFollowed}
use grpc_traffic_controller.Propagation.System.{releasing, ended, System, at_watch, is_live}
use grpc_traffic_controller.Propagation.Asking.{IsAsked}
use grpc_traffic_controller.Propagation.Rounds.{
  leaves-IsFollowed, leaves-IsAsked, unchanged-IsRound, stop_one-IsRound, close-IsRound,
}

module _ (lib : Library) (requests : ℕ → Request) (s : System)
    (now : IsFollowed lib requests s) where
  pub stop-IsFollowed :
      (v : ℕ)
      → is_live (s.phase v) ≡ true
      → IsFollowed lib requests
          (record s { phase = at_watch v (releasing (s.watcher v).watched_resources) s.phase })
  stop-IsFollowed v live =
      leaves-IsFollowed lib requests s now v (releasing (s.watcher v).watched_resources) s.watches
        s.watcher refl (λ ns e. cc) (now.numbered v live) (unchanged-IsRound lib requests s now v)

  pub release_one-IsFollowed :
      (v : ℕ) (before after : List ResourceRef) (ref : ResourceRef)
      → s.phase v ≡ releasing (before ++ ref ∷ after)
      → IsFollowed lib requests (record s {
        watches = stop_one (s.watcher v).number ref s.watches;
        phase = at_watch v (releasing (before ++ after)) s.phase;
      })
  release_one-IsFollowed v before after ref is =
      let number = now.leaving v (before ++ ref ∷ after) is in
      leaves-IsFollowed lib requests s now v (releasing (before ++ after))
        (stop_one (s.watcher v).number ref s.watches) s.watcher refl (λ ns e. cc) number
        (stop_one-IsRound lib requests s now v ref number)

  pub close-IsFollowed :
      (v : ℕ)
      → s.phase v ≡ releasing []
      → IsFollowed lib requests (record s {
        watcher = at_watch v (record (s.watcher v) { done = true }) s.watcher;
        phase = at_watch v ended s.phase;
      })
  close-IsFollowed v is =
      leaves-IsFollowed lib requests s now v ended s.watches
        (at_watch v (record (s.watcher v) { done = true }) s.watcher) refl (λ ns e. cc)
        (now.leaving v [] is) (close-IsRound lib requests s now v)

  pub stop-IsAsked :
      (v : ℕ)
      → is_live (s.phase v) ≡ true
      → IsAsked requests s
      → IsAsked requests
          (record s { phase = at_watch v (releasing (s.watcher v).watched_resources) s.phase })
  stop-IsAsked v live asked =
      leaves-IsAsked lib requests s now v (releasing (s.watcher v).watched_resources) s.watches
        s.watcher refl (λ ns e. cc) (λ ref e. cc) (unchanged-IsRound lib requests s now v)
        (λ ref watching. refl)
        (λ refs ref is watching.
          let same : (s.watcher v).watched_resources ≡ refs = cc in
          let (_, asks) = asked.watched v ref watching in
          rw (← same) (asked.kept v ref live ∙ asks))
        asked

  pub release_one-IsAsked :
      (v : ℕ) (before after : List ResourceRef) (ref : ResourceRef)
      → s.phase v ≡ releasing (before ++ ref ∷ after)
      → IsAsked requests s
      → IsAsked requests (record s {
        watches = stop_one (s.watcher v).number ref s.watches;
        phase = at_watch v (releasing (before ++ after)) s.phase;
      })
  release_one-IsAsked v before after ref is asked =
      let number = now.leaving v (before ++ ref ∷ after) is in
      let itself : (v == v) ≡ true = ground arith in
      leaves-IsAsked lib requests s now v (releasing (before ++ after))
        (stop_one (s.watcher v).number ref s.watches) s.watcher refl (λ ns e. cc) (λ r e. cc)
        (stop_one-IsRound lib requests s now v ref number) (λ r watching. refl)
        (λ refs r same watching.
          let same' : before ++ after ≡ refs = cc in
          let watching' : (is_watching v r s.watches && not (v == v && ref_eq ref r)) ≡ true =
            rw (is_watching-stop_one (s.watcher v).number ref r s.watches v now.valid, number) at
              watching in
          let was : is_watching v r s.watches ≡ true = ground arith in
          let other : ref_eq ref r ≡ false = ground arith in
          let all = asked.leaving v (before ++ ref ∷ after) r is was in
          let all' : (false || keeps r (before ++ after)) ≡ true =
            rw (keeps-take r ref before after, other) at all in
          rw (← same') all')
        asked

  pub close-IsAsked :
      (v : ℕ)
      → s.phase v ≡ releasing []
      → IsAsked requests s
      → IsAsked requests (record s {
        watcher = at_watch v (record (s.watcher v) { done = true }) s.watcher;
        phase = at_watch v ended s.phase;
      })
  unfolding keeps
  close-IsAsked v is asked =
      leaves-IsAsked lib requests s now v ended s.watches
        (at_watch v (record (s.watcher v) { done = true }) s.watcher) refl (λ ns e. cc)
        (λ ref e. cc) (close-IsRound lib requests s now v)
        (λ ref watching.
          absurd (let never : false ≡ true = asked.leaving v [] ref is watching in cc))
        (λ refs ref never watching. absurd (let no : ended ≡ releasing refs = never in cc)) asked
