-- ===== src/Propagation/Draining.antt =====
-- gtc/notify.go, gtc/watcher.go and gtc/cache.go together: from every state, the news of the changes can reach
-- a watch.
use grpc_traffic_controller.Prelude.{
  ℕ, Text, ◌≡◌, refl, append_assoc, append-nil, sym, ◌∙◌, ap, inl, inr, ◌⊎◌, List, [], ◌∷◌, ◌++◌,
  true, ◌==◌, Bool-cases, arith, In, here, there,
}
use grpc_traffic_controller.Envoy.{Library}
use grpc_traffic_controller.Watches.{ResourceRef, notify_changed}
use grpc_traffic_controller.ConfigWatcher.{Request}
use grpc_traffic_controller.ConfigWatcher.Lifetime.{asks_for}
use grpc_traffic_controller.Propagation.{Event}
use grpc_traffic_controller.Propagation.Pending.{same_watch}
use grpc_traffic_controller.Propagation.System.{
  waiting, serving, System, at_watch, start_sends, is_live, Step, handle, notify, deliver, rest,
  then_step, Reachable,
}
use grpc_traffic_controller.Propagation.Asked.{Reachable-IsAsked}
use grpc_traffic_controller.Propagation.Waiting.{
  Run-trans, Reachable-Run, Reachable-Step, NeverPanics, Settles, Settles-after, at_self,
  serving-Waits, live-Waits,
}

module _ (lib : Library) (requests : ℕ → Request) (known : ℕ → List Text) where
  In-snoc {ℓ} :
      {A : Type ℓ} {x y : A} (before : List A) → In x (before ++ y ∷ []) → In x before ⊎ (x ≡ y)
  In-snoc [] (here e) = inr e
  In-snoc [] (there m) = elim m [ ]
  In-snoc (z ∷ before) (here e) = inl (here e)
  In-snoc (z ∷ before) (there m) = elim (In-snoc before m) [
    | inl m' ↦ inl (there m')
    | inr e ↦ inr e
  ]

  -- The sends to a waiting watch are received and answered one after another; those to others stay.
  settle_sends :
      (after before : List (ℕ × ResourceRef)) (s : System) (v : ℕ)
      → s.phase v ≡ waiting
      → s.queue ≡ []
      → s.announcing ≡ []
      → s.sends ≡ before ++ after
      → ((ref : ResourceRef) → In (v, ref) before → ⊥)
      → ((ref : ResourceRef) → In (v, ref) after → asks_for (requests v) ref ≡ true)
      → NeverPanics lib requests known s.cache v
      → Settles lib requests known s v
  settle_sends [] before s v is_waiting no_event no_announcement held none_before asked calm =
      record {
        later = s;
        run = rest;
        same_cache = refl;
        settled = record {
          no_event = no_event;
          no_announcement = no_announcement;
          no_send = λ ref m. none_before ref (rw (held, append-nil before) at m);
          waits = is_waiting;
        };
      }
  settle_sends ((u, ref) ∷ after) before s v is_waiting no_event no_announcement held none_before
        asked calm =
      elim (Bool-cases (u == v)) [
        | inr other ↦
            settle_sends after (before ++ (u, ref) ∷ []) s v is_waiting no_event no_announcement
              (held ∙ sym (append_assoc before ((u, ref) ∷ []) after))
              (λ ref' m. elim (In-snoc before m) [
                | inl m' ↦ none_before ref' m'
                | inr e ↦ let same : v ≡ u = ap (λ (p : ℕ × ResourceRef). p.0) e in ground arith
              ])
              (λ ref' m. asked ref' (there m)) calm
        | inl is ↦
            let same : u ≡ v = same_watch u v is in
            let held' : s.sends ≡ before ++ (v, ref) ∷ after = rw (← same) held in
            let received_it : System = record s {
              sends = before ++ after;
              phase = at_watch v (serving ref) s.phase;
            } in
            let asks : asks_for (requests v) ref ≡ true = asked ref (here (rw same refl)) in
            let w =
              serving-Waits lib requests known received_it v ref
                (at_self lib requests known v (serving ref) s.phase) (calm.resolves ref asks) in
            Settles-after lib requests known s w.later v
              (Run-trans lib requests known s received_it w.later
                (then_step rest (deliver before after v ref held' is_waiting)) w.run)
              w.same_cache
              (settle_sends after before w.later v w.waits (w.same_queue ∙ no_event)
                (w.same_announcing ∙ no_announcement) w.same_sends none_before
                (λ ref' m. asked ref' (there m)) (rw w.same_cache calm))
      ]

  -- What the handlers have to announce is announced.
  settle_announcing :
      (refs : List ResourceRef) (s : System) (v : ℕ)
      → Reachable lib requests known s
      → s.phase v ≡ waiting
      → s.queue ≡ []
      → s.announcing ≡ refs
      → NeverPanics lib requests known s.cache v
      → Settles lib requests known s v
  settle_announcing [] s v reached is_waiting no_event no_announcement calm =
      settle_sends s.sends [] s v is_waiting no_event no_announcement refl (λ ref m. elim m [ ])
        ((Reachable-IsAsked lib requests known s reached).sent v) calm
  settle_announcing (ref ∷ refs) s v reached is_waiting no_event held calm =
      let t : System = record s {
        announcing = refs;
        sends = start_sends ref (notify_changed s.watches ref) ++ s.sends;
      } in
      let step : Step lib requests known s t = notify [] refs ref held in
      Settles-after lib requests known s t v (then_step rest step) refl (
        settle_announcing refs t v (Reachable-Step lib requests known s t reached step) is_waiting
          no_event refl calm)

  -- The events that are queued are handled.
  settle_queue :
      (events : List Event) (s : System) (v : ℕ)
      → Reachable lib requests known s
      → s.phase v ≡ waiting
      → s.queue ≡ events
      → NeverPanics lib requests known s.cache v
      → Settles lib requests known s v
  settle_queue [] s v reached is_waiting held calm =
      settle_announcing s.announcing s v reached is_waiting held refl calm
  settle_queue (e ∷ events) s v reached is_waiting held calm =
      let (refs, handled) = calm.handles e in
      let t : System = record s { queue = events; announcing = refs ++ s.announcing } in
      let step : Step lib requests known s t = handle [] events e refs held handled in
      Settles-after lib requests known s t v (then_step rest step) refl (
        settle_queue events t v (Reachable-Step lib requests known s t reached step) is_waiting refl
          calm)

  -- No watch is kept from the news: from every state that a run reaches, a further run leads a running watch
  -- to wait with nothing on its way to it, the caches being what they were. As the caches are, neither the
  -- handlers nor the resolutions for the watch panic.
  pub running-Settles :
      (s : System) (v : ℕ)
      → Reachable lib requests known s
      → is_live (s.phase v) ≡ true
      → NeverPanics lib requests known s.cache v
      → Settles lib requests known s v
  running-Settles s v reached live calm =
      let w =
        live-Waits lib requests known s v (s.phase v) refl live
          (Reachable-IsAsked lib requests known s reached) calm in
      Settles-after lib requests known s w.later v w.run w.same_cache (
        settle_queue w.later.queue w.later v
          (Reachable-Run lib requests known s w.later reached w.run) w.waits refl
          (rw w.same_cache calm))
