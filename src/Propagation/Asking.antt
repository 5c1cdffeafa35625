-- ===== src/Propagation/Asking.antt =====
-- gtc/watcher.go and gtc/cache.go: each step keeps the sets of watchers to running watches that ask.
use grpc_traffic_controller.Prelude.{
  ℕ, Text, ◌||◌, text_eq, ◌≡◌, refl, ◌∙◌, ap, inl, inr, List, [], ◌∷◌, ◌++◌, Option, true, ◌&&◌,
  ◌==◌, Bool-cases, arith, In, here, there, In-append, In-append_right,
}
use grpc_traffic_controller.Envoy.{Library, Any}
use grpc_traffic_controller.Watches.{contains, ResourceRef, notify_changed}
use grpc_traffic_controller.Watches.Validity.{is_watching}
use grpc_traffic_controller.Watches.Subscription.{keeps}
use grpc_traffic_controller.ConfigWatcher.{Request, is_known}
use grpc_traffic_controller.ConfigWatcher.Lifetime.{asks_for}
use grpc_traffic_controller.Propagation.Pending.{
  IsFollowed, at_watch-same, at_watch-other, same_watch, at_watch-live, joining_other,
  leaving_other,
}
use grpc_traffic_controller.Propagation.System.{
  subscribing, releasing, is_started, waiting, serving, System, at_watch, start_sends, is_live,
}

-- The sets of watchers hold running watches only, for resources that these ask for, and so do the sends.
pub record IsAsked (requests : ℕ → Request) (s : System) : Type 0 where
  pub kept :
      (v : ℕ) (ref : ResourceRef)
      → is_live (s.phase v) ≡ true
      → keeps ref (s.watcher v).watched_resources ≡ asks_for (requests v) ref
  pub watched :
      (v : ℕ) (ref : ResourceRef)
      → is_watching v ref s.watches ≡ true
      → (is_started (s.phase v) ≡ true) × (asks_for (requests v) ref ≡ true)
  -- the names that are left are subscribed to next
  pub joining :
      (v : ℕ) (names : List Text) (ref : ResourceRef)
      → s.phase v ≡ subscribing names
      → (keeps ref (s.watcher v).watched_resources
          || (text_eq (requests v).type_url ref.type_url && is_known ref.resource_name names))
        ≡ asks_for (requests v) ref
  -- a watch that unsubscribes stands only in the sets that are left
  pub leaving :
      (v : ℕ) (refs : List ResourceRef) (ref : ResourceRef)
      → s.phase v ≡ releasing refs
      → is_watching v ref s.watches ≡ true
      → keeps ref refs ≡ true
  pub sent : (v : ℕ) (ref : ResourceRef) → In (v, ref) s.sends → asks_for (requests v) ref ≡ true
  pub served :
      (v : ℕ) (ref : ResourceRef) → s.phase v ≡ serving ref → asks_for (requests v) ref ≡ true

In-contains : (w : ℕ) (xs : List ℕ) → In w xs → contains w xs ≡ true
unfolding contains
In-contains w [] m = elim m [ ]
In-contains w (x ∷ xs) (here e) = rw e (ground arith)
In-contains w (x ∷ xs) (there m) = let later = In-contains w xs m in ground arith

start_sends-In :
    (v : ℕ) (ref ref' : ResourceRef) (vs : List ℕ)
    → In (v, ref) (start_sends ref' vs)
    → (ref ≡ ref') × In v vs
start_sends-In v ref ref' [] m = elim m [ ]
start_sends-In v ref ref' (u ∷ vs) (here e) =
    (ap (λ (p : ℕ × ResourceRef). p.1) e, here (ap (λ (p : ℕ × ResourceRef). p.0) e))
start_sends-In v ref ref' (u ∷ vs) (there m) =
    let (same, later) = start_sends-In v ref ref' vs m in (same, there later)

In-put {ℓ} :
    {A : Type ℓ} {x : A} (before : List A) (y : A) (after : List A)
    → In x (before ++ after)
    → In x (before ++ y ∷ after)
In-put [] y after m = there m
In-put (z ∷ before) y after (here e) = here e
In-put (z ∷ before) y after (there m) = there (In-put before y after m)

module _ (lib : Library) (requests : ℕ → Request) (s : System) (now : IsFollowed lib requests s)
    (asked : IsAsked requests s) where
  pub notify-IsAsked :
      (before after : List ResourceRef) (announced : ResourceRef)
      → IsAsked requests (record s {
        announcing = before ++ after;
        sends = start_sends announced (notify_changed s.watches announced) ++ s.sends;
      })
  notify-IsAsked before after announced = record {
    kept = asked.kept;
    watched = asked.watched;
    joining = asked.joining;
    leaving = asked.leaving;
    served = asked.served;
    sent = λ v ref m.
        elim (In-append (start_sends announced (notify_changed s.watches announced)) m) [
          | inr old ↦ asked.sent v ref old
          | inl new ↦
              let (same, is_in) =
                start_sends-In v ref announced (notify_changed s.watches announced) new in
              let (_, asks) =
                asked.watched v announced
                  (In-contains v (notify_changed s.watches announced) is_in) in
              rw same asks
        ];
  }

  pub waits-IsAsked :
      (v : ℕ) (content : ℕ → ResourceRef → Option Any)
      → is_live (s.phase v) ≡ true
      → IsAsked requests (record s { phase = at_watch v waiting s.phase; content = content })
  waits-IsAsked v content was_live = record {
    kept = λ u ref live. asked.kept u ref (at_watch-live v u waiting s.phase was_live live);
    watched = λ u ref watching.
        let (live, asks) = asked.watched u ref watching in
        (
          elim (Bool-cases (v == u)) [
            | inl e ↦ ap is_started (at_watch-same v u waiting s.phase e)
            | inr e ↦ ap is_started (at_watch-other v u waiting s.phase e) ∙ live
          ],
          asks,
        );
    joining = λ u names ref is.
        asked.joining u names ref (joining_other v u waiting names s.phase (λ ns e. cc) is);
    leaving = λ u refs ref is.
        asked.leaving u refs ref (leaving_other v u waiting refs s.phase (λ rs e. cc) is);
    sent = asked.sent;
    served = λ u ref serves. elim (Bool-cases (v == u)) [
      | inl e ↦ absurd (let never : waiting ≡ serving ref = rw e at serves in cc)
      | inr e ↦ asked.served u ref (rw e at serves)
    ];
  }

  pub deliver-IsAsked :
      (before after : List (ℕ × ResourceRef)) (v : ℕ) (ref : ResourceRef)
      → s.sends ≡ before ++ (v, ref) ∷ after
      → s.phase v ≡ waiting
      → IsAsked requests
          (record s { sends = before ++ after; phase = at_watch v (serving ref) s.phase })
  deliver-IsAsked before after v ref held is_waiting =
      let was_live : is_live (s.phase v) ≡ true = rw is_waiting refl in
      record {
        kept = λ u ref' live.
            asked.kept u ref' (at_watch-live v u (serving ref) s.phase was_live live);
        watched = λ u ref' watching.
            let (live, asks) = asked.watched u ref' watching in
            (
              elim (Bool-cases (v == u)) [
                | inl e ↦ ap is_started (at_watch-same v u (serving ref) s.phase e)
                | inr e ↦ ap is_started (at_watch-other v u (serving ref) s.phase e) ∙ live
              ],
              asks,
            );
        joining = λ u names ref' is.
            asked.joining u names ref'
              (joining_other v u (serving ref) names s.phase (λ ns e. cc) is);
        leaving = λ u refs ref' is.
            asked.leaving u refs ref'
              (leaving_other v u (serving ref) refs s.phase (λ rs e. cc) is);
        sent = λ u ref' m. asked.sent u ref' (rw held (In-put before (v, ref) after m));
        served = λ u ref' serves. elim (Bool-cases (v == u)) [
          | inl e ↦
              let is : serving ref ≡ serving ref' = rw e at serves in
              let same : ref ≡ ref' = cc in
              rw (← same_watch v u e, ← same)
                (asked.sent v ref (rw held (In-append_right before (here refl))))
          | inr e ↦ asked.served u ref' (rw e at serves)
        ];
      }

  pub drop-IsAsked :
      (before after : List (ℕ × ResourceRef)) (v : ℕ) (ref : ResourceRef)
      → s.sends ≡ before ++ (v, ref) ∷ after
      → IsAsked requests (record s { sends = before ++ after })
  drop-IsAsked before after v ref held = record {
    kept = asked.kept;
    watched = asked.watched;
    joining = asked.joining;
    leaving = asked.leaving;
    sent = λ u ref' m. asked.sent u ref' (rw held (In-put before (v, ref) after m));
    served = asked.served;
  }
