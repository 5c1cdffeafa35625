-- ===== src/ConfigWatcher/First.antt =====
-- gtc/cache.go: everything that a watch sends, from its first response on.
use grpc_traffic_controller.Prelude.{
  ◌≡◌, ◌≢◌, refl, sym, ap, ◌∙◌, inl, inr, Text, List, [], ◌∷◌, ◌++◌, Bool, true, Bool-cases, arith,
  In, here, there, All, filter_map,
}
use grpc_traffic_controller.Errors.{ok, panic, ok_injective, is_ok, is_err, is_panic, Result-cases}
use grpc_traffic_controller.Resources.{ResourceResolver}
use grpc_traffic_controller.ConfigWatcher.{
  Request, CacheResponse, Event, sent_if, first_request, has_resource_diff, serve_first, serve,
}
use grpc_traffic_controller.ConfigWatcher.Diff.{has_resource_diff_iff}
use grpc_traffic_controller.ConfigWatcher.Serving.{
  IsCalm, answer_to, before_end, serve_changes-eq-ok_iff,
}

module _ (resolve : ResourceResolver) (known : List Text) (req : Request) (taken : Bool) where
  -- A first response: a requested name is new to the client, all names are resolved together, and the
  -- channel takes what is sent.
  pub record IsFirst (c : CacheResponse) : Type 0 where
    pub new : (n : Text) × In n req.resource_names × (¬ In n known)
    pub is_taken : taken ≡ true
    pub answers : c.req ≡ req
    pub resolved : resolve (first_request resolve req) ≡ ok c.resp

  serve_first_sound :
      (rs : List CacheResponse) (c : CacheResponse)
      → serve_first resolve known req taken ≡ ok rs
      → In c rs
      → IsFirst c
  unfolding serve_first
  serve_first_sound rs c e m = elim (Bool-cases (has_resource_diff known req.resource_names)) [
    | inr known_all ↦
        let e' : ok [] ≡ ok rs = rw known_all at e in
        let same : [] ≡ rs = ground arith in let m' : In c [] = rw same m in elim m' [ ]
    | inl differs ↦ elim (Result-cases (resolve (first_request resolve req))) [
      | is_err x failed ↦
          let e' : ok [] ≡ ok rs = rw (differs, failed) at e in
          let same : [] ≡ rs = ground arith in let m' : In c [] = rw same m in elim m' [ ]
      | is_panic failed ↦ absurd (let e' : panic ≡ ok rs = rw (differs, failed) at e in cc)
      | is_ok resp made ↦
          let e' : ok (sent_if taken (record { req = req; resp = resp }) []) ≡ ok rs =
            rw (differs, made) at e in
          let same : sent_if taken (record { req = req; resp = resp }) [] ≡ rs = ground arith in
          elim (Bool-cases taken) [
            | inr lost ↦
                let none_sent : [] ≡ rs = rw lost at same in
                let m' : In c [] = rw none_sent m in elim m' [ ]
            | inl took ↦
                let one_sent : record { req = req; resp = resp } ∷ [] ≡ rs = rw took at same in
                let m' : In c (record { req = req; resp = resp } ∷ []) = rw one_sent m in
                elim m' [
                  | here is ↦ record {
                    new = (has_resource_diff_iff known req.resource_names).0 differs;
                    is_taken = took;
                    answers = ap (λ (r : CacheResponse). r.req) is;
                    resolved = made ∙ ap (λ (r : CacheResponse). ok r.resp) (sym is);
                  }
                  | there more ↦ elim more [ ]
                ]
          ]
    ]
  ]

  serve_first_complete :
      (rs : List CacheResponse) (c : CacheResponse)
      → serve_first resolve known req taken ≡ ok rs
      → IsFirst c
      → In c rs
  unfolding serve_first
  serve_first_complete rs c e is =
      let differs = (has_resource_diff_iff known req.resource_names).1 is.new in
      let e' : ok (record { req = req; resp = c.resp } ∷ []) ≡ ok rs =
        rw (differs, is.resolved, is.is_taken) at e in
      let same : record { req = req; resp = c.resp } ∷ [] ≡ rs = ground arith in
      rw (← same) (here (λ i. record { req = is.answers i; resp = c.resp }))

  at_most_one :
      (c d : CacheResponse) (rs : List CacheResponse)
      → serve_first resolve known req taken ≡ ok (c ∷ d ∷ rs)
      → ⊥
  unfolding serve_first
  at_most_one c d rs e = elim (Bool-cases (has_resource_diff known req.resource_names)) [
    | inr known_all ↦
        let e' : ok [] ≡ ok (c ∷ d ∷ rs) = rw known_all at e in
        let same : c ∷ d ∷ rs ≡ [] = ok_injective e' refl in cc
    | inl differs ↦ elim (Result-cases (resolve (first_request resolve req))) [
      | is_err x failed ↦
          let e' : ok [] ≡ ok (c ∷ d ∷ rs) = rw (differs, failed) at e in
          let same : c ∷ d ∷ rs ≡ [] = ok_injective e' refl in cc
      | is_panic failed ↦ let e' : panic ≡ ok (c ∷ d ∷ rs) = rw (differs, failed) at e in cc
      | is_ok resp made ↦
          let e' : ok (sent_if taken (record { req = req; resp = resp }) []) ≡ ok (c ∷ d ∷ rs) =
            rw (differs, made) at e in
          elim (Bool-cases taken) [
            | inr lost ↦
                let e₁ : ok [] ≡ ok (c ∷ d ∷ rs) = rw lost at e' in
                let same : c ∷ d ∷ rs ≡ [] = ok_injective e₁ refl in cc
            | inl took ↦
                let e₁ : ok (record { req = req; resp = resp } ∷ []) ≡ ok (c ∷ d ∷ rs) =
                  rw took at e' in
                let same : c ∷ d ∷ rs ≡ record { req = req; resp = resp } ∷ [] =
                  ok_injective e₁ refl in
                let none_more : d ∷ rs ≡ [] = cc in cc
          ]
    ]
  ]

  -- What a watch may send before its loop: its first response, or nothing.
  pub data IsOpening : List CacheResponse → Type 0 where
    opens : (c : CacheResponse) → IsFirst c → IsOpening (c ∷ [])
    opens_not : ((c : CacheResponse) → IsFirst c → ⊥) → IsOpening []

  serve_first-IsOpening :
      (rs : List CacheResponse) → serve_first resolve known req taken ≡ ok rs → IsOpening rs
  unfolding serve_first
  serve_first-IsOpening [] e =
      opens_not λ c is. let m : In c [] = serve_first_complete [] c e is in elim m [ ]
  serve_first-IsOpening (c ∷ []) e = opens c (serve_first_sound (c ∷ []) c e (here refl))
  serve_first-IsOpening (c ∷ d ∷ rs) e = absurd (at_most_one c d rs e)

  -- A first response is resolved from the names without a panic, if one is to be sent.
  abbrev pub IsCalmFirst : Type 0
  IsCalmFirst =
      has_resource_diff known req.resource_names ≡ true
      → resolve (first_request resolve req) ≢ panic

  serve_first-ok :
      IsCalmFirst → (rs : List CacheResponse) × (serve_first resolve known req taken ≡ ok rs)
  unfolding serve_first
  serve_first-ok calm = elim (Bool-cases (has_resource_diff known req.resource_names)) [
    | inr known_all ↦ ([], rw known_all refl)
    | inl differs ↦ elim (Result-cases (resolve (first_request resolve req))) [
      | is_panic failed ↦ absurd (calm differs failed)
      | is_err e failed ↦ ([], rw (differs, failed) refl)
      | is_ok resp made ↦
          (sent_if taken (record { req = req; resp = resp }) [], rw (differs, made) refl)
    ]
  ]

  -- A watch whose resolutions do not panic sends this list of responses, in this order and each once: its
  -- first response, if a requested name is not known to the client, all requested names can be resolved
  -- together and the channel takes it; and then the answers to the changes that it meets before it ends,
  -- one for each that is resolved, with the caches as they are then, and that the channel takes.
  pub serve-eq-ok :
      (events : List Event)
      → IsCalmFirst
      → All (IsCalm req) (before_end req events)
      → (first : List CacheResponse) × IsOpening first
        × (serve resolve known req taken events
            ≡ ok (first ++ filter_map (answer_to req) (before_end req events)))
  unfolding serve
  serve-eq-ok events calm calm_later =
      let (first, served) = serve_first-ok calm in
      let looped =
        (serve_changes-eq-ok_iff req events (filter_map (answer_to req) (before_end req events))).1
          (calm_later, refl) in
      (first, serve_first-IsOpening first served, rw (served, looped) refl)
