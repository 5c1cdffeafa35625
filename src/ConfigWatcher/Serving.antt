-- ===== src/ConfigWatcher/Serving.antt =====
-- gtc/cache.go: what a watch answers.
use grpc_traffic_controller.Prelude.{
  ◌≡◌, ◌≢◌, ◌↔◌, refl, sym, ap, ◌∙◌, List, [], ◌∷◌, ◌++◌, Bool, true, false, Option, none, some,
  All, filter_map, take_while,
}
use grpc_traffic_controller.Errors.{
  ok_injective, Error, Result, ok, err, panic, ◌>>=◌, bind_ok, is_ok, is_err, is_panic,
  Result-cases,
}
use grpc_traffic_controller.Resources.{ResolveResponse, ResourceResolver}
use grpc_traffic_controller.Watches.{ResourceRef}
use grpc_traffic_controller.ConfigWatcher.{
  Request, CacheResponse, Event, cancelled, closed, changed, sent_if, change_request, serve_changes,
}

module _ (req : Request) where
  serve_changes-ok :
      (r : ResourceRef) (resolve : ResourceResolver) (t : Bool) (more : List Event)
      (resp : ResolveResponse)
      → resolve (change_request resolve req r) ≡ ok resp
      → serve_changes req (changed r resolve t ∷ more) ≡ (
          serve_changes req more >>= λ rest.
          ok (sent_if t (record { req = req; resp = resp }) rest))
  unfolding serve_changes
  serve_changes-ok r resolve t more resp made = rw (serve_changes, made) refl

  serve_changes-err :
      (r : ResourceRef) (resolve : ResourceResolver) (t : Bool) (more : List Event) (x : Error)
      → resolve (change_request resolve req r) ≡ err x
      → serve_changes req (changed r resolve t ∷ more) ≡ serve_changes req more
  unfolding serve_changes
  serve_changes-err r resolve t more x failed = rw (serve_changes, failed) refl

  serve_changes-panic :
      (r : ResourceRef) (resolve : ResourceResolver) (t : Bool) (more : List Event)
      → resolve (change_request resolve req r) ≡ panic
      → serve_changes req (changed r resolve t ∷ more) ≡ panic
  unfolding serve_changes
  serve_changes-panic r resolve t more failed = rw (serve_changes, failed) refl

  -- What follows a change counts only by what it sends.
  serve_changes-cong :
      (r : ResourceRef) (resolve : ResourceResolver) (t : Bool) (more more' : List Event)
      → serve_changes req more ≡ serve_changes req more'
      → serve_changes req (changed r resolve t ∷ more)
        ≡ serve_changes req (changed r resolve t ∷ more')
  serve_changes-cong r resolve t more more' same =
      elim (Result-cases (resolve (change_request resolve req r))) [
        | is_ok resp made ↦
            rw
              (
                serve_changes-ok r resolve t more resp made,
                serve_changes-ok r resolve t more' resp made,
                same,
              )
              refl
        | is_err x failed ↦
            serve_changes-err r resolve t more x failed
            ∙ same
            ∙ sym (serve_changes-err r resolve t more' x failed)
        | is_panic failed ↦
            serve_changes-panic r resolve t more failed
            ∙ sym (serve_changes-panic r resolve t more' failed)
      ]

  -- A change that cannot be resolved ends nothing and changes no other response: what is sent is what is
  -- sent without it, wherever in the life of the watch it comes.
  pub serve_changes-skip :
      (before more : List Event) (ref : ResourceRef) (resolve : ResourceResolver) (taken : Bool)
      (e : Error)
      → resolve (change_request resolve req ref) ≡ err e
      → serve_changes req (before ++ changed ref resolve taken ∷ more)
        ≡ serve_changes req (before ++ more)
  unfolding serve_changes
  serve_changes-skip [] more ref resolve taken e fails =
      serve_changes-err ref resolve taken more e fails
  serve_changes-skip (cancelled ∷ before) more ref resolve taken e fails = refl
  serve_changes-skip (closed ∷ before) more ref resolve taken e fails = refl
  serve_changes-skip (changed r now t ∷ before) more ref resolve taken e fails =
      serve_changes-cong r now t (before ++ changed ref resolve taken ∷ more) (before ++ more)
        (serve_changes-skip before more ref resolve taken e fails)

  abbrev pub is_change : Event → Bool
  is_change cancelled = false
  is_change closed = false
  is_change (changed ref resolve taken) = true

  -- The events that the loop meets before the watch ends.
  abbrev pub before_end : List Event → List Event
  before_end events = take_while is_change events

  -- The answer to a resolution, if there is one and the channel takes it.
  abbrev pub taken_answer : Bool → Result ResolveResponse → Option CacheResponse
  taken_answer true (ok resp) = some (record { req = req; resp = resp })
  taken_answer true (err e) = none
  taken_answer true panic = none
  taken_answer false result = none

  abbrev pub answer_to : Event → Option CacheResponse
  answer_to cancelled = none
  answer_to closed = none
  answer_to (changed ref resolve taken) =
      taken_answer taken (resolve (change_request resolve req ref))

  -- The resolution for a change does not panic.
  abbrev pub IsCalm : Event → Type 0
  IsCalm cancelled = Unit
  IsCalm closed = Unit
  IsCalm (changed ref resolve taken) = resolve (change_request resolve req ref) ≢ panic

  answer_first :
      (ref : ResourceRef) (resolve : ResourceResolver) (t : Bool) (more : List Event)
      (resp : ResolveResponse)
      → resolve (change_request resolve req ref) ≡ ok resp
      → filter_map answer_to (changed ref resolve t ∷ more)
        ≡ sent_if t (record { req = req; resp = resp }) (filter_map answer_to more)
  unfolding filter_map
  answer_first ref resolve true more resp made = rw made refl
  answer_first ref resolve false more resp made = refl

  no_answer :
      (ref : ResourceRef) (resolve : ResourceResolver) (t : Bool) (more : List Event) (e : Error)
      → resolve (change_request resolve req ref) ≡ err e
      → filter_map answer_to (changed ref resolve t ∷ more) ≡ filter_map answer_to more
  unfolding filter_map
  no_answer ref resolve true more e failed = rw failed refl
  no_answer ref resolve false more e failed = refl

  serve_changes_complete :
      (events : List Event)
      → All IsCalm (before_end events)
      → serve_changes req events ≡ ok (filter_map answer_to (before_end events))
  unfolding serve_changes filter_map
  serve_changes_complete [] calm = refl
  serve_changes_complete (cancelled ∷ more) calm = refl
  serve_changes_complete (closed ∷ more) calm = refl
  serve_changes_complete (changed ref resolve t ∷ more) (calm, calm_later) =
      let later = serve_changes_complete more calm_later in
      elim (Result-cases (resolve (change_request resolve req ref))) [
        | is_panic failed ↦ absurd (calm failed)
        | is_err e failed ↦
            serve_changes-err ref resolve t more e failed
            ∙ later
            ∙ ap ok (sym (no_answer ref resolve t (before_end more) e failed))
        | is_ok resp made ↦
            serve_changes-ok ref resolve t more resp made
            ∙ rw later (ap ok (sym (answer_first ref resolve t (before_end more) resp made)))
      ]

  serve_changes-IsCalm :
      (events : List Event) (rs : List CacheResponse)
      → serve_changes req events ≡ ok rs
      → All IsCalm (before_end events)
  unfolding serve_changes
  serve_changes-IsCalm [] rs e = tt
  serve_changes-IsCalm (cancelled ∷ more) rs e = tt
  serve_changes-IsCalm (closed ∷ more) rs e = tt
  serve_changes-IsCalm (changed ref resolve t ∷ more) rs e =
      elim (Result-cases (resolve (change_request resolve req ref))) [
        | is_panic failed ↦
            absurd (
              let e₁ : panic ≡ ok rs = sym (serve_changes-panic ref resolve t more failed) ∙ e in
              cc)
        | is_err x failed ↦ (
          λ panics. cc,
          serve_changes-IsCalm more rs (sym (serve_changes-err ref resolve t more x failed) ∙ e),
        )
        | is_ok resp made ↦
            bind_ok (serve_changes req more)
              (sym (serve_changes-ok ref resolve t more resp made) ∙ e)
              λ rest looped e₁. (λ panics. cc, serve_changes-IsCalm more rest looped)
      ]

  -- The loop of a watch returns a list of responses exactly where no resolution before the end of the watch
  -- panics, and the list is then that of the answers to the changes before the end, in their order and each
  -- once: one for every change that is resolved, with the caches as they are then, and whose response the
  -- channel takes.
  pub serve_changes-eq-ok_iff :
      (events : List Event) (rs : List CacheResponse)
      → (serve_changes req events ≡ ok rs)
        ↔ ((All IsCalm (before_end events)) × (rs ≡ filter_map answer_to (before_end events)))
  serve_changes-eq-ok_iff events rs = (
    λ e.
        let calm = serve_changes-IsCalm events rs e in
        (calm, ok_injective e (serve_changes_complete events calm)),
    λ (calm, same). serve_changes_complete events calm ∙ ap ok (sym same),
  )
