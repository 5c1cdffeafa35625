-- ===== src/Names/RoundTrip.antt =====
-- A name that the controller makes is read back to what it was made of.
use grpc_traffic_controller.Prelude.{
  ℕ, ◌≤◌, pos, ◌≡◌, refl, ◌∙◌, Text, codes, List, [], ◌∷◌, some, All, Lacks, arith, split,
  split-join, cut, cut-append, cut_sound, ap, Option-cases, inl, inr,
}
use grpc_traffic_controller.Go.Path.{slash, IsPlain}
use grpc_traffic_controller.Go.Path.Plain.{join_path_of_IsPlain, All-one_part}
use grpc_traffic_controller.Go.Strconv.{
  itoa, format, atoi-itoa, IsDigit, format-IsDigit, format-ne-nil, max_int64,
}
use grpc_traffic_controller.Errors.{ok}
use grpc_traffic_controller.Names.{
  backend_name, parse_parts, parse_backend_name, parse_listener_name, listener_name,
}

digits-Lacks : (s : Text) → All IsDigit s → Lacks slash s
digits-Lacks [] h = tt
digits-Lacks (c ∷ s) h = (omega arith, digits-Lacks s h.1)

digits-IsPlain : (c : ℕ) (s : Text) → All IsDigit (c ∷ s) → IsPlain (c ∷ s)
digits-IsPlain c s h = record {
  nonempty = cc;
  not_dot = λ e. ground arith;
  not_dots = λ e. ground arith;
  one_part = digits-Lacks (c ∷ s) h;
}

itoa-IsPlain : (n : ℕ) → IsPlain (itoa (pos n))
unfolding itoa
itoa-IsPlain n = plain (format n) (format-ne-nil n) (format-IsDigit n)
  where
    plain : (s : Text) → (s ≡ [] → ⊥) → All IsDigit s → IsPlain s
    plain [] h _ = absurd (h refl)
    plain (c ∷ s) _ d = digits-IsPlain c s d

route-IsPlain : IsPlain (codes "route")
route-IsPlain = record {
  nonempty = cc;
  not_dot = λ e. ground arith;
  not_dots = λ e. ground arith;
  one_part = omega arith;
}

backend-IsPlain : IsPlain (codes "backend")
backend-IsPlain = record {
  nonempty = cc;
  not_dot = λ e. ground arith;
  not_dots = λ e. ground arith;
  one_part = omega arith;
}

abbrev name_parts : Text → Text → ℕ → ℕ → List Text
name_parts namespace name r b =
    namespace ∷ name ∷ codes "route" ∷ itoa (pos r) ∷ codes "backend" ∷ itoa (pos b) ∷ []

split-backend_name :
    (namespace name : Text) (r b : ℕ)
    → IsPlain namespace
    → IsPlain name
    → split b'/' (backend_name namespace name (pos r) (pos b)) ≡ name_parts namespace name r b
unfolding backend_name
split-backend_name namespace name r b hns hn =
    let plain : All IsPlain (name_parts namespace name r b) =
      (hns, (hn, (route-IsPlain, (itoa-IsPlain r, (backend-IsPlain, (itoa-IsPlain b, tt)))))) in
    let parts = name_parts namespace name r b in
    ap (split slash) (join_path_of_IsPlain namespace _ plain)
    ∙ split-join slash parts (cc) (All-one_part parts plain)

parse_parts_lem :
    (namespace name : Text) (r b : ℕ)
    → r ≤ max_int64
    → b ≤ max_int64
    → parse_parts (name_parts namespace name r b)
      ≡ some (record {
        namespace = namespace;
        listener_name = name;
        route_id = pos r;
        backend_id = pos b;
      })
unfolding parse_parts
parse_parts_lem namespace name r b hr hb = rw (atoi-itoa r hr, atoi-itoa b hb)

-- The name of a backend is read back to its namespace, listener and indices, if the namespace and
-- the listener's name are single path elements other than "", "." and "..", and the indices fit int.
pub parse_backend_name-backend_name :
    (namespace name : Text) (route_id backend_id : ℕ)
    → IsPlain namespace
    → IsPlain name
    → route_id ≤ max_int64
    → backend_id ≤ max_int64
    → parse_backend_name (backend_name namespace name (pos route_id) (pos backend_id))
      ≡ ok (record {
        namespace = namespace;
        listener_name = name;
        route_id = pos route_id;
        backend_id = pos backend_id;
      })
unfolding parse_backend_name
parse_backend_name-backend_name namespace name r b hns hn hr hb =
    rw (split-backend_name namespace name r b hns hn, parse_parts_lem namespace name r b hr hb)

-- The name of a listener is read back to its namespace and name, if the namespace has no slash.
pub parse_listener_name-listener_name :
    (namespace name : Text)
    → Lacks b'/' namespace
    → parse_listener_name (listener_name namespace name) ≡ ok (namespace, name)
unfolding parse_listener_name listener_name
parse_listener_name-listener_name namespace name h = rw (cut-append b'/' namespace name h)

-- Every name that is read as a listener's is the name of that listener.
pub listener_name-parse_listener_name :
    (resource_name namespace name : Text)
    → parse_listener_name resource_name ≡ ok (namespace, name)
    → listener_name namespace name ≡ resource_name
unfolding parse_listener_name listener_name
listener_name-parse_listener_name s namespace name e = elim (Option-cases (cut b'/' s)) [
  | inl missing ↦ ground arith
  | inr ((a, b), found) ↦ ground (arith, cut_sound b'/' s a b found)
]
