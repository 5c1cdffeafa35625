-- ===== src/Names/Accepted.antt =====
-- Names that are read although the controller does not make them.
use grpc_traffic_controller.Prelude.{
  negsuc, ◌≡◌, ◌↔◌, refl, Text, codes, List, [], ◌∷◌, some, arith, split, Option-cases, inl, inr,
}
use grpc_traffic_controller.Go.Strconv.{atoi}
use grpc_traffic_controller.Errors.{ok}
use grpc_traffic_controller.Names.{ParsedBackendName, parse_parts, parse_backend_name}

-- What a name is read as: its six parts, of which the third and the fifth are arbitrary.
pub record IsBackendName (s : Text) (p : ParsedBackendName) : Type 0 where
  pub route : Text
  pub route_number : Text
  pub backend : Text
  pub backend_number : Text
  pub parts :
      split b'/' s
      ≡ p.namespace ∷ p.listener_name ∷ route ∷ route_number ∷ backend ∷ backend_number ∷ []
  pub route_id : atoi route_number ≡ some p.route_id
  pub backend_id : atoi backend_number ≡ some p.backend_id

parse_parts_sound :
    (s : Text) (parts : List Text) (p : ParsedBackendName)
    → split b'/' s ≡ parts
    → parse_parts parts ≡ some p
    → IsBackendName s p
unfolding parse_parts
parse_parts_sound s (ns ∷ name ∷ route ∷ r ∷ backend ∷ b ∷ []) p e h =
    elim (Option-cases (atoi r)) [
      | inl none_r ↦ absurd (ground arith)
      | inr (i, some_r) ↦ elim (Option-cases (atoi b)) [
        | inl none_b ↦ absurd (ground arith)
        | inr (j, some_b) ↦ record {
          route = route;
          route_number = r;
          backend = backend;
          backend_number = b;
          parts = ground arith;
          route_id = ground arith;
          backend_id = ground arith;
        }
      ]
    ]
parse_parts_sound s parts p e h = cc

-- A name is read as a backend's exactly when it has six parts, whatever the third and the fifth are,
-- of which the fourth and the sixth are decimal ints, with or without a sign; the first two are the
-- namespace and the listener.
pub parse_backend_name_iff :
    (s : Text) (p : ParsedBackendName) → (parse_backend_name s ≡ ok p) ↔ IsBackendName s p
unfolding parse_backend_name
parse_backend_name_iff s p =
    (accepted, λ h. rw (h.parts) (unfold parse_parts in rw (h.route_id, h.backend_id)))
  where
    accepted : parse_backend_name s ≡ ok p → IsBackendName s p
    accepted e = parse_parts_sound s (split b'/' s) p refl (ground arith)

-- "-1" is the index -1.
minus_one : atoi (codes "-1") ≡ some (negsuc 0)
unfolding atoi
minus_one = refl
