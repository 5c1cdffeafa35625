-- ===== src/Endpoints/Ports.antt =====
-- gtc/endpoint.go: which port of a slice a reference stands for.
use grpc_traffic_controller.Prelude.{
  ap, ℕ, ℤ, pos, negsuc, eq_ℤ, to_uint32, ◌≡◌, refl, ◌↔◌, ◌≢◌, inl, inr, Text, List, [], ◌∷◌, some,
  Bool, true, arith, Bool-cases, Option-cases, text_eq, text_eq_iff, text_eq→eq, if◌then◌else◌,
}
use mathlib.Core.Path.{fun_ext}
use grpc_traffic_controller.Api.{PortRef}
use grpc_traffic_controller.Kubernetes.{EndpointPort}
use grpc_traffic_controller.Endpoints.Slices.{accepted_port, first_port, lookup_k8s_port}

-- An entry that a reference stands for: it has a name and a number, and the name is the reference's, or
-- the number is, if the reference has no name.
pub data Fits (ref : PortRef) (p : EndpointPort) : ℤ → Type 0 where
  by_name :
      (number : ℤ)
      → ref.name ≢ []
      → p.name ≡ some ref.name
      → p.port ≡ some number
      → Fits ref p number
  by_number :
      (name : Text) (number : ℤ)
      → ref.name ≡ []
      → p.name ≡ some name
      → p.port ≡ some number
      → number ≡ ref.number
      → Fits ref p number

-- The number of the first entry that a reference stands for.
pub data First (ref : PortRef) : List EndpointPort → ℤ → Type 0 where
  found :
      {p : EndpointPort} {ps : List EndpointPort} {number : ℤ}
      → Fits ref p number
      → First ref (p ∷ ps) number
  later :
      {p : EndpointPort} {ps : List EndpointPort} {number : ℤ}
      → ((n : ℤ) → ¬ Fits ref p n)
      → First ref ps number
      → First ref (p ∷ ps) number

eq_ℤ→eq : (a b : ℤ) → eq_ℤ a b ≡ true → a ≡ b
eq_ℤ→eq (pos a) (pos b) e = ground arith
eq_ℤ→eq (negsuc a) (negsuc b) e = ground arith
eq_ℤ→eq (pos a) (negsuc b) e = cc
eq_ℤ→eq (negsuc a) (pos b) e = cc

eq_ℤ_refl : (a : ℤ) → eq_ℤ a a ≡ true
eq_ℤ_refl (pos a) = ground arith
eq_ℤ_refl (negsuc a) = ground arith

-- The test of lookupK8sPort for a reference.
abbrev test_of : PortRef → Text → ℤ → Bool
test_of ref name number =
    if text_eq ref.name [] then eq_ℤ number ref.number else text_eq name ref.name

accepted_sound :
    (ref : PortRef) (p : EndpointPort) (port : ℕ)
    → accepted_port (test_of ref) p ≡ some port
    → (number : ℤ) × Fits ref p number × (port ≡ to_uint32 number)
unfolding accepted_port
accepted_sound ref p port e = elim (Option-cases p.name) [
  | inl e₁ ↦ absurd (ground arith)
  | inr (name, e₁) ↦ elim (Option-cases p.port) [
    | inl e₂ ↦ absurd (ground arith)
    | inr (number, e₂) ↦ elim (Bool-cases (text_eq ref.name [])) [
      | inl unnamed ↦ (
        number,
        by_number name number (text_eq→eq ref.name [] unnamed) e₁ e₂
            (eq_ℤ→eq number ref.number (ground arith)),
        ground arith,
      )
      | inr named ↦ (
        number,
        by_name number (λ h. ground (arith, text_eq_iff ref.name []))
            (ground (arith, text_eq_iff name ref.name)) e₂,
        ground arith,
      )
    ]
  ]
]

accepted_complete :
    (ref : PortRef) (p : EndpointPort) (number : ℤ)
    → Fits ref p number
    → accepted_port (test_of ref) p ≡ some (to_uint32 number)
unfolding accepted_port
accepted_complete ref p _ (by_name number named e₁ e₂) =
    ground (arith, text_eq_iff ref.name [], text_eq_iff ref.name ref.name)
accepted_complete ref p _ (by_number name number unnamed e₁ e₂ same) =
    ground (arith, text_eq_iff ref.name [], eq_ℤ_refl ref.number)

First-sound :
    (ref : PortRef) (ps : List EndpointPort) (port : ℕ)
    → first_port (test_of ref) ps ≡ some port
    → (number : ℤ) × First ref ps number × (port ≡ to_uint32 number)
unfolding first_port
First-sound ref [] port e = cc
First-sound ref (p ∷ ps) port e = elim (Option-cases (accepted_port (test_of ref) p)) [
  | inr (q, taken) ↦
      let same : q ≡ port = ground arith in
      let (number, fits, eq) = accepted_sound ref p port (rw same at taken) in
      (number, found fits, eq)
  | inl refused ↦
      let (number, first, eq) = First-sound ref ps port (ground arith) in
      (
        number,
        later (λ n fits. let taken = accepted_complete ref p n fits in ground arith) first,
        eq,
      )
]

First-complete :
    (ref : PortRef) (ps : List EndpointPort) (number : ℤ)
    → First ref ps number
    → first_port (test_of ref) ps ≡ some (to_uint32 number)
unfolding first_port
First-complete ref _ _ (found {p} {ps} {number} fits) =
    let taken = accepted_complete ref p number fits in ground arith
First-complete ref _ _ (later {p} {ps} {number} refused first) =
    elim (Option-cases (accepted_port (test_of ref) p)) [
      | inl missed ↦ rw (missed, first_port) (First-complete ref ps number first)
      | inr (q, taken) ↦ let (n, fits, _) = accepted_sound ref p q taken in absurd (refused n fits)
    ]

lookup-test_of :
    (ref : PortRef) (ps : List EndpointPort) → lookup_k8s_port ref ps ≡ first_port (test_of ref) ps
unfolding lookup_k8s_port
lookup-test_of ref ps = elim (Bool-cases (text_eq ref.name [])) [
  | inl unnamed ↦
      rw unnamed (ap (λ t. first_port t ps) (fun_ext λ name. fun_ext λ port. rw unnamed refl))
  | inr named ↦ rw named (ap (λ t. first_port t ps) (fun_ext λ name. fun_ext λ port. rw named refl))
]

-- The port of a reference is found exactly when an entry of the slice has a name and a number, and the
-- reference's name or, if it has none, its number; it is the number of the first such entry, as an
-- unsigned 32-bit number.
pub lookup_k8s_port-eq-some_iff :
    (ref : PortRef) (ps : List EndpointPort) (port : ℕ)
    → (lookup_k8s_port ref ps ≡ some port)
      ↔ ((number : ℤ) × First ref ps number × (port ≡ to_uint32 number))
lookup_k8s_port-eq-some_iff ref ps port = (
  λ e. First-sound ref ps port (rw (lookup-test_of ref ps) at e),
  λ (number, first, eq). rw (lookup-test_of ref ps, eq) (First-complete ref ps number first),
)
