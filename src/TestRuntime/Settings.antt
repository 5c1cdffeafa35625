-- ===== src/TestRuntime/Settings.antt =====
-- pkg/testruntime/builder.go: what each part of a backend that the options build comes from.
use grpc_traffic_controller.Prelude.{
  ℕ, ◌≡◌, refl, ◌∙◌, Text, List, [], ◌∷◌, map, Option, some, none, filter_map,
}
use grpc_traffic_controller.Api.{Interceptor, Backend, ServiceRef, Locality, RingHashConfig}
use grpc_traffic_controller.TestRuntime.Builders.{
  apply_all, BackendOption, with_max_requests, with_service_ref, with_localities,
  with_backend_interceptor_overrides, with_backend_ring_hash_config, with_backend_lb_policy,
  new_backend, build_backend,
}

-- A call of one of the functions that make an option of a backend.
pub data Setting : Type 0 where
  max_requests_to : ℕ → Setting
  service_to : ServiceRef → Setting
  localities_to : List Locality → Setting
  interceptors_to : List Interceptor → Setting
  ring_hash_to : RingHashConfig → Setting
  lb_policy_to : Text → Setting

-- The option that the call gives.
abbrev pub option_of : Setting → BackendOption
option_of (max_requests_to n) = with_max_requests n
option_of (service_to s) = with_service_ref s
option_of (localities_to ls) = with_localities ls
option_of (interceptors_to is) = with_backend_interceptor_overrides is
option_of (ring_hash_to c) = with_backend_ring_hash_config c
option_of (lb_policy_to p) = with_backend_lb_policy p

abbrev pub max_requests_in : Setting → Option (Option ℕ)
max_requests_in (max_requests_to n) = some (some n)
max_requests_in _ = none

abbrev pub service_in : Setting → Option (Option ServiceRef)
service_in (service_to s) = some (some s)
service_in _ = none

abbrev pub localities_in : Setting → Option (List Locality)
localities_in (localities_to ls) = some ls
localities_in _ = none

abbrev pub interceptors_in : Setting → Option (List Interceptor)
interceptors_in (interceptors_to is) = some is
interceptors_in _ = none

abbrev pub ring_hash_in : Setting → Option (Option RingHashConfig)
ring_hash_in (ring_hash_to c) = some (some c)
ring_hash_in _ = none

abbrev pub lb_policy_in : Setting → Option Text
lb_policy_in (lb_policy_to p) = some p
lb_policy_in _ = none

-- The last element of a list, or what stands before it.
abbrev pub last_or {ℓ} : {A : Type ℓ} → A → List A → A
last_or a [] = a
last_or a (x ∷ xs) = last_or x xs

-- The last value that the settings have for a part, or the one that there is without them.
abbrev pub last_set {ℓ} : {X : Type ℓ} → (Setting → Option X) → List Setting → X → X
last_set pick settings x = last_or x (filter_map pick settings)

abbrev or_before {ℓ} : {X : Type ℓ} → Option X → X → X
or_before none x = x
or_before (some y) x = y

last_set-cons {ℓ} :
    {X : Type ℓ} (pick : Setting → Option X) (o : Option X) (setting : Setting)
    (more : List Setting) (x : X)
    → pick setting ≡ o
    → last_set pick (setting ∷ more) x ≡ last_set pick more (or_before o x)
unfolding filter_map
last_set-cons pick none setting more x is = rw is refl
last_set-cons pick (some y) setting more x is = rw is refl

-- A part of the backend that every option sets to its value for that part, or leaves, is the last value.
apply_all-last_set {ℓ} :
    {X : Type ℓ} (part : Backend → X) (pick : Setting → Option X)
    → ((setting : Setting) (b : Backend)
        → part (option_of setting b) ≡ or_before (pick setting) (part b))
    → (settings : List Setting) (b : Backend)
    → part (apply_all (map option_of settings) b) ≡ last_set pick settings (part b)
unfolding apply_all filter_map
apply_all-last_set part pick sets [] b = refl
apply_all-last_set part pick sets (setting ∷ more) b =
    apply_all-last_set part pick sets more (option_of setting b)
    ∙ rw (sets setting b, last_set-cons pick (pick setting) setting more (part b) refl) refl

sets_max_requests :
    (setting : Setting) (b : Backend)
    → (option_of setting b).max_requests ≡ or_before (max_requests_in setting) b.max_requests
sets_max_requests (max_requests_to n) b = refl
sets_max_requests (service_to s) b = refl
sets_max_requests (localities_to ls) b = refl
sets_max_requests (interceptors_to is) b = refl
sets_max_requests (ring_hash_to c) b = refl
sets_max_requests (lb_policy_to p) b = refl

sets_service :
    (setting : Setting) (b : Backend)
    → (option_of setting b).service ≡ or_before (service_in setting) b.service
sets_service (max_requests_to n) b = refl
sets_service (service_to s) b = refl
sets_service (localities_to ls) b = refl
sets_service (interceptors_to is) b = refl
sets_service (ring_hash_to c) b = refl
sets_service (lb_policy_to p) b = refl

sets_localities :
    (setting : Setting) (b : Backend)
    → (option_of setting b).localities ≡ or_before (localities_in setting) b.localities
sets_localities (max_requests_to n) b = refl
sets_localities (service_to s) b = refl
sets_localities (localities_to ls) b = refl
sets_localities (interceptors_to is) b = refl
sets_localities (ring_hash_to c) b = refl
sets_localities (lb_policy_to p) b = refl

sets_interceptors :
    (setting : Setting) (b : Backend)
    → (option_of setting b).interceptors ≡ or_before (interceptors_in setting) b.interceptors
sets_interceptors (max_requests_to n) b = refl
sets_interceptors (service_to s) b = refl
sets_interceptors (localities_to ls) b = refl
sets_interceptors (interceptors_to is) b = refl
sets_interceptors (ring_hash_to c) b = refl
sets_interceptors (lb_policy_to p) b = refl

sets_ring_hash :
    (setting : Setting) (b : Backend)
    → (option_of setting b).ring_hash_config ≡ or_before (ring_hash_in setting) b.ring_hash_config
sets_ring_hash (max_requests_to n) b = refl
sets_ring_hash (service_to s) b = refl
sets_ring_hash (localities_to ls) b = refl
sets_ring_hash (interceptors_to is) b = refl
sets_ring_hash (ring_hash_to c) b = refl
sets_ring_hash (lb_policy_to p) b = refl

sets_lb_policy :
    (setting : Setting) (b : Backend)
    → (option_of setting b).lb_policy ≡ or_before (lb_policy_in setting) b.lb_policy
sets_lb_policy (max_requests_to n) b = refl
sets_lb_policy (service_to s) b = refl
sets_lb_policy (localities_to ls) b = refl
sets_lb_policy (interceptors_to is) b = refl
sets_lb_policy (ring_hash_to c) b = refl
sets_lb_policy (lb_policy_to p) b = refl

same_weight : (setting : Setting) (b : Backend) → (option_of setting b).weight ≡ b.weight
same_weight (max_requests_to n) b = refl
same_weight (service_to s) b = refl
same_weight (localities_to ls) b = refl
same_weight (interceptors_to is) b = refl
same_weight (ring_hash_to c) b = refl
same_weight (lb_policy_to p) b = refl

apply_all-same_weight :
    (settings : List Setting) (b : Backend)
    → (apply_all (map option_of settings) b).weight ≡ b.weight
unfolding apply_all
apply_all-same_weight [] b = refl
apply_all-same_weight (setting ∷ more) b =
    apply_all-same_weight more (option_of setting b) ∙ same_weight setting b

-- The backend that the options of some calls build, in any order and however often each is given: each part
-- is what the last option for that part gives, and what a new backend has if there is no such option; the
-- weight is 1.
pub build_backend-eq :
    (settings : List Setting)
    → build_backend (map option_of settings) ≡ record {
      weight = 1;
      max_requests = last_set max_requests_in settings none;
      lb_policy = last_set lb_policy_in settings [];
      ring_hash_config = last_set ring_hash_in settings none;
      interceptors = last_set interceptors_in settings [];
      service = last_set service_in settings none;
      localities = last_set localities_in settings [];
    }
unfolding build_backend
build_backend-eq settings = λ i. record {
  weight = apply_all-same_weight settings new_backend i;
  max_requests =
      apply_all-last_set (λ (b : Backend). b.max_requests) max_requests_in sets_max_requests
        settings new_backend i;
  lb_policy =
      apply_all-last_set (λ (b : Backend). b.lb_policy) lb_policy_in sets_lb_policy settings
        new_backend i;
  ring_hash_config =
      apply_all-last_set (λ (b : Backend). b.ring_hash_config) ring_hash_in sets_ring_hash settings
        new_backend i;
  interceptors =
      apply_all-last_set (λ (b : Backend). b.interceptors) interceptors_in sets_interceptors
        settings new_backend i;
  service =
      apply_all-last_set (λ (b : Backend). b.service) service_in sets_service settings new_backend
        i;
  localities =
      apply_all-last_set (λ (b : Backend). b.localities) localities_in sets_localities settings
        new_backend i;
}
