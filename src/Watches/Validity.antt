-- ===== src/Watches/Validity.antt =====
-- gtc/watcher.go: the invariant of the watches, and what each operation does to who watches what.
use grpc_traffic_controller.Prelude.{
  ℕ, ◌<◌, ◌≡◌, refl, sym, ◌∙◌, inl, inr, List, [], ◌∷◌, ◌++◌, some, none, Bool, false,
  if◌then◌else◌, Bool-cases, Option-cases, arith, length,
}
use grpc_traffic_controller.Watches.{
  ResourceRef, ref_eq, Watches, new_watches, find_address, read, get_resource_watchers,
  create_resource_watchers, get_or_create_resource_watchers, contains, update_at, notify_changed,
}
use grpc_traffic_controller.Watches.Laws.{
  ref_eq_refl, ref_eq→eq, read-write, read-write_other, length-write, length-allocate,
  read-allocate, read_beyond,
}

-- Every address of the table is one of the heap, and no two resources share a set.
pub record IsValid (ws : Watches) : Type 0 where
  pub bounded :
      (ref : ResourceRef) (a : ℕ) → get_resource_watchers ws ref ≡ some a → a < length ws.heap
  pub distinct :
      (ref ref' : ResourceRef) (a : ℕ)
      → get_resource_watchers ws ref ≡ some a
      → get_resource_watchers ws ref' ≡ some a
      → ref ≡ ref'

pub new_watches-IsValid : IsValid new_watches
unfolding get_resource_watchers find_address
new_watches-IsValid = record {
  bounded = λ ref a e. absurd (cc);
  distinct = λ ref ref' a e e'. absurd (cc);
}

-- Whether a watcher watches a resource: whether it is told of a change.
abbrev pub is_watching : ℕ → ResourceRef → Watches → Bool
is_watching v ref ws = contains v (notify_changed ws ref)

notify_changed-some :
    (ws : Watches) (ref : ResourceRef) (a : ℕ)
    → get_resource_watchers ws ref ≡ some a
    → notify_changed ws ref ≡ read ws.heap a
unfolding notify_changed
notify_changed-some ws ref a e = rw (notify_changed, e) refl

pub notify_changed-none :
    (ws : Watches) (ref : ResourceRef)
    → get_resource_watchers ws ref ≡ none
    → notify_changed ws ref ≡ []
unfolding notify_changed
notify_changed-none ws ref e = rw (notify_changed, e) refl

-- A set written at the address of a resource is that of this resource, and no other.
pub update_at-IsValid :
    (ws : Watches) (a : ℕ) (f : List ℕ → List ℕ) → IsValid ws → IsValid (update_at ws a f)
unfolding get_resource_watchers
update_at-IsValid ws a f valid = record {
  bounded = λ ref b e. rw (length-write ws.heap a (f (read ws.heap a))) (valid.bounded ref b e);
  distinct = valid.distinct;
}

pub notify_changed-update_at :
    (ws : Watches) (ref ref' : ResourceRef) (a : ℕ) (f : List ℕ → List ℕ)
    → IsValid ws
    → get_resource_watchers ws ref ≡ some a
    → notify_changed (update_at ws a f) ref'
      ≡ (if ref_eq ref ref' then f (notify_changed ws ref') else notify_changed ws ref')
unfolding notify_changed get_resource_watchers
notify_changed-update_at ws ref ref' a f valid e = elim (Bool-cases (ref_eq ref ref')) [
  | inl e' ↦
      let same : ref ≡ ref' = ref_eq→eq ref ref' e' in
      let found : find_address ref' ws.table ≡ some a = rw (← same) e in
      rw (e', notify_changed, get_resource_watchers, found)
        (read-write ws.heap a (f (read ws.heap a)) (valid.bounded ref a e))
  | inr e' ↦ elim (Option-cases (find_address ref' ws.table)) [
    | inl missing ↦ rw (e', notify_changed, get_resource_watchers, missing) refl
    | inr (b, found) ↦
        rw (e', notify_changed, get_resource_watchers, found)
          (read-write_other ws.heap a b (f (read ws.heap a)) λ same.
            let e₂ : ref ≡ ref' = valid.distinct ref ref' b (rw same at e) found in
            let e₃ : ref_eq ref' ref' ≡ false = rw e₂ at e' in let e₄ = ref_eq_refl ref' in cc)
  ]
]

-- What getOrCreateResourceWatchers gives: the address of the resource in watches that are still valid,
-- where nobody's set has changed.
pub record IsCreated (ws : Watches) (ref : ResourceRef) (a : ℕ) (ws' : Watches) : Type 0 where
  pub valid : IsValid ws'
  pub found : get_resource_watchers ws' ref ≡ some a
  pub same_addresses :
      (ref' : ResourceRef) (b : ℕ)
      → get_resource_watchers ws ref' ≡ some b
      → get_resource_watchers ws' ref' ≡ some b
  pub kept : (ref' : ResourceRef) → notify_changed ws' ref' ≡ notify_changed ws ref'

abbrev allocate : Watches → ResourceRef → Watches
allocate ws ref = record { table = (ref, length ws.heap) ∷ ws.table; heap = ws.heap ++ [] ∷ [] }

allocate-IsValid :
    (ws : Watches) (ref : ResourceRef)
    → get_resource_watchers ws ref ≡ none
    → IsValid ws
    → IsValid (allocate ws ref)
unfolding get_resource_watchers find_address
allocate-IsValid ws ref missing valid = record {
  bounded = λ ref' a e.
      let grown = length-allocate ws.heap in
      elim (Bool-cases (ref_eq ref ref')) [
        | inl e' ↦ ground arith
        | inr e' ↦ let old = valid.bounded ref' a (ground arith) in ground arith
      ];
  distinct = λ r r' a e e'. elim (Bool-cases (ref_eq ref r)) [
    | inl is ↦ elim (Bool-cases (ref_eq ref r')) [
      | inl is' ↦ sym (ref_eq→eq ref r is) ∙ ref_eq→eq ref r' is'
      | inr other' ↦ absurd (let old = valid.bounded r' a (ground arith) in ground arith)
    ]
    | inr other ↦ elim (Bool-cases (ref_eq ref r')) [
      | inl is' ↦ absurd (let old = valid.bounded r a (ground arith) in ground arith)
      | inr other' ↦ valid.distinct r r' a (ground arith) (ground arith)
    ]
  ];
}

notify_changed-allocate :
    (ws : Watches) (ref ref' : ResourceRef)
    → get_resource_watchers ws ref ≡ none
    → notify_changed (allocate ws ref) ref' ≡ notify_changed ws ref'
unfolding notify_changed get_resource_watchers find_address
notify_changed-allocate ws ref ref' missing = elim (Bool-cases (ref_eq ref ref')) [
  | inl e ↦
      let same : ref ≡ ref' = ref_eq→eq ref ref' e in
      let gone : find_address ref' ws.table ≡ none = rw (← same) missing in
      rw (notify_changed, get_resource_watchers, find_address, e, gone)
        (read-allocate ws.heap (length ws.heap)
          ∙ read_beyond ws.heap (length ws.heap) (omega arith))
  | inr e ↦
      rw (notify_changed, get_resource_watchers, find_address, e)
        (elim (Option-cases (find_address ref' ws.table)) [
          | inl gone ↦ rw gone (sym (notify_changed-none ws ref' gone))
          | inr (a, found) ↦
              rw found (read-allocate ws.heap a ∙ sym (notify_changed-some ws ref' a found))
        ])
]

find_address-allocate :
    (ws : Watches) (ref ref' : ResourceRef) (b : ℕ)
    → get_resource_watchers ws ref ≡ none
    → get_resource_watchers ws ref' ≡ some b
    → get_resource_watchers (allocate ws ref) ref' ≡ some b
unfolding get_resource_watchers find_address
find_address-allocate ws ref ref' b missing found = elim (Bool-cases (ref_eq ref ref')) [
  | inl e ↦
      let same : find_address ref' ws.table ≡ none = rw (← ref_eq→eq ref ref' e) missing in
      absurd (cc)
  | inr e ↦ ground arith
]

-- The part under the lock gives the address of a set of the resource that is in the table: where another
-- call has made one since the first look, it is that one.
pub create-IsCreated :
    (ws : Watches) (ref : ResourceRef)
    → IsValid ws
    → IsCreated ws ref (create_resource_watchers ws ref).0 (create_resource_watchers ws ref).1
unfolding create_resource_watchers
create-IsCreated ws ref valid = elim (Option-cases (get_resource_watchers ws ref)) [
  | inl missing ↦
      rw (create_resource_watchers, missing)
        (record {
          valid = allocate-IsValid ws ref missing valid;
          found = rw (get_resource_watchers, find_address, ref_eq_refl ref) refl;
          same_addresses = λ ref' b found. find_address-allocate ws ref ref' b missing found;
          kept = λ ref'. notify_changed-allocate ws ref ref' missing;
        })
  | inr (a, found) ↦
      rw (create_resource_watchers, found)
        (record {
          valid = valid;
          found = found;
          same_addresses = λ ref' b e. e;
          kept = λ ref'. refl;
        })
]

pub get_or_create-IsCreated :
    (ws : Watches) (ref : ResourceRef)
    → IsValid ws
    → IsCreated ws ref
        (get_or_create_resource_watchers ws ref).0
        (get_or_create_resource_watchers ws ref).1
unfolding get_or_create_resource_watchers
get_or_create-IsCreated ws ref valid = elim (Option-cases (get_resource_watchers ws ref)) [
  | inl missing ↦ rw (get_or_create_resource_watchers, missing) (create-IsCreated ws ref valid)
  | inr (a, found) ↦
      rw (get_or_create_resource_watchers, found)
        (record {
          valid = valid;
          found = found;
          same_addresses = λ ref' b e. e;
          kept = λ ref'. refl;
        })
]
