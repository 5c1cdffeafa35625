-- ===== src/Errors/Loops.antt =====
-- The loop `for i, x := range xs { ys[i], err = f(i, x); if err != nil { return nil, err } }`.
use grpc_traffic_controller.Prelude.{
  ℕ, zero, suc, ◌+◌, ◌≡◌, refl, ◌↔◌, List, [], ◌∷◌, some, length, get_elem?, arith, ap,
  add-suc_shift,
}
use native.Mathlib.Nat.{add-zero}
use grpc_traffic_controller.Errors.{Result, ok, ◌>>=◌, >>=-eq-ok}

module _ {ℓ κ} {A : Type ℓ} {B : Type κ} (f : ℕ → A → Result B) where
  unfoldable pub map_from : ℕ → List A → Result (List B)
  map_from i [] = ok []
  map_from i (x ∷ xs) = do y ← f i x; ys ← map_from (suc i) xs; ok (y ∷ ys)

  pub map_from-cons :
      (i : ℕ) (x : A) (xs : List A) (ys : List B)
      → map_from i (x ∷ xs) ≡ ok ys
      → (y : B) × (zs : List B) × (f i x ≡ ok y) × (map_from (suc i) xs ≡ ok zs) × (ys ≡ y ∷ zs)
  unfolding map_from
  map_from-cons i x xs ys e =
      let (y, here, rest) = >>=-eq-ok (f i x) _ e in
      let (zs, more, same) = >>=-eq-ok (map_from (suc i) xs) _ rest in (y, zs, here, more, cc)

  -- A loop that succeeds has one result for each element.
  pub length-map_from :
      (i : ℕ) (xs : List A) (ys : List B) → map_from i xs ≡ ok ys → length ys ≡ length xs
  length-map_from i [] ys e = unfold map_from in ground arith
  length-map_from i (x ∷ xs) ys e =
      let (y, zs, _, more, same) = map_from-cons i x xs ys e in
      rw same (ap suc (length-map_from (suc i) xs zs more))

  -- The result at an index is that of the element there.
  pub get_elem?-map_from :
      (i : ℕ) (xs : List A) (ys : List B)
      → map_from i xs ≡ ok ys
      → (j : ℕ) (x : A) → get_elem? xs j ≡ some x
      → (y : B) × (f (i + j) x ≡ ok y) × (get_elem? ys j ≡ some y)
  get_elem?-map_from i [] ys e j x at = cc
  get_elem?-map_from i (x ∷ xs) ys e zero x' at =
      let (y, zs, here, more, same) = map_from-cons i x xs ys e in
      let first : x ≡ x' = cc in (y, rw (add-zero, ← first) here, rw same)
  get_elem?-map_from i (x ∷ xs) ys e (suc j) x' at =
      let (y, zs, here, more, same) = map_from-cons i x xs ys e in
      let (z, there, found) = get_elem?-map_from (suc i) xs zs more j x' at in
      (z, rw (← add-suc_shift i j) there, rw same found)

  -- The loop succeeds if every round does.
  pub map_from_total :
      (i : ℕ) (xs : List A)
      → ((j : ℕ) (x : A) → get_elem? xs j ≡ some x → (y : B) × (f (i + j) x ≡ ok y))
      → (ys : List B) × (map_from i xs ≡ ok ys)
  unfolding map_from
  map_from_total i [] h = ([], refl)
  map_from_total i (x ∷ xs) h =
      let (y, here) = h 0 x refl in
      let here' = rw add-zero at here in
      let (ys, more) =
        map_from_total (suc i) xs (λ j x' at. rw (add-suc_shift i j) (h (suc j) x' at)) in
      (y ∷ ys, rw (here', more))

-- Two lists of one length whose elements at each place are related.
pub data Forall₂ {ℓ κ μ} {A : Type ℓ} {B : Type κ} (R : A → B → Type μ)
    : List A → List B → Type (ℓ ⊔ κ ⊔ μ) where
  nil : Forall₂ R [] []
  cons :
      {x : A} {y : B} {xs : List A} {ys : List B}
      → R x y
      → Forall₂ R xs ys
      → Forall₂ R (x ∷ xs) (y ∷ ys)

module _ {ℓ κ μ} {A : Type ℓ} {B : Type κ} {R : A → B → Type μ} (f : A → Result B)
    (spec : (x : A) (y : B) → (f x ≡ ok y) ↔ R x y) where
  pub map_from-Forall₂ :
      (i : ℕ) (xs : List A) (ys : List B) → map_from (λ _. f) i xs ≡ ok ys → Forall₂ R xs ys
  map_from-Forall₂ i [] ys e =
      let same : [] ≡ ys = unfold map_from in ground arith in rw (← same) nil
  map_from-Forall₂ i (x ∷ xs) ys e =
      let (y, zs, here, more, same) = map_from-cons (λ _. f) i x xs ys e in
      rw same (cons ((spec x y).0 here) (map_from-Forall₂ (suc i) xs zs more))

  pub Forall₂-map_from :
      (i : ℕ) (xs : List A) (ys : List B) → Forall₂ R xs ys → map_from (λ _. f) i xs ≡ ok ys
  unfolding map_from
  Forall₂-map_from i _ _ nil = refl
  Forall₂-map_from i _ _ (cons {x} {y} {xs} {ys} r rs) =
      rw ((spec x y).1 r, Forall₂-map_from (suc i) xs ys rs)
