-- ===== src/TestRuntime/Counts.antt =====
-- pkg/testruntime/assert.go: what the counts of calls count, and when one backend has got all of them.
use grpc_traffic_controller.Prelude.{
  ℕ, suc, ◌+◌, ◌<◌, ◌≡◌, ◌↔◌, refl, sym, ◌∙◌, inl, inr, Text, List, [], ◌∷◌, true, false, ◌==◌,
  if◌then◌else◌, text_eq, text_eq_refl, text_eq→eq, Bool-cases, arith,
}
use grpc_traffic_controller.TestRuntime.Calls.{
  Call, has_failed, Counts, count_at, increment, count_by_backend_id, got_all_calls,
  assert_one_backend_got_all_calls,
}

-- How many calls of a list a backend has answered.
abbrev pub answered_by : Text → List Call → ℕ
answered_by id [] = 0
answered_by id (c ∷ calls) =
    let rest = answered_by id calls in
    if has_failed c then rest else if text_eq c.backend_id id then suc rest else rest

text_eq_sym : (a b : Text) → text_eq a b ≡ text_eq b a
text_eq_sym a b = elim (Bool-cases (text_eq a b)) [
  | inl e ↦ let same : a ≡ b = text_eq→eq a b e in rw (same, text_eq_refl b) refl
  | inr e ↦ elim (Bool-cases (text_eq b a)) [
    | inr e' ↦ e ∙ sym e'
    | inl e' ↦ absurd (
        let same : b ≡ a = text_eq→eq b a e' in
        let is : text_eq a a ≡ false = rw same at e in
        let both : true ≡ false = sym (text_eq_refl a) ∙ is in cc)
  ]
]

count_at-increment :
    (id key : Text) (agg : Counts)
    → count_at id (increment key agg)
      ≡ (if text_eq key id then suc (count_at id agg) else count_at id agg)
unfolding count_at increment
count_at-increment id key [] = ground arith
count_at-increment id key ((k, c) ∷ more) =
    let rest = count_at-increment id key more in
    elim (Bool-cases (text_eq k key)) [
      | inl e ↦ let same : k ≡ key = text_eq→eq k key e in rw (e, same) (ground arith)
      | inr e ↦ elim (Bool-cases (text_eq k id)) [
        | inr e' ↦ rw (e, e') rest
        | inl e' ↦
            let same : k ≡ id = text_eq→eq k id e' in
            let other : text_eq key id ≡ false = text_eq_sym key id ∙ rw same at e in
            rw (e, e', other) refl
      ]
    ]

count_by_backend_id-counts :
    (id : Text) (calls : List Call) (agg : Counts)
    → count_at id (count_by_backend_id calls agg) ≡ count_at id agg + answered_by id calls
unfolding count_by_backend_id
count_by_backend_id-counts id [] agg = ground arith
count_by_backend_id-counts id (c ∷ calls) agg = elim (Bool-cases (has_failed c)) [
  | inl e ↦ rw e (count_by_backend_id-counts id calls agg)
  | inr e ↦
      let rest = count_by_backend_id-counts id calls (increment c.backend_id agg) in
      let one = count_at-increment id c.backend_id agg in
      rw (e, rest, one)
        (elim (Bool-cases (text_eq c.backend_id id)) [
          | inl e' ↦ rw e' (omega arith)
          | inr e' ↦ rw e' refl
        ])
]

-- A map whose keys differ and whose values are positive.
abbrev AreCounts : Counts → Type 0
AreCounts [] = Unit
AreCounts ((k, c) ∷ more) = (0 < c) × (count_at k more ≡ 0) × AreCounts more

AreCounts-increment : (key : Text) (agg : Counts) → AreCounts agg → AreCounts (increment key agg)
unfolding increment count_at
AreCounts-increment key [] _ = (omega arith, refl, tt)
AreCounts-increment key ((k, c) ∷ more) (positive, fresh, rest) =
    elim (Bool-cases (text_eq k key)) [
      | inl e ↦ rw e (omega arith, fresh, rest)
      | inr e ↦
          let other : text_eq key k ≡ false = text_eq_sym key k ∙ e in
          let kept = count_at-increment k key more in
          let still : count_at k (increment key more) ≡ 0 = rw (kept, other) fresh in
          rw e (positive, still, AreCounts-increment key more rest)
    ]

AreCounts-count_by_backend_id :
    (calls : List Call) (agg : Counts) → AreCounts agg → AreCounts (count_by_backend_id calls agg)
unfolding count_by_backend_id
AreCounts-count_by_backend_id [] agg are = are
AreCounts-count_by_backend_id (c ∷ calls) agg are = elim (Bool-cases (has_failed c)) [
  | inl e ↦ rw e (AreCounts-count_by_backend_id calls agg are)
  | inr e ↦ rw e (
      AreCounts-count_by_backend_id calls (increment c.backend_id agg)
        (AreCounts-increment c.backend_id agg are))
]

module _ (want : ℕ) (some_wanted : 0 < want) where
  -- Once a backend has got all calls, no other has got any.
  no_other : (agg : Counts) → AreCounts agg → got_all_calls want true agg ≡ true → agg ≡ []
  unfolding got_all_calls
  no_other [] _ _ = refl
  no_other ((k, c) ∷ more) (positive, fresh, rest) e = absurd (ground arith)

  -- The counts of calls that one backend has got.
  abbrev AllAt : Text → Counts → Type 0
  AllAt id agg = (k : Text) → count_at k agg ≡ (if text_eq id k then want else 0)

  got_all_sound :
      (agg : Counts)
      → AreCounts agg
      → got_all_calls want false agg ≡ true
      → (id : Text) × AllAt id agg
  unfolding got_all_calls count_at
  got_all_sound [] _ e = absurd (cc)
  got_all_sound ((k, c) ∷ more) (positive, fresh, rest) e = elim (Bool-cases (c == want)) [
    | inr differs ↦ absurd (ground arith)
    | inl is ↦
        let same : c ≡ want = ground arith in
        let found : got_all_calls want true more ≡ true = ground arith in
        let none_left = no_other more rest found in (k, λ k'. rw (none_left, same) refl)
  ]

  got_all_complete :
      (agg : Counts) (id : Text)
      → AreCounts agg
      → AllAt id agg
      → got_all_calls want false agg ≡ true
  unfolding got_all_calls count_at
  got_all_complete [] id _ all =
      absurd
        (let here_is = all id in let is : 0 ≡ want = rw (text_eq_refl id) at here_is in omega arith)
  got_all_complete ((k, c) ∷ []) id (positive, fresh, rest) all =
      let counted = all k in
      elim (Bool-cases (text_eq id k)) [
        | inl e ↦ let is : c ≡ want = rw (text_eq_refl k, e) at counted in ground arith
        | inr e ↦ absurd (let is : c ≡ 0 = rw (text_eq_refl k, e) at counted in omega arith)
      ]
  got_all_complete ((k, c) ∷ (k₂, c₂) ∷ more) id (positive, fresh, (positive₂, fresh₂, rest)) all =
      let counted = all k in
      let counted₂ = all k₂ in
      elim (Bool-cases (text_eq k k₂)) [
        | inl e ↦
            let same : k₂ ≡ k = sym (text_eq→eq k k₂ e) in
            absurd (let is : c₂ ≡ 0 = rw (same, text_eq_refl k) at fresh in omega arith)
        | inr e ↦ elim (Bool-cases (text_eq id k)) [
          | inr e' ↦ absurd (let is : c ≡ 0 = rw (text_eq_refl k, e') at counted in omega arith)
          | inl e' ↦
              let same : id ≡ k = text_eq→eq id k e' in
              absurd (let is : c₂ ≡ 0 = rw (e, text_eq_refl k₂, same, e) at counted₂ in omega arith)
        ]
      ]

-- The assertion that one backend has got all of a number of calls passes exactly where one backend has
-- answered that many of the calls, and no other has answered any. The number is not zero.
pub assert_one_backend_iff :
    (want : ℕ) (calls : List Call)
    → 0 < want
    → (assert_one_backend_got_all_calls want (count_by_backend_id calls []) ≡ true)
      ↔ ((id : Text) × ((k : Text) → answered_by k calls ≡ (if text_eq id k then want else 0)))
unfolding assert_one_backend_got_all_calls count_at
assert_one_backend_iff want calls some_wanted =
    let are = AreCounts-count_by_backend_id calls [] tt in
    let counts : (k : Text) → count_at k (count_by_backend_id calls []) ≡ answered_by k calls =
      λ k. let h = count_by_backend_id-counts k calls [] in omega arith in
    (
      λ passes.
          let (id, all) =
            got_all_sound want some_wanted (count_by_backend_id calls []) are passes in
          (id, λ k. sym (counts k) ∙ all k),
      λ (id, all).
          got_all_complete want some_wanted (count_by_backend_id calls []) id are
            (λ k. counts k ∙ all k),
    )
