-- ===== src/ConfigWatcher/Diff.antt =====
-- gtc/cache.go: when a watch starts with a response.
use grpc_traffic_controller.Prelude.{
  ◌≡◌, ◌↔◌, refl, sym, inl, inr, Text, List, [], ◌∷◌, true, text_eq, text_eq→eq, text_eq_refl,
  Bool-cases, arith, In, here, there,
}
use grpc_traffic_controller.ConfigWatcher.{is_known, has_resource_diff}

is_known_sound : (n : Text) (known : List Text) → is_known n known ≡ true → In n known
unfolding is_known
is_known_sound n [] e = absurd (cc)
is_known_sound n (k ∷ ks) e = elim (Bool-cases (text_eq k n)) [
  | inl same ↦ here (sym (text_eq→eq k n same))
  | inr other ↦ there (is_known_sound n ks (ground arith))
]

is_known_complete : (n : Text) (known : List Text) → In n known → is_known n known ≡ true
unfolding is_known
is_known_complete n [] m = elim m [ ]
is_known_complete n (k ∷ ks) (here e) = rw (e, text_eq_refl k) refl
is_known_complete n (k ∷ ks) (there m) = let rest = is_known_complete n ks m in ground arith

diff_sound :
    (known names : List Text)
    → has_resource_diff known names ≡ true
    → (n : Text) × In n names × (¬ In n known)
unfolding has_resource_diff
diff_sound known [] e = absurd (cc)
diff_sound known (n ∷ ns) e = elim (Bool-cases (is_known n known)) [
  | inl present ↦
      let (m, listed, new) = diff_sound known ns (ground arith) in (m, there listed, new)
  | inr absent ↦ (n, here refl, λ m. let found = is_known_complete n known m in cc)
]

diff_complete :
    (known names : List Text) (n : Text)
    → In n names
    → ¬ In n known
    → has_resource_diff known names ≡ true
unfolding has_resource_diff
diff_complete known [] n m new = elim m [ ]
diff_complete known (first ∷ ns) n (here e) new = elim (Bool-cases (is_known first known)) [
  | inl present ↦ absurd (new (rw e (is_known_sound first known present)))
  | inr absent ↦ ground arith
]
diff_complete known (first ∷ ns) n (there m) new =
    let rest = diff_complete known ns n m new in ground arith

-- A watch starts with a response for all its names exactly when one of them is not known to the client.
pub has_resource_diff_iff :
    (known names : List Text)
    → (has_resource_diff known names ≡ true) ↔ ((n : Text) × In n names × (¬ In n known))
has_resource_diff_iff known names =
    (diff_sound known names, λ (n, m, new). diff_complete known names n m new)
