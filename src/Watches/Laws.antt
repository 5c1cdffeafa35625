-- ===== src/Watches/Laws.antt =====
-- gtc/watcher.go: the maps and sets that the watches are kept in.
use grpc_traffic_controller.Prelude.{
  ℕ, zero, suc, ◌<◌, ◌≤◌, ◌≡◌, ◌≢◌, refl, ap, inl, inr, List, [], ◌∷◌, ◌++◌, Bool, true, false,
  ◌&&◌, ◌||◌, not, Bool-cases, text_eq, text_eq_refl, text_eq→eq, arith, length, ◌==◌,
}
use grpc_traffic_controller.Watches.{
  ResourceRef, ref_eq, read, write, contains, delete, add_watcher, stop_watch,
}

pub ref_eq_refl : (a : ResourceRef) → ref_eq a a ≡ true
unfolding ref_eq
ref_eq_refl a = rw (text_eq_refl a.type_url, text_eq_refl a.resource_name) refl

&&-left : (a b : Bool) → (a && b) ≡ true → a ≡ true
&&-left true b e = refl
&&-left false b e = cc

&&-right : (a b : Bool) → (a && b) ≡ true → b ≡ true
&&-right true b e = e
&&-right false b e = cc

pub ref_eq→eq : (a b : ResourceRef) → ref_eq a b ≡ true → a ≡ b
unfolding ref_eq
ref_eq→eq a b e =
    let one =
      text_eq→eq a.type_url b.type_url
        (&&-left (text_eq a.type_url b.type_url) (text_eq a.resource_name b.resource_name) e) in
    let two =
      text_eq→eq a.resource_name b.resource_name
        (&&-right (text_eq a.type_url b.type_url) (text_eq a.resource_name b.resource_name) e) in
    λ i. record { type_url = one i; resource_name = two i }

pub read-write : (h : List (List ℕ)) (a : ℕ) (x : List ℕ) → a < length h → read (write h a x) a ≡ x
unfolding read write
read-write [] a x l = absurd (omega arith)
read-write (y ∷ h) zero x l = refl
read-write (y ∷ h) (suc a) x l = read-write h a x (omega arith)

pub read-write_other :
    (h : List (List ℕ)) (a b : ℕ) (x : List ℕ) → a ≢ b → read (write h a x) b ≡ read h b
unfolding read write
read-write_other [] a b x ne = refl
read-write_other (y ∷ h) zero zero x ne = absurd (ne refl)
read-write_other (y ∷ h) zero (suc b) x ne = refl
read-write_other (y ∷ h) (suc a) zero x ne = refl
read-write_other (y ∷ h) (suc a) (suc b) x ne = read-write_other h a b x (λ e. ne (ap suc e))

pub length-write : (h : List (List ℕ)) (a : ℕ) (x : List ℕ) → length (write h a x) ≡ length h
unfolding write
length-write [] a x = refl
length-write (y ∷ h) zero x = refl
length-write (y ∷ h) (suc a) x = ap suc (length-write h a x)

pub length-allocate : (h : List (List ℕ)) → length (h ++ [] ∷ []) ≡ suc (length h)
length-allocate [] = refl
length-allocate (x ∷ h) = ap suc (length-allocate h)

-- A new set is empty, and a place out of the heap reads as the empty set too.
pub read-allocate : (h : List (List ℕ)) (a : ℕ) → read (h ++ [] ∷ []) a ≡ read h a
unfolding read
read-allocate [] zero = refl
read-allocate [] (suc a) = refl
read-allocate (x ∷ h) zero = refl
read-allocate (x ∷ h) (suc a) = read-allocate h a

pub read_beyond : (h : List (List ℕ)) (a : ℕ) → length h ≤ a → read h a ≡ []
unfolding read
read_beyond [] a l = refl
read_beyond (x ∷ h) zero l = absurd (omega arith)
read_beyond (x ∷ h) (suc a) l = read_beyond h a (omega arith)

pub contains-add_watcher :
    (v w : ℕ) (xs : List ℕ) → contains v (add_watcher w xs) ≡ (contains v xs || w == v)
unfolding add_watcher contains
contains-add_watcher v w xs = elim (Bool-cases (contains w xs)) [
  | inl present ↦ rw present (elim (Bool-cases (w == v)) [
    | inl e ↦ let same : w ≡ v = ground arith in ground arith
    | inr e ↦ ground arith
  ])
  | inr absent ↦ ground arith
]

contains-delete :
    (v w : ℕ) (xs : List ℕ) → contains v (delete w xs) ≡ (contains v xs && not (w == v))
unfolding contains delete
contains-delete v w [] = refl
contains-delete v w (x ∷ xs) = let rest = contains-delete v w xs in ground arith

pub contains-stop_watch :
    (v w : ℕ) (xs : List ℕ) → contains v (stop_watch w xs) ≡ (contains v xs && not (w == v))
unfolding stop_watch
contains-stop_watch v w xs = elim (Bool-cases (contains w xs)) [
  | inl present ↦ rw present (contains-delete v w xs)
  | inr absent ↦ rw absent (elim (Bool-cases (w == v)) [
    | inl e ↦ let same : w ≡ v = ground arith in ground arith
    | inr e ↦ ground arith
  ])
]
