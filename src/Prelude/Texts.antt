-- ===== src/Prelude/Texts.antt =====
-- Go strings, as lists of code points: comparison, ASCII case, `strings.Split` and `strings.Join`.
use Prim.Native.Char.{code}
use Prim.Native.String.{String}
use Prim.Native.Nat.{ℕ, ◌+◌, ◌-◌}
use mathlib.Core.Path.{◌≡◌, refl, ap₂}
use mathlib.Core.Logic.{◌↔◌, ◌≢◌, inl, inr}
use mathlib.Core.Bool.{Bool, true, false, ◌&&◌}
use mathlib.Core.Option.{Option, none, some}
use mathlib.Core.List.{List, [], ◌∷◌, ◌++◌, map}
use native.Mathlib.Omega.{arith}
use package.grpc_traffic_controller.Prelude.Tests.{leb, ◌==◌, if◌then◌else◌, Bool-cases}
use package.grpc_traffic_controller.Prelude.Lists.{All}

abbrev pub Text : Type 0
Text = List ℕ

abbrev pub codes : String → Text
codes String.[] = []
codes (String.◌∷◌ c s) = code c ∷ codes s

-- s == t
unfoldable pub text_eq : Text → Text → Bool
text_eq [] [] = true
text_eq (x ∷ xs) (y ∷ ys) = x == y && text_eq xs ys
text_eq _ _ = false

pub text_eq→eq : (s t : Text) → text_eq s t ≡ true → s ≡ t
unfolding text_eq
text_eq→eq [] [] h = refl
text_eq→eq (x ∷ xs) (y ∷ ys) h = ap₂ ◌∷◌ (ground arith) (text_eq→eq xs ys (ground arith))
text_eq→eq _ _ h = cc

pub text_eq_refl : (s : Text) → text_eq s s ≡ true
unfolding text_eq
text_eq_refl [] = refl
text_eq_refl (x ∷ xs) = ground (arith, text_eq_refl xs)

pub text_eq_iff : (s t : Text) → (text_eq s t ≡ true) ↔ (s ≡ t)
text_eq_iff s t = (text_eq→eq s t, λ e. rw e (text_eq_refl t))

-- unicode.ToLower and unicode.ToUpper, exact wherever the result is an ASCII character: U+0130 and
-- U+212A have ASCII lower cases, U+0131 and U+017F have ASCII upper cases. Of the other letters
-- beyond ASCII no case is ASCII, and they are left as they are.
unfoldable pub lower_rune : ℕ → ℕ
lower_rune c =
    if leb b'A' c && leb c b'Z'
    then c + 32
    else if c == 0x130
    then b'i'
    else if c == 0x212a
    then b'k'
    else c

unfoldable pub upper_rune : ℕ → ℕ
upper_rune c =
    if leb b'a' c && leb c b'z'
    then c - 32
    else if c == 0x131
    then b'I'
    else if c == 0x17f
    then b'S'
    else c

unfoldable pub to_lower : Text → Text
unfolding lower_rune
to_lower = map lower_rune

unfoldable pub to_upper : Text → Text
unfolding upper_rune
to_upper = map upper_rune

-- strings.EqualFold, with the rune that stands for each class of runes which unicode.SimpleFold leads
-- through
unfoldable pub equal_fold : (fold_rune : ℕ → ℕ) → Text → Text → Bool
unfolding text_eq
equal_fold fold_rune s t = text_eq (map fold_rune s) (map fold_rune t)

push : ℕ → List Text → List Text
push c [] = (c ∷ []) ∷ []
push c (p ∷ ps) = (c ∷ p) ∷ ps

-- strings.Split(s, "/"), for any separator of one character
unfoldable pub split : ℕ → Text → List Text
unfolding push
split sep [] = [] ∷ []
split sep (c ∷ s) = let rest = split sep s in if c == sep then [] ∷ rest else push c rest

after_char : ℕ → Option (Text × Text) → Option (Text × Text)
after_char c none = none
after_char c (some (a, b)) = some (c ∷ a, b)

-- strings.SplitN(s, sep, 2), where the separator occurs
unfoldable pub cut : ℕ → Text → Option (Text × Text)
unfolding after_char
cut sep [] = none
cut sep (c ∷ s) = if c == sep then some ([], s) else after_char c (cut sep s)

-- strings.Join(parts, sep)
unfoldable pub join : Text → List Text → Text
join sep [] = []
join sep (p ∷ []) = p
join sep (p ∷ q ∷ ps) = p ++ (sep ++ join sep (q ∷ ps))

abbrev pub Lacks : ℕ → Text → Type 0
Lacks b = All (λ c. c ≢ b)

split_of_Lacks : (sep : ℕ) (p : Text) → Lacks sep p → split sep p ≡ p ∷ []
unfolding split
split_of_Lacks sep [] h = refl
split_of_Lacks sep (c ∷ p) h = ground (arith, split_of_Lacks sep p)

split-append :
    (sep : ℕ) (p rest : Text) → Lacks sep p → split sep (p ++ sep ∷ rest) ≡ p ∷ split sep rest
unfolding split
split-append sep [] rest h = ground arith
split-append sep (c ∷ p) rest h = ground (arith, split-append sep p rest)

-- Splitting a join gives the parts back, if there is a part and none holds the separator.
pub split-join :
    (sep : ℕ) (ps : List Text) → ps ≢ [] → All (Lacks sep) ps → split sep (join (sep ∷ []) ps) ≡ ps
unfolding join
split-join sep [] h _ = absurd (h refl)
split-join sep (p ∷ []) _ h = split_of_Lacks sep p h.0
split-join sep (p ∷ q ∷ ps) _ h = rw (split-append sep p _ h.0, split-join sep (q ∷ ps) (cc) h.1)

-- Cutting at the first separator.
pub cut-append :
    (sep : ℕ) (p rest : Text) → Lacks sep p → cut sep (p ++ sep ∷ rest) ≡ some (p, rest)
unfolding cut
cut-append sep [] rest h = ground arith
cut-append sep (c ∷ p) rest h = ground (arith, cut-append sep p rest h.1)

after_char-some :
    (c : ℕ) (o : Option (Text × Text)) (a b : Text)
    → after_char c o ≡ some (a, b)
    → (a' : Text) × (o ≡ some (a', b)) × (a ≡ c ∷ a')
unfolding after_char
after_char-some c none a b e = cc
after_char-some c (some (a', b')) a b e = (a', ground arith, ground arith)

pub cut_sound :
    (sep : ℕ) (s a b : Text) → cut sep s ≡ some (a, b) → (s ≡ a ++ sep ∷ b) × Lacks sep a
unfolding cut
cut_sound sep [] a b e = cc
cut_sound sep (c ∷ s) a b e = elim (Bool-cases (c == sep)) [
  | inl same ↦ ground arith
  | inr other ↦
      let (a', found, split_off) = after_char-some c (cut sep s) a b (rw other at e) in
      let (spelled, lacks) = cut_sound sep s a' b found in ground arith
]

pub cut-eq-none : (sep : ℕ) (s : Text) → cut sep s ≡ none → Lacks sep s
unfolding cut
cut-eq-none sep [] e = tt
cut-eq-none sep (c ∷ s) e = ground (arith, cut-eq-none sep s)
