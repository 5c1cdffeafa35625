-- ===== src/Go/Strconv.antt =====
-- strconv.Itoa and strconv.Atoi, for the 64-bit int.
use grpc_traffic_controller.Prelude.{
  ℕ, zero, suc, ◌+◌, ◌-◌, ◌*◌, ◌/◌, ◌%◌, ◌^◌, ◌≤◌, ◌≡◌, refl, ◌≢◌, ◌&&◌, [], ◌∷◌, Option, none,
  some, ℤ, pos, negsuc, Text, All, arith, leb, ◌==◌, if◌then◌else◌, Bool, Bool-cases, and_then, inl,
  inr, ◌∙◌,
}

-- One more digit in front for each round; the fuel bounds the rounds.
digits : ℕ → ℕ → Text → Text
digits zero n out = out
digits (suc fuel) n out =
    let more = digits fuel (n / 10) ((b'0' + n % 10) ∷ out) in if n == 0 then out else more

-- A number has no more digits than its value.
unfoldable pub format : ℕ → Text
unfolding digits
format n = if n == 0 then b'0' ∷ [] else digits n n []

unfoldable pub itoa : ℤ → Text
unfolding format
itoa (pos n) = format n
itoa (negsuc n) = b'-' ∷ format (suc n)

abbrev pub is_digit : ℕ → Bool
is_digit c = leb b'0' c && leb c b'9'

unfoldable pub scan : Text → ℕ → Option ℕ
scan [] n = some n
scan (c ∷ s) n = if is_digit c then scan s (n * 10 + (c - b'0')) else none

unfoldable pub scan_some : Text → Option ℕ
unfolding scan
scan_some [] = none
scan_some (c ∷ s) = scan (c ∷ s) 0

abbrev pub max_int64 : ℕ
max_int64 = 2 ^ 63 - 1

abbrev pub checked_pos : ℕ → Option ℤ
checked_pos n = if leb n max_int64 then some (pos n) else none

-- -0 is 0, and the least value is -2^63.
abbrev pub checked_neg : ℕ → Option ℤ
checked_neg zero = some (pos 0)
checked_neg (suc n) = if leb n max_int64 then some (negsuc n) else none

-- An optional sign, then one or more decimal digits; `none` is a syntax or a range error.
unfoldable pub atoi : Text → Option ℤ
unfolding scan_some
atoi [] = none
atoi (c ∷ s) =
    if c == b'-'
    then and_then (scan_some s) checked_neg
    else if c == b'+'
    then and_then (scan_some s) checked_pos
    else and_then (scan_some (c ∷ s)) checked_pos

abbrev pub IsDigit : ℕ → Type 0
IsDigit c = (b'0' ≤ c) × (c ≤ b'9')

digits-IsDigit : (f n : ℕ) (out : Text) → All IsDigit out → All IsDigit (digits f n out)
unfolding digits
digits-IsDigit zero n out h = h
digits-IsDigit (suc f) n out h = ground (arith, digits-IsDigit f (n / 10) ((b'0' + n % 10) ∷ out))

digits-ne-nil : (f n : ℕ) (out : Text) → out ≢ [] → digits f n out ≢ []
unfolding digits
digits-ne-nil zero n out h = h
digits-ne-nil (suc f) n out h = ground (arith, digits-ne-nil f (n / 10) ((b'0' + n % 10) ∷ out))

pub format-IsDigit : (n : ℕ) → All IsDigit (format n)
unfolding format
format-IsDigit n = ground (arith, digits-IsDigit n n [])

pub format-ne-nil : (n : ℕ) → format n ≢ []
unfolding format digits
format-ne-nil zero = ground arith
format-ne-nil (suc n) = ground (arith, digits-ne-nil n (suc n / 10) ((b'0' + suc n % 10) ∷ []))

-- Reading the last digit of `n` after the digits before it gives `n`.
scan_last : (n : ℕ) (out : Text) → scan ((b'0' + n % 10) ∷ out) (n / 10) ≡ scan out n
unfolding scan
scan_last n out = ground arith

scan-digits : (f n : ℕ) (out : Text) → n ≤ f → scan (digits f n out) 0 ≡ scan out n
unfolding digits
scan-digits zero n out h = let e : n ≡ 0 = omega arith in rw e
scan-digits (suc f) n out h =
    ground (arith, scan_last n out, scan-digits f (n / 10) ((b'0' + n % 10) ∷ out))

scan_some-scan : (s : Text) → s ≢ [] → scan_some s ≡ scan s 0
unfolding scan_some
scan_some-scan [] h = absurd (h refl)
scan_some-scan (c ∷ s) h = refl

pub scan_some-format : (n : ℕ) → scan_some (format n) ≡ some n
unfolding format scan_some scan
scan_some-format n =
    let nonempty = format-ne-nil n in
    elim (Bool-cases (n == 0)) [
      | inl zeroed ↦ ground arith
      | inr more ↦
          rw more (
            scan_some-scan (digits n n []) (rw more at nonempty) ∙ scan-digits n n [] (omega arith))
    ]

-- A text that begins with a digit has no sign.
atoi-digits :
    (s : Text) (n : ℕ)
    → All IsDigit s
    → scan_some s ≡ some n
    → n ≤ max_int64
    → atoi s ≡ some (pos n)
unfolding atoi
atoi-digits [] n h e fits = unfold scan_some in cc
atoi-digits (c ∷ s) n h e fits = ground arith

-- Every int is read back from its decimal print.
pub atoi-itoa : (n : ℕ) → n ≤ max_int64 → atoi (itoa (pos n)) ≡ some (pos n)
unfolding itoa
atoi-itoa n h = atoi-digits (format n) n (format-IsDigit n) (scan_some-format n) h
