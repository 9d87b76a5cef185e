-- ===== src/Text/Number.antt =====
-- strconv.Atoi and strconv.Itoa.
use micrun.Prelude.{
  ℕ, zero, suc, ◌+◌, ◌-◌, ◌*◌, ◌/◌, ◌%◌, ◌≤◌, [], ◌∷◌, ◌≡◌, ◌≢◌, refl, Option, none, some, Bool,
  true, false, ◌&&◌, arith, Bytes, All, All-map, ◌==◌, leb, if◌then◌else◌, ◌>>=◌, ℤ, pos, negsuc,
}
use micrun.Text.Split.{Lacks}
use micrun.Text.Trim.{Solid, is_space}

abbrev pub max_int : ℕ
max_int = 9223372036854775807

abbrev pub is_digit : ℕ → Bool
is_digit c = leb 48 c && leb c 57

-- The value of the digits of `s` behind those read so far, whose value is `n`.
unfoldable pub scan : Bytes → ℕ → Option ℕ
scan [] n = some n
scan (c ∷ s) n = let rest = scan s (n * 10 + (c - 48)) in if is_digit c then rest else none

-- Digits are needed, and none of them may be missing.
unfoldable pub unsigned : Bytes → Option ℕ
unsigned [] = none
unsigned (c ∷ s) = scan (c ∷ s) 0

abbrev in_range : ℕ → Option ℤ
in_range n = if leb n max_int then some (pos n) else none

abbrev negated : ℕ → Option ℤ
negated n =
    if n == 0 then some (pos 0) else if leb n (max_int + 1) then some (negsuc (n - 1)) else none

-- strconv.Atoi: an optional sign, digits, and the range of a 64-bit `int`. An error is `none`.
unfoldable pub atoi : Bytes → Option ℤ
unfolding scan unsigned
atoi [] = none
atoi (c ∷ s) =
    if c == b'+'
    then unsigned s >>= in_range
    else if c == b'-'
    then unsigned s >>= negated
    else unsigned (c ∷ s) >>= in_range

-- The digits of `n` in front of `out`; `n` rounds are enough.
emit : ℕ → ℕ → Bytes → Bytes
emit zero n out = out
emit (suc f) n out =
    let rest = emit f (n / 10) ((48 + n % 10) ∷ out) in if n == 0 then out else rest

-- strconv.Itoa of a number that is not negative.
unfoldable pub itoa : ℕ → Bytes
unfolding emit
itoa n = if n == 0 then 48 ∷ [] else emit n n []

scan_last : (n : ℕ) (out : Bytes) → scan ((48 + n % 10) ∷ out) (n / 10) ≡ scan out n
unfolding scan
scan_last n out = ground arith

scan-emit : (f n : ℕ) (out : Bytes) → n ≤ f → scan (emit f n out) 0 ≡ scan out n
unfolding emit
scan-emit zero n out h = ground arith
scan-emit (suc f) n out h =
    ground (arith, scan-emit f (n / 10) ((48 + n % 10) ∷ out), scan_last n out)

emit-digits :
    (f n : ℕ) (out : Bytes)
    → All (λ c. is_digit c ≡ true) out
    → All (λ c. is_digit c ≡ true) (emit f n out)
unfolding emit
emit-digits zero n out h = h
emit-digits (suc f) n out h =
    ground (arith, emit-digits f (n / 10) ((48 + n % 10) ∷ out) (ground arith, h))

pub itoa-digits : (n : ℕ) → All (λ c. is_digit c ≡ true) (itoa n)
unfolding itoa
itoa-digits n = ground (arith, emit-digits n n [] tt)

pub itoa-Lacks : (b n : ℕ) → is_digit b ≡ false → Lacks b (itoa n)
itoa-Lacks b n h =
    All-map (λ c. is_digit c ≡ true) (λ c. c ≢ b) (λ c d. ground arith) (itoa n) (itoa-digits n)

pub itoa-Solid : (n : ℕ) → Solid (itoa n)
itoa-Solid n =
    All-map (λ c. is_digit c ≡ true) (λ c. is_space c ≡ false) (λ c d. ground arith) (itoa n)
      (itoa-digits n)

emit-ne-nil : (f n : ℕ) (c : ℕ) (out : Bytes) → emit f n (c ∷ out) ≢ []
unfolding emit
emit-ne-nil zero n c out = λ e. cc
emit-ne-nil (suc f) n c out = ground (arith, emit-ne-nil f (n / 10) (48 + n % 10) (c ∷ out))

pub itoa-ne-nil : (n : ℕ) → itoa n ≢ []
unfolding itoa
itoa-ne-nil zero = λ e. cc
itoa-ne-nil (suc n) = ground (arith, emit-ne-nil n (suc n / 10) (48 + suc n % 10) [])

scan-itoa : (n : ℕ) → scan (itoa n) 0 ≡ some n
unfolding itoa scan
scan-itoa n = ground (arith, scan-emit n n [])

-- Digits alone, whose value is in range, are read as that value.
pub atoi_digits :
    (s : Bytes) (n : ℕ)
    → s ≢ []
    → All (λ c. is_digit c ≡ true) s
    → scan s 0 ≡ some n
    → n ≤ max_int
    → atoi s ≡ some (pos n)
unfolding atoi
atoi_digits [] n h d e r = absurd (h refl)
atoi_digits (c ∷ s) n h (d, _) e r = ground arith

-- A number is read back from its print.
pub atoi-itoa : (n : ℕ) → n ≤ max_int → atoi (itoa n) ≡ some (pos n)
atoi-itoa n h = atoi_digits (itoa n) n (itoa-ne-nil n) (itoa-digits n) (scan-itoa n) h

-- A text with no minus sign is not read as a negative number.
pub atoi-nonneg : (s : Bytes) (n : ℕ) → Lacks b'-' s → atoi s ≢ some (negsuc n)
unfolding atoi
atoi-nonneg [] n h = λ e. cc
atoi-nonneg (c ∷ s) n (hc, h) = λ e. ground arith

-- What is read fits an int.
pub atoi-le : (s : Bytes) (n : ℕ) → atoi s ≡ some (pos n) → n ≤ max_int
unfolding atoi
atoi-le [] n e = cc
atoi-le (c ∷ s) n e = ground arith
