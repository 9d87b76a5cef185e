-- ===== src/Mica/Buffer.antt =====
-- Byte arrays of a fixed size: Go's copy(m.field[:], text) into a zeroed array, and
-- strings.TrimRight(string(field[:]), "\x00").
use micrun.Prelude.{
  ℕ, zero, suc, ◌-◌, ◌≤◌, [], ◌∷◌, ◌++◌, ◌≡◌, ◌≢◌, refl, ap, Bool, true, false, ◌&&◌, Bytes, arith,
  All, ◌==◌, if◌then◌else◌, length, take, replicate, length-append, length-take, length-replicate,
}

-- What is longer than the array is cut, what is shorter is followed by NUL bytes.
unfoldable pub copy_into : ℕ → Bytes → Bytes
copy_into size text = take size text ++ replicate (size - length text) 0

abbrev is_nil : Bytes → Bool
is_nil [] = true
is_nil (_ ∷ _) = false

unfoldable pub trim_right_nul : Bytes → Bytes
trim_right_nul [] = []
trim_right_nul (c ∷ s) =
    let rest = trim_right_nul s in if c == 0 && is_nil rest then [] else c ∷ rest

pub length-copy_into : (size : ℕ) (text : Bytes) → length (copy_into size text) ≡ size
unfolding copy_into
length-copy_into size text = omega (
  arith,
  length-append (take size text) (replicate (size - length text) 0),
  length-take size text,
  length-replicate {A = ℕ} (size - length text) 0,
)

trim_right_nul-replicate : (n : ℕ) → trim_right_nul (replicate n 0) ≡ []
unfolding trim_right_nul
trim_right_nul-replicate zero = refl
trim_right_nul-replicate (suc n) = rw (trim_right_nul-replicate n)

trim_right_nul-append :
    (s : Bytes) (n : ℕ) → All (λ c. c ≢ 0) s → trim_right_nul (s ++ replicate n 0) ≡ s
unfolding trim_right_nul
trim_right_nul-append [] n _ = trim_right_nul-replicate n
trim_right_nul-append (c ∷ s) n (hc, h) = ground (arith, trim_right_nul-append s n h)

pub take_all : (n : ℕ) (s : Bytes) → length s ≤ n → take n s ≡ s
take_all zero [] h = refl
take_all zero (c ∷ s) h = absurd (omega arith)
take_all (suc n) [] h = refl
take_all (suc n) (c ∷ s) h = ap (◌∷◌ c) (take_all n s (omega arith))

-- A text that fits and holds no NUL byte is read back.
pub trim_right_nul-copy_into :
    (size : ℕ) (text : Bytes)
    → length text ≤ size
    → All (λ c. c ≢ 0) text
    → trim_right_nul (copy_into size text) ≡ text
unfolding copy_into
trim_right_nul-copy_into size text h nonzero =
    rw (take_all size text h) (trim_right_nul-append text (size - length text) nonzero)
