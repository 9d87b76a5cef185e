-- ===== src/Text/Trim.antt =====
-- strings.TrimSpace on ASCII text.
use micrun.Prelude.{
  ℕ, [], ◌∷◌, ◌≡◌, refl, Bool, true, false, ◌&&◌, ◌||◌, Bytes, All, ◌==◌, leb, if◌then◌else◌,
}

-- \t \n \v \f \r and the blank.
abbrev pub is_space : ℕ → Bool
is_space c = c == 32 || (leb 9 c && leb c 13)

abbrev is_empty : Bytes → Bool
is_empty [] = true
is_empty (_ ∷ _) = false

trim_left : Bytes → Bytes
trim_left [] = []
trim_left (c ∷ s) = let rest = trim_left s in if is_space c then rest else c ∷ s

trim_right : Bytes → Bytes
trim_right [] = []
trim_right (c ∷ s) = let rest = trim_right s in if is_space c && is_empty rest then [] else c ∷ rest

unfoldable pub trim_space : Bytes → Bytes
unfolding trim_left trim_right
trim_space s = trim_right (trim_left s)

-- A text with no space in it.
abbrev pub Solid : Bytes → Type 0
Solid = All (λ c. is_space c ≡ false)

trim_left-Solid : (s : Bytes) → Solid s → trim_left s ≡ s
unfolding trim_left
trim_left-Solid [] _ = refl
trim_left-Solid (c ∷ s) (hc, _) = rw hc

trim_right-Solid : (s : Bytes) → Solid s → trim_right s ≡ s
unfolding trim_right
trim_right-Solid [] _ = refl
trim_right-Solid (c ∷ s) (hc, h) = rw (trim_right-Solid s h, hc)

-- A text with no space in it is left as it is.
pub trim_space-Solid : (s : Bytes) → Solid s → trim_space s ≡ s
unfolding trim_space
trim_space-Solid s h = rw (trim_left-Solid s h) (trim_right-Solid s h)

module _ {κ} (P : ℕ → Type κ) where
  trim_left-All : (s : Bytes) → All P s → All P (trim_left s)
  unfolding trim_left
  trim_left-All [] _ = tt
  trim_left-All (c ∷ s) (hc, h) =
      elim (is_space c) as (λ b. All P (if b then trim_left s else c ∷ s)) [
        | true ↦ trim_left-All s h
        | false ↦ (hc, h)
      ]

  trim_right-All : (s : Bytes) → All P s → All P (trim_right s)
  unfolding trim_right
  trim_right-All [] _ = tt
  trim_right-All (c ∷ s) (hc, h) =
      elim (is_space c && is_empty (trim_right s))
        as (λ b. All P (if b then [] else c ∷ trim_right s)) [
          | true ↦ tt
          | false ↦ (hc, trim_right-All s h)
        ]

  -- Trimming keeps what holds of every byte.
  pub trim_space-All : (s : Bytes) → All P s → All P (trim_space s)
  unfolding trim_space
  trim_space-All s h = trim_right-All (trim_left s) (trim_left-All s h)
