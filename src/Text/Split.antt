-- ===== src/Text/Split.antt =====
-- strings.Split and strings.Join at a separator of one byte, and strings.Contains of one byte.
use micrun.Prelude.{
  ℕ, List, [], ◌∷◌, ◌++◌, ◌≡◌, ◌≢◌, refl, ap, ◌∙◌, Bool, false, inl, inr, arith, Bytes, All, ◌==◌,
  if◌then◌else◌, Bool-cases, elem,
}

-- A byte in front of the first part.
abbrev pub onto_first : ℕ → List Bytes → List Bytes
onto_first c [] = (c ∷ []) ∷ []
onto_first c (p ∷ ps) = (c ∷ p) ∷ ps

-- strings.Split(s, sep).
unfoldable pub split : ℕ → Bytes → List Bytes
split sep [] = [] ∷ []
split sep (c ∷ s) = let rest = split sep s in if c == sep then [] ∷ rest else onto_first c rest

-- strings.Join(parts, sep).
unfoldable pub join : ℕ → List Bytes → Bytes
join sep [] = []
join sep (p ∷ []) = p
join sep (p ∷ q ∷ ps) = p ++ (sep ∷ join sep (q ∷ ps))

-- strings.Contains(s, c).
abbrev pub has_byte : ℕ → Bytes → Bool
has_byte c s = elem c s

abbrev pub Lacks : ℕ → Bytes → Type 0
Lacks b = All (λ c. c ≢ b)

pub has_byte-Lacks : (b : ℕ) (s : Bytes) → Lacks b s → has_byte b s ≡ false
has_byte-Lacks b [] h = refl
has_byte-Lacks b (c ∷ s) (hc, h) = ground (arith, has_byte-Lacks b s h)

pub Lacks-has_byte : (b : ℕ) (s : Bytes) → has_byte b s ≡ false → Lacks b s
Lacks-has_byte b [] h = tt
Lacks-has_byte b (c ∷ s) h = (ground arith, Lacks-has_byte b s (ground arith))

pub split-Lacks : (sep : ℕ) (p : Bytes) → Lacks sep p → split sep p ≡ p ∷ []
unfolding split
split-Lacks sep [] h = refl
split-Lacks sep (c ∷ p) (hc, h) = ground (arith, split-Lacks sep p h)

pub split-append :
    (sep : ℕ) (p s : Bytes) → Lacks sep p → split sep (p ++ (sep ∷ s)) ≡ p ∷ split sep s
unfolding split
split-append sep [] s h = ground arith
split-append sep (c ∷ p) s (hc, h) = ground (arith, split-append sep p s h)

-- Splitting a join gives the parts back, if there is a part and none holds the separator.
pub split-join :
    (sep : ℕ) (p : Bytes) (ps : List Bytes)
    → All (Lacks sep) (p ∷ ps)
    → split sep (join sep (p ∷ ps)) ≡ p ∷ ps
unfolding join
split-join sep p [] (hp, _) = split-Lacks sep p hp
split-join sep p (q ∷ ps) (hp, h) = split-append sep p _ hp ∙ ap (◌∷◌ p) (split-join sep q ps h)

-- Every part of a split lacks the separator.
onto_first-Lacks :
    (sep c : ℕ) (ps : List Bytes) → c ≢ sep → All (Lacks sep) ps → All (Lacks sep) (onto_first c ps)
onto_first-Lacks sep c [] hc h = ((hc, tt), tt)
onto_first-Lacks sep c (p ∷ ps) hc (hp, h) = ((hc, hp), h)

pub split-All-Lacks : (sep : ℕ) (s : Bytes) → All (Lacks sep) (split sep s)
unfolding split
split-All-Lacks sep [] = (tt, tt)
split-All-Lacks sep (c ∷ s) = elim (Bool-cases (c == sep)) [
  | inl same ↦ rw same (tt, split-All-Lacks sep s)
  | inr other ↦ rw other (onto_first-Lacks sep c _ (ground arith) (split-All-Lacks sep s))
]
