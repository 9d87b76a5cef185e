-- ===== src/Keyed.antt =====
-- Go's maps with string keys, as association lists. Go does not fix the order in which a map is walked; here it is
-- that of the list.
use micrun.Prelude.{
  ◌⊎◌, List, [], ◌∷◌, Bool, true, false, ◌||◌, Option, none, some, ◌≡◌, refl, Bytes, arith,
  if◌then◌else◌, Bool-cases, inl, inr, sym, ap, ◌∙◌,
}
use micrun.Mica.Executor.{bytes_eq}

pub bytes_eq→eq : (a b : Bytes) → bytes_eq a b ≡ true → a ≡ b
bytes_eq→eq [] [] h = refl
bytes_eq→eq [] (y ∷ b) h = absurd (ground arith)
bytes_eq→eq (x ∷ a) [] h = absurd (ground arith)
bytes_eq→eq (x ∷ a) (y ∷ b) h = ground (arith, bytes_eq→eq a b)

pub bytes_eq_self : (a : Bytes) → bytes_eq a a ≡ true
bytes_eq_self [] = refl
bytes_eq_self (x ∷ a) = ground (arith, bytes_eq_self a)

-- Whether two keys are the same decides how each compares with a third one.
same_key : (i k j : Bytes) → bytes_eq i k ≡ true → bytes_eq i j ≡ bytes_eq k j
same_key i k j h = ap (λ z. bytes_eq z j) (bytes_eq→eq i k h)

third_key : (i k j : Bytes) → bytes_eq i k ≡ false → bytes_eq k j ≡ true → bytes_eq i j ≡ false
third_key i k j h h' = ap (λ z. bytes_eq i z) (sym (bytes_eq→eq k j h')) ∙ h

-- Whether a key is one of a list.
abbrev pub listed : List Bytes → Bytes → Bool
listed [] k = false
listed (j ∷ js) k = bytes_eq j k || listed js k

module _ {ℓ} {V : Type ℓ} where
  -- m[key]
  unfoldable pub lookup : Bytes → List (Bytes × V) → Option V
  lookup k [] = none
  lookup k ((j, v) ∷ m) = if bytes_eq j k then some v else lookup k m

  -- the second result of m[key]
  unfoldable pub has : Bytes → List (Bytes × V) → Bool
  has k [] = false
  has k ((j, v) ∷ m) = bytes_eq j k || has k m

  -- m[key] = value
  unfoldable pub insert : Bytes → V → List (Bytes × V) → List (Bytes × V)
  insert k v [] = (k, v) ∷ []
  insert k v ((j, x) ∷ m) = if bytes_eq j k then (j, v) ∷ m else (j, x) ∷ insert k v m

  -- delete(m, key)
  unfoldable pub remove : Bytes → List (Bytes × V) → List (Bytes × V)
  remove k [] = []
  remove k ((j, x) ∷ m) = let rest = remove k m in if bytes_eq j k then rest else (j, x) ∷ rest

  -- A change of what a pointer in the map points to.
  unfoldable pub replace : Bytes → V → List (Bytes × V) → List (Bytes × V)
  replace k v [] = []
  replace k v ((j, x) ∷ m) = (j, if bytes_eq j k then v else x) ∷ replace k v m

  unfoldable pub keys : List (Bytes × V) → List Bytes
  keys [] = []
  keys ((k, v) ∷ m) = k ∷ keys m

  pub has-lookup : (k : Bytes) (m : List (Bytes × V)) {v : V} → lookup k m ≡ some v → has k m ≡ true
  unfolding lookup has
  has-lookup k [] e = cc
  has-lookup k ((j, x) ∷ m) e = elim (Bool-cases (bytes_eq j k)) [
    | inl same ↦ rw same refl
    | inr other ↦ rw other (has-lookup k m (rw other at e))
  ]

  pub lookup-has : (k : Bytes) (m : List (Bytes × V)) → has k m ≡ false → lookup k m ≡ none
  unfolding lookup has
  lookup-has k [] e = refl
  lookup-has k ((j, x) ∷ m) e = ground (arith, lookup-has k m)

  pub lookup-insert :
      (k j : Bytes) (v : V) (m : List (Bytes × V))
      → lookup j (insert k v m) ≡ (if bytes_eq k j then some v else lookup j m)
  unfolding lookup insert
  lookup-insert k j v [] = refl
  lookup-insert k j v ((i, x) ∷ m) =
      ground (arith, same_key i k j, third_key i k j, lookup-insert k j v m)

  pub lookup-remove :
      (k j : Bytes) (m : List (Bytes × V))
      → lookup j (remove k m) ≡ (if bytes_eq k j then none else lookup j m)
  unfolding lookup remove
  lookup-remove k j [] = ground arith
  lookup-remove k j ((i, x) ∷ m) =
      ground (arith, same_key i k j, third_key i k j, lookup-remove k j m)

  abbrev pub instead : V → Option V → Option V
  instead v none = none
  instead v (some x) = some v

  instead-some : (v d : V) (o : Option V) → instead v o ≡ some d → d ≡ v
  instead-some v d none e = cc
  instead-some v d (some x) e = cc

  pub lookup-replace :
      (k j : Bytes) (v : V) (m : List (Bytes × V))
      → lookup j (replace k v m) ≡ (if bytes_eq k j then instead v (lookup j m) else lookup j m)
  unfolding lookup replace
  lookup-replace k j v [] = ground arith
  lookup-replace k j v ((i, x) ∷ m) =
      ground (arith, same_key i k j, third_key i k j, lookup-replace k j v m)

  -- What is found after a change: the new value at its key, or an old one at another key.
  pub replace_cases :
      (k j : Bytes) (v d : V) (m : List (Bytes × V))
      → lookup j (replace k v m) ≡ some d
      → ((k ≡ j) × (d ≡ v)) ⊎ ((bytes_eq k j ≡ false) × (lookup j m ≡ some d))
  replace_cases k j v d m e =
      let at : (if bytes_eq k j then instead v (lookup j m) else lookup j m) ≡ some d =
        sym (lookup-replace k j v m) ∙ e in
      elim (Bool-cases (bytes_eq k j)) [
        | inl same ↦ inl (bytes_eq→eq k j same, instead-some v d (lookup j m) (rw same at at))
        | inr other ↦ inr (other, rw other at at)
      ]

  pub insert_cases :
      (k j : Bytes) (v d : V) (m : List (Bytes × V))
      → lookup j (insert k v m) ≡ some d
      → ((k ≡ j) × (d ≡ v)) ⊎ ((bytes_eq k j ≡ false) × (lookup j m ≡ some d))
  insert_cases k j v d m e =
      let at : (if bytes_eq k j then some v else lookup j m) ≡ some d =
        sym (lookup-insert k j v m) ∙ e in
      elim (Bool-cases (bytes_eq k j)) [
        | inl same ↦ let h : some v ≡ some d = rw same at at in inl (bytes_eq→eq k j same, cc)
        | inr other ↦ inr (other, rw other at at)
      ]

  pub remove_cases :
      (k j : Bytes) (d : V) (m : List (Bytes × V))
      → lookup j (remove k m) ≡ some d
      → (bytes_eq k j ≡ false) × (lookup j m ≡ some d)
  remove_cases k j d m e =
      let at : (if bytes_eq k j then none else lookup j m) ≡ some d =
        sym (lookup-remove k j m) ∙ e in
      elim (Bool-cases (bytes_eq k j)) [
        | inl same ↦ absurd (let h : none ≡ some d = rw same at at in cc)
        | inr other ↦ (other, rw other at at)
      ]

  pub lookup-replace_self :
      (k : Bytes) (v x : V) (m : List (Bytes × V))
      → lookup k m ≡ some x
      → lookup k (replace k v m) ≡ some v
  lookup-replace_self k v x m e = lookup-replace k k v m ∙ rw (bytes_eq_self k, e) refl

  pub lookup-replace_other :
      (k j : Bytes) (v : V) (m : List (Bytes × V))
      → bytes_eq k j ≡ false
      → lookup j (replace k v m) ≡ lookup j m
  lookup-replace_other k j v m e = lookup-replace k j v m ∙ rw e refl

  pub replace-none :
      (k j : Bytes) (v : V) (m : List (Bytes × V))
      → lookup j m ≡ none
      → lookup j (replace k v m) ≡ none
  replace-none k j v m e = lookup-replace k j v m ∙ rw e (nothing (bytes_eq k j))
    where
      nothing : (b : Bool) → (if b then instead v none else none) ≡ none
      nothing true = refl
      nothing false = refl

  pub listed-keys :
      (k : Bytes) (v : V) (m : List (Bytes × V)) → lookup k m ≡ some v → listed (keys m) k ≡ true
  unfolding lookup keys
  listed-keys k v [] e = cc
  listed-keys k v ((j, x) ∷ m) e = ground (arith, listed-keys k v m)

  -- A key that is not there is none that is.
  pub other_key :
      (id j : Bytes) (c : V) (m : List (Bytes × V))
      → lookup id m ≡ none
      → lookup j m ≡ some c
      → bytes_eq id j ≡ false
  other_key id j c m gone e = elim (Bool-cases (bytes_eq id j)) [
    | inl equal ↦ absurd (
        let twice : none ≡ some c = sym gone ∙ ap (λ k. lookup k m) (bytes_eq→eq id j equal) ∙ e in
        cc)
    | inr apart ↦ apart
  ]
