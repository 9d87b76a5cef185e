-- ===== src/Container/Helper/Environment/Entries.antt =====
-- pkg/micantainer/container.go: the entries of an environment and where they stand.
use micrun.Prelude.{
  ℕ, suc, zero, ◌+◌, List, ◌∷◌, ◌++◌, Bool, true, false, Option, none, some, some_eq, none-some,
  Bytes, length, if◌then◌else◌, ◌≡◌, refl, sym, ap, ◌∙◌, Bool-cases, inl, inr, arith,
}
use micrun.Keyed.{bytes_eq→eq, lookup, lookup-insert}
use micrun.Mica.Executor.{bytes_eq}
use micrun.Prelude.{[]}
use micrun.Container.Helper.{key_of, note, index_all, set_at}

abbrev pub names : Bytes → Option Bytes → Bool
names key none = false
names key (some j) = bytes_eq j key

-- Whether an entry is one for the key.
abbrev pub is_for : Bytes → Bytes → Bool
is_for key kv = names key (key_of kv)

abbrev pub or_else : {A : Type 0} → Option A → Option A → Option A
or_else (some a) o = some a
or_else none o = o

-- The entry of a variable in an environment.
unfoldable pub entry_of : Bytes → List Bytes → Option Bytes
entry_of key [] = none
entry_of key (kv ∷ kvs) = or_else (entry_of key kvs) (if is_for key kv then some kv else none)

abbrev later : Option ℕ → Bool → Option ℕ
later (some n) b = some (suc n)
later none b = if b then some 0 else none

pub unchanged : (o : Option Bytes) → o ≡ or_else o none
unchanged none = refl
unchanged (some e) = refl

-- Where the entry of a variable stands.
abbrev pub last_index : Bytes → List Bytes → Option ℕ
last_index key [] = none
last_index key (kv ∷ kvs) = later (last_index key kvs) (is_for key kv)

abbrev pub shift : ℕ → Option ℕ → Option ℕ
shift i none = none
shift i (some n) = some (i + n)

lookup-note :
    (key : Bytes) (o : Option Bytes) (i : ℕ) (m : List (Bytes × ℕ))
    → lookup key (note o i m)
      ≡ or_else (shift i (if names key o then some 0 else none)) (lookup key m)
lookup-note key none i m = refl
lookup-note key (some j) i m = lookup-insert j key i m ∙ ground arith

pub lookup-index_all :
    (key : Bytes) (i : ℕ) (kvs : List Bytes) (m : List (Bytes × ℕ))
    → lookup key (index_all i kvs m) ≡ or_else (shift i (last_index key kvs)) (lookup key m)
unfolding index_all
lookup-index_all key i [] m = refl
lookup-index_all key i (kv ∷ kvs) m =
    lookup-index_all key (suc i) kvs (note (key_of kv) i m) ∙ split (last_index key kvs)
  where
    split :
        (o : Option ℕ)
        → or_else (shift (suc i) o) (lookup key (note (key_of kv) i m))
          ≡ or_else (shift i (later o (is_for key kv))) (lookup key m)
    split none = lookup-note key (key_of kv) i m
    split (some n) = ap some (omega arith)

pub last_index-append :
    (key kv : Bytes) (l : List Bytes)
    → last_index key (l ++ (kv ∷ []))
      ≡ (if is_for key kv then some (length l) else last_index key l)
last_index-append key kv [] = refl
last_index-append key kv (x ∷ l) = ground (arith, last_index-append key kv l)

pub entry_of-append :
    (key kv : Bytes) (l : List Bytes)
    → entry_of key (l ++ (kv ∷ [])) ≡ (if is_for key kv then some kv else entry_of key l)
unfolding entry_of
entry_of-append key kv [] = refl
entry_of-append key kv (x ∷ l) = ground (arith, entry_of-append key kv l)

unset : (key : Bytes) (l : List Bytes) → last_index key l ≡ none → entry_of key l ≡ none
unfolding entry_of
unset key [] e = refl
unset key (x ∷ l) e = ground (arith, unset key l)

-- Two entries for the same key are entries for the same keys.
is_for_same :
    (k key kv x : Bytes) → key_of kv ≡ some key → is_for key x ≡ true → is_for k kv ≡ is_for k x
is_for_same k key kv x e h = ap (names k) (e ∙ same_key (key_of x) h)
  where
    same_key : (o : Option Bytes) → names key o ≡ true → some key ≡ o
    same_key none h' = cc
    same_key (some j) h' = ap some (sym (bytes_eq→eq j key h'))

first_entry : (o : Option ℕ) (b : Bool) → later o b ≡ some 0 → (o ≡ none) × (b ≡ true)
first_entry none true e = (refl, refl)
first_entry none false e = absurd (none-some 0 e)
first_entry (some n) b e = absurd (let no : suc n ≡ 0 = some_eq e in omega (arith, no))

later_entry : (o : Option ℕ) (b : Bool) (n : ℕ) → later o b ≡ some (suc n) → o ≡ some n
later_entry none true n e = absurd (let no : 0 ≡ suc n = some_eq e in omega (arith, no))
later_entry none false n e = absurd (none-some (suc n) e)
later_entry (some m) b n e = ap some (let same : suc m ≡ suc n = some_eq e in omega (arith, same))

pub last_index-set_at :
    (k key kv : Bytes) (n : ℕ) (l : List Bytes)
    → key_of kv ≡ some key
    → last_index key l ≡ some n
    → last_index k (set_at n kv l) ≡ last_index k l
last_index-set_at k key kv n [] e at = refl
last_index-set_at k key kv zero (x ∷ l) e at =
    ap (later (last_index k l))
      (is_for_same k key kv x e (first_entry (last_index key l) (is_for key x) at).1)
last_index-set_at k key kv (suc n) (x ∷ l) e at =
    ap (λ o. later o (is_for k x))
      (last_index-set_at k key kv n l e (later_entry (last_index key l) (is_for key x) n at))

pub entry_of-set_at :
    (k key kv : Bytes) (n : ℕ) (l : List Bytes)
    → key_of kv ≡ some key
    → last_index key l ≡ some n
    → entry_of k (set_at n kv l) ≡ (if bytes_eq key k then some kv else entry_of k l)
unfolding entry_of
entry_of-set_at k key kv n [] e at = absurd (none-some n at)
entry_of-set_at k key kv zero (x ∷ l) e at =
    let (gone, found) = first_entry (last_index key l) (is_for key x) at in
    let new : is_for k kv ≡ bytes_eq key k = ap (names k) e in
    let old : is_for k kv ≡ is_for k x = is_for_same k key kv x e found in
    elim (Bool-cases (bytes_eq key k)) [
      | inl equal ↦
          let unset_k : entry_of k l ≡ none =
            ap (λ z. entry_of z l) (sym (bytes_eq→eq key k equal)) ∙ unset key l gone in
          rw equal (rw unset_k (rw (new ∙ equal) refl))
      | inr apart ↦
          rw apart (
            ap (λ b. or_else (entry_of k l) b) (rw (new ∙ apart) (rw (sym old ∙ new ∙ apart) refl)))
    ]
entry_of-set_at k key kv (suc n) (x ∷ l) e at =
    let rest =
      entry_of-set_at k key kv n l e (later_entry (last_index key l) (is_for key x) n at) in
    ap (λ o. or_else o (if is_for k x then some x else none)) rest ∙ ground arith
