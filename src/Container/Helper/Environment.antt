-- ===== src/Container/Helper/Environment.antt =====
-- pkg/micantainer/container.go: which value a variable has in the environment that assembleHelperEnv gives.
-- Of several entries for a variable the last one counts, as os/exec has it.
use micrun.Container.Helper.Environment.Entries.{
  names, is_for, or_else, entry_of, unchanged, last_index, shift, lookup-index_all,
  last_index-append, entry_of-append, last_index-set_at, entry_of-set_at,
}
use micrun.Prelude.{
  ◌⊎◌, ◌||◌, ℕ, ◌+◌, List, ◌∷◌, ◌++◌, Bool, true, false, ◌==◌, Option, none, some, Bytes, codes,
  length, if◌then◌else◌, ◌≡◌, refl, sym, ap, ◌∙◌, Bool-cases, inl, inr, arith, ◌≢◌,
}
use micrun.Text.{Lacks}
use micrun.Keyed.{bytes_eq→eq, lookup, lookup-insert}
use micrun.Mica.Executor.{bytes_eq}
use micrun.Mica.Socket.{has_prefix}
use micrun.Prelude.{[]}
use micrun.Container.Helper.{
  behind, key_of, env_has_key, index_all, Merge, merge_at, merge_keyed, merge_all, merge_env,
  default_path, with_path, assemble_helper_env,
}
pub mod Entries

-- The index of a merge says where the entry of each variable stands.
abbrev Indexed : Merge → Type 0
Indexed so_far = (key : Bytes) → lookup key so_far.1 ≡ last_index key so_far.0

-- What one entry does to a merge.
abbrev Takes : Bytes → Merge → Merge → Type 0
Takes kv before after =
    Indexed after
    × ((k : Bytes) → entry_of k after.0 ≡ (if is_for k kv then some kv else entry_of k before.0))

merge_at-Takes :
    (o : Option ℕ) (key kv : Bytes) (so_far : Merge)
    → key_of kv ≡ some key
    → lookup key so_far.1 ≡ o
    → Indexed so_far
    → Takes kv so_far (merge_at o key kv so_far)
merge_at-Takes (some n) key kv (result, index) e at h =
    let there : last_index key result ≡ some n = sym (h key) ∙ at in
    (
      λ k. h k ∙ sym (last_index-set_at k key kv n result e there),
      λ k. entry_of-set_at k key kv n result e there ∙ rw (ap (names k) e) refl,
    )
merge_at-Takes none key kv (result, index) e at h = (
  λ k.
      lookup-insert key k (length result) index
      ∙ rw (h k) (sym (last_index-append k kv result ∙ rw (ap (names k) e) refl)),
  λ k. entry_of-append k kv result,
)

merge_keyed-Takes :
    (o : Option Bytes) (kv : Bytes) (so_far : Merge)
    → key_of kv ≡ o
    → Indexed so_far
    → Takes kv so_far (merge_keyed o kv so_far)
merge_keyed-Takes none kv so_far e h = (h, λ k. rw (ap (names k) e) refl)
merge_keyed-Takes (some key) kv so_far e h =
    merge_at-Takes (lookup key so_far.1) key kv so_far e refl h

chosen :
    {A : Type 0} (b : Bool) (a : A) (o : Option A)
    → (if b then some a else o) ≡ or_else (if b then some a else none) o
chosen true a o = refl
chosen false a o = refl

or_else_assoc : {A : Type 0} (a b c : Option A) → or_else a (or_else b c) ≡ or_else (or_else a b) c
or_else_assoc none b c = refl
or_else_assoc (some a) b c = refl

merge_all_lem :
    (key : Bytes) (kvs : List Bytes) (so_far : Merge)
    → Indexed so_far
    → entry_of key (merge_all kvs so_far).0 ≡ or_else (entry_of key kvs) (entry_of key so_far.0)
unfolding merge_all entry_of
merge_all_lem key [] so_far h = refl
merge_all_lem key (kv ∷ kvs) so_far h =
    let (indexed, taken) = merge_keyed-Takes (key_of kv) kv so_far refl h in
    merge_all_lem key kvs (merge_keyed (key_of kv) kv so_far) indexed
    ∙ ap (or_else (entry_of key kvs))
        (taken key ∙ chosen (is_for key kv) kv (entry_of key so_far.0))
    ∙ or_else_assoc (entry_of key kvs) (if is_for key kv then some kv else none)
        (entry_of key so_far.0)

from_start : (o : Option ℕ) → or_else (shift 0 o) none ≡ o
from_start none = refl
from_start (some n) = ap some (omega arith)

merge_env_lem :
    (key : Bytes) (base override : List Bytes)
    → entry_of key (merge_env base override) ≡ or_else (entry_of key override) (entry_of key base)
unfolding merge_env
merge_env_lem key base override =
    merge_all_lem key override (base, index_all 0 base [])
      (λ k. lookup-index_all k 0 base [] ∙ from_start (last_index k base))

-- For a key without `=`, the prefix that envHasKey looks for is that of the entries for the key.
has_prefix-is_for :
    (key s : Bytes) → Lacks b'=' key → has_prefix (key ++ (b'=' ∷ [])) s ≡ is_for key s
unfolding key_of
has_prefix-is_for [] [] h = refl
has_prefix-is_for [] (c ∷ s) h = no_key (key_of s)
  where
    no_key :
        (o : Option Bytes)
        → has_prefix (b'=' ∷ []) (c ∷ s) ≡ names [] (if c == b'=' then some [] else behind c o)
    no_key none = ground arith
    no_key (some k) = ground arith
has_prefix-is_for (a ∷ key) [] h = refl
has_prefix-is_for (a ∷ key) (c ∷ s) (first, rest) =
    let tail = has_prefix-is_for key s rest in longer (key_of s) tail
  where
    longer :
        (o : Option Bytes)
        → has_prefix (key ++ (b'=' ∷ [])) s ≡ names key o
        → has_prefix ((a ∷ key) ++ (b'=' ∷ [])) (c ∷ s)
          ≡ names (a ∷ key) (if c == b'=' then some [] else behind c o)
    longer none tail = ground arith
    longer (some k) tail = ground arith

abbrev is_some : Option Bytes → Bool
is_some none = false
is_some (some e) = true

env_has_key-entry_of :
    (key : Bytes) (env : List Bytes)
    → Lacks b'=' key
    → env_has_key env key ≡ is_some (entry_of key env)
unfolding env_has_key entry_of
env_has_key-entry_of key [] h = refl
env_has_key-entry_of key (e ∷ es) h =
    let first = has_prefix-is_for key e h in
    let rest = env_has_key-entry_of key es h in split (entry_of key es) rest first
  where
    split :
        (o : Option Bytes)
        → env_has_key es key ≡ is_some o
        → has_prefix (key ++ (b'=' ∷ [])) e ≡ is_for key e
        → (has_prefix (key ++ (b'=' ∷ [])) e || env_has_key es key)
          ≡ is_some (or_else o (if is_for key e then some e else none))
    split none rest first = ground arith
    split (some x) rest first = ground arith

path_key : Lacks b'=' (codes "PATH")
path_key = (
  λ e. omega (arith, e),
  (λ e. omega (arith, e), (λ e. omega (arith, e), (λ e. omega (arith, e), tt))),
)

-- The entry of a variable that only `PATH` has by default.
abbrev pub default_entry : Bytes → Option Bytes
default_entry key = if bytes_eq (codes "PATH") key then some default_path else none

with_path_lem :
    (key : Bytes) (env : List Bytes) (o : Option Bytes)
    → entry_of (codes "PATH") env ≡ o
    → entry_of key (with_path env) ≡ or_else (entry_of key env) (default_entry key)
unfolding key_of
with_path_lem key env none e =
    let absent : env_has_key env (codes "PATH") ≡ false =
      env_has_key-entry_of (codes "PATH") env path_key ∙ ap is_some e in
    rw absent
      (entry_of-append key default_path env ∙ split (Bool-cases (bytes_eq (codes "PATH") key)))
  where
    split :
        (bytes_eq (codes "PATH") key ≡ true) ⊎ (bytes_eq (codes "PATH") key ≡ false)
        → (if is_for key default_path then some default_path else entry_of key env)
          ≡ or_else (entry_of key env) (default_entry key)
    split (inl equal) =
        let unset_key : entry_of key env ≡ none =
          ap (λ k. entry_of k env) (sym (bytes_eq→eq (codes "PATH") key equal)) ∙ e in
        rw equal (rw unset_key refl)
    split (inr apart) = rw apart (unchanged (entry_of key env))
with_path_lem key env (some x) e =
    let there : env_has_key env (codes "PATH") ≡ true =
      env_has_key-entry_of (codes "PATH") env path_key ∙ ap is_some e in
    rw there (split (Bool-cases (bytes_eq (codes "PATH") key)))
  where
    split :
        (bytes_eq (codes "PATH") key ≡ true) ⊎ (bytes_eq (codes "PATH") key ≡ false)
        → entry_of key env ≡ or_else (entry_of key env) (default_entry key)
    split (inl equal) =
        let set_key : entry_of key env ≡ some x =
          ap (λ k. entry_of k env) (sym (bytes_eq→eq (codes "PATH") key equal)) ∙ e in
        rw set_key refl
    split (inr apart) = rw apart (unchanged (entry_of key env))

-- In the environment that assembleHelperEnv gives, a variable has the last entry that the specification's
-- process has for it, without one the last entry that the runtime has, and `PATH` without either its
-- default.
pub assemble_helper_env_lem :
    (environ process_env : List Bytes) (key : Bytes)
    → entry_of key (assemble_helper_env environ process_env)
      ≡ or_else (entry_of key process_env) (or_else (entry_of key environ) (default_entry key))
unfolding assemble_helper_env entry_of
assemble_helper_env_lem environ [] key =
    with_path_lem key environ (entry_of (codes "PATH") environ) refl
assemble_helper_env_lem environ (kv ∷ kvs) key =
    let env = merge_env environ (kv ∷ kvs) in
    with_path_lem key env (entry_of (codes "PATH") env) refl
    ∙ ap (λ o. or_else o (default_entry key)) (merge_env_lem key environ (kv ∷ kvs))
    ∙ sym (or_else_assoc (entry_of key (kv ∷ kvs)) (entry_of key environ) (default_entry key))
