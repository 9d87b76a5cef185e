-- ===== src/Mica/Status/Reading.antt =====
-- pkg/libmica/utils.go and client.go: what a status that was read satisfies, and what Status gives.
use micrun.Prelude.{
  ℕ, ◌≡◌, refl, List, [], ◌∷◌, ◌++◌, Bool, true, false, none, some, Bytes, arith, All, Bool-cases,
  inl, inr,
}
use micrun.Mica.Host.{Host}
use micrun.Mica.Command.{status}
use micrun.Mica.Control.{mica_ctl}
use micrun.Mica.Update.{fields, fields_from, ended, is_nil}
use micrun.Text.{is_space}
use micrun.Mica.Status.{
  MicaStatus, parse_mica_status, from_fields, is_valid, status_of, read_status, queried,
}

-- A field is never empty.
ended-All :
    (word : Bytes) (rest : List Bytes)
    → All (λ f. is_nil f ≡ false) rest
    → All (λ f. is_nil f ≡ false) (ended word rest)
ended-All [] rest h = h
ended-All (c ∷ word) rest h = (refl, h)

fields_from-All : (word s : Bytes) → All (λ f. is_nil f ≡ false) (fields_from word s)
unfolding fields_from
fields_from-All word [] = ended-All word [] tt
fields_from-All word (c ∷ s) = elim (Bool-cases (is_space c)) [
  | inl space ↦ rw space (ended-All word (fields_from [] s) (fields_from-All [] s))
  | inr inside ↦ rw inside (fields_from-All (word ++ (c ∷ [])) s)
]

from_fields-is_valid :
    (max_cpu_num : ℕ) (raw : Bytes) (fs : List Bytes) (s : MicaStatus)
    → All (λ f. is_nil f ≡ false) fs
    → from_fields max_cpu_num raw fs ≡ some s
    → is_valid s ≡ true
unfolding is_valid
from_fields-is_valid max_cpu_num raw [] s h e = cc
from_fields-is_valid max_cpu_num raw (name ∷ []) s h e = cc
from_fields-is_valid max_cpu_num raw (name ∷ cpu ∷ []) s h e = cc
from_fields-is_valid max_cpu_num raw (name ∷ [] ∷ state ∷ services) s h e = absurd (ground arith)
from_fields-is_valid max_cpu_num raw (name ∷ (c ∷ cpu) ∷ state ∷ services) s h e = ground arith

-- A status that was read has a name, a CPU text in the right format and a known state, so that
-- the check of Status behind the parser never refuses one.
pub parse_mica_status-is_valid :
    (max_cpu_num : ℕ) (raw : Bytes) (s : MicaStatus)
    → parse_mica_status max_cpu_num raw ≡ some s
    → is_valid s ≡ true
unfolding parse_mica_status fields
parse_mica_status-is_valid max_cpu_num raw s e =
    from_fields-is_valid max_cpu_num raw (fields raw) s (fields_from-All [] raw) (ground arith)

module _ {W : Type 0} (host : Host W) where
  empty_answer :
      (r : W × Bool) (max_cpu_num : ℕ) (with_pty : Bool)
      → (read_status host max_cpu_num with_pty (queried host r)).1 ≡ none
  unfolding parse_mica_status
  empty_answer (w, true) max_cpu_num with_pty = refl
  empty_answer (w, false) max_cpu_num with_pty = refl

  -- Status never gives a status: the text that queryStatus returns is empty.
  pub status_of-none :
      (max_cpu_num : ℕ) (with_pty : Bool) (id : Bytes) (w : W)
      → (status_of host max_cpu_num with_pty id w).1 ≡ none
  unfolding status_of
  status_of-none max_cpu_num with_pty id w =
      empty_answer (mica_ctl host status id [] w) max_cpu_num with_pty
