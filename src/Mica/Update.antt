-- ===== src/Mica/Update.antt =====
-- pkg/libmica/client_xl_workaround.go: an update request carried out with xl.
use micrun.Prelude.{
  ℕ, List, [], ◌∷◌, ◌++◌, Bool, true, false, ◌&&◌, ◌||◌, not, Option, none, some, Bytes, codes,
  ◌==◌, leb, if◌then◌else◌, ◌+◌, ℤ, pos, negsuc,
}
use micrun.Text.{atoi, trim_space, is_space, join}
use micrun.Pedestal.Essential.{is_xen}
use micrun.Pedestal.Xl.{xl_mem_set, xl_mem_max, xl_vcpu_set, xl_sched_credit2}
use micrun.Mica.Host.{Host}
use micrun.Mica.Executor.{bytes_eq}
pub mod RoundTrip

abbrev pub is_nil : Bytes → Bool
is_nil [] = true
is_nil (_ ∷ _) = false

-- A word that has ended, if it is one.
abbrev pub ended : Bytes → List Bytes → List Bytes
ended word rest = if is_nil word then rest else word ∷ rest

-- strings.Fields, behind the bytes of a word.
unfoldable pub fields_from : Bytes → Bytes → List Bytes
fields_from word [] = ended word []
fields_from word (c ∷ s) =
    let split_here = fields_from [] s in
    let go_on = fields_from (word ++ (c ∷ [])) s in
    if is_space c then ended word split_here else go_on

unfoldable pub fields : Bytes → List Bytes
fields s = fields_from [] s

abbrev pub first_and_rest : List Bytes → Bytes × Bytes
first_and_rest [] = ([], [])
first_and_rest (word ∷ words) = (word, join b' ' words)

-- parseUpdateArgs
unfoldable pub parse_update_args : List Bytes → Bytes × Bytes
parse_update_args (opt ∷ []) = first_and_rest (fields opt)
parse_update_args opts = first_and_rest opts

-- strings.ToLower
abbrev pub lower : Bytes → Bytes
lower [] = []
lower (c ∷ s) = (if leb 65 c && leb c 90 then c + 32 else c) ∷ lower s

-- xlAsMicaUpdate, of the value of the variable.
unfoldable pub xl_as_mica_update : Bytes → Bool
xl_as_mica_update value =
    let setting = lower (trim_space value) in
    not (
      is_nil (trim_space value)
      || bytes_eq setting (codes "0")
      || bytes_eq setting (codes "false")
      || bytes_eq setting (codes "no"))

-- A weight below 1 is replaced.
abbrev pub forced_weight : ℤ → ℤ
forced_weight (pos n) = if n == 0 then pos 256 else pos n
forced_weight (negsuc _) = pos 256

abbrev pub with_number : {W : Type 0} → Option ℤ → (ℤ → W → W × Bool) → W → W × Bool
with_number none run w = (w, false)
with_number (some n) run w = run n w

module _ {W : Type 0} (host : Host W) where
  -- The switch on the resource.
  unfoldable pub update_resource : Bytes → Bytes → Bytes → W → W × Bool
  update_resource id kind value w =
      if bytes_eq kind (codes "Memory")
      then with_number (atoi value) (xl_mem_set host.xl id) w
      else if bytes_eq kind (codes "MaxMem")
      then with_number (atoi value) (xl_mem_max host.xl id) w
      else if bytes_eq kind (codes "CPUWeight")
      then with_number (atoi value) (λ n. xl_sched_credit2 host.xl id (forced_weight n) (pos 0)) w
      else if bytes_eq kind (codes "CPUCpacity")
      then with_number (atoi value) (λ n. xl_sched_credit2 host.xl id (pos 0) n) w
      else if bytes_eq kind (codes "VCPU")
      then with_number (atoi value) (xl_vcpu_set host.xl id) w
      else if bytes_eq kind (codes "CPU")
      then (w, true)
      else (w, false)

  -- handleMicaUpdateWithXl
  unfoldable pub handle_mica_update_with_xl : Bytes → List Bytes → W → W × Bool
  unfolding update_resource
  handle_mica_update_with_xl id [] w = (w, false)
  handle_mica_update_with_xl id (opt ∷ opts) w =
      let request = parse_update_args (opt ∷ opts) in
      if not (xl_as_mica_update host.workaround) || not (is_xen host.ped) || is_nil request.0
      then (w, false)
      else update_resource id request.0 request.1 w
