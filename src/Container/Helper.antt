-- ===== src/Container/Helper.antt =====
-- pkg/micantainer/container.go: the arguments and the environment of the process that holds the namespaces
-- of an infra container (genNsenterArgs, assembleHelperEnv, envHasKey, mergeEnv).
use micrun.Prelude.{
  ◌&&◌, ℕ, suc, zero, List, [], ◌∷◌, ◌++◌, Bool, true, false, ◌||◌, not, ◌==◌, Option, none, some,
  Bytes, codes, length, if◌then◌else◌,
}
use micrun.Keyed.{lookup, insert}
use micrun.Mica.Socket.{has_prefix}
use micrun.Container.Presence.{is_nil}
pub mod Environment
pub mod Arguments

abbrev pub behind : ℕ → Option Bytes → Option Bytes
behind c none = none
behind c (some key) = some (c ∷ key)

-- kv[:strings.Index(kv, "=")], or `none` without that byte
unfoldable pub key_of : Bytes → Option Bytes
key_of [] = none
key_of (c ∷ s) = let rest = key_of s in if c == b'=' then some [] else behind c rest

-- envHasKey
unfoldable pub env_has_key : List Bytes → Bytes → Bool
env_has_key [] key = false
env_has_key (e ∷ es) key = has_prefix (key ++ (b'=' ∷ [])) e || env_has_key es key

abbrev pub note : Option Bytes → ℕ → List (Bytes × ℕ) → List (Bytes × ℕ)
note none i index = index
note (some key) i index = insert key i index

-- The loop that fills the index.
unfoldable pub index_all : ℕ → List Bytes → List (Bytes × ℕ) → List (Bytes × ℕ)
unfolding key_of insert
index_all i [] index = index
index_all i (kv ∷ kvs) index = index_all (suc i) kvs (note (key_of kv) i index)

-- result[idx] = kv
abbrev pub set_at : ℕ → Bytes → List Bytes → List Bytes
set_at i kv [] = []
set_at zero kv (x ∷ xs) = kv ∷ xs
set_at (suc i) kv (x ∷ xs) = x ∷ set_at i kv xs

abbrev pub Merge : Type 0
Merge = List Bytes × List (Bytes × ℕ)

abbrev pub merge_at : Option ℕ → Bytes → Bytes → Merge → Merge
merge_at (some i) key kv (result, index) = (set_at i kv result, index)
merge_at none key kv (result, index) = (result ++ (kv ∷ []), insert key (length result) index)

abbrev pub merge_keyed : Option Bytes → Bytes → Merge → Merge
merge_keyed none kv so_far = so_far
merge_keyed (some key) kv so_far = merge_at (lookup key so_far.1) key kv so_far

-- The loop over the entries that override.
unfoldable pub merge_all : List Bytes → Merge → Merge
unfolding key_of lookup insert
merge_all [] so_far = so_far
merge_all (kv ∷ kvs) so_far = merge_all kvs (merge_keyed (key_of kv) kv so_far)

-- mergeEnv
unfoldable pub merge_env : List Bytes → List Bytes → List Bytes
unfolding merge_all index_all
merge_env base override = (merge_all override (base, index_all 0 base [])).0

abbrev pub default_path : Bytes
default_path = codes "PATH=/usr/local/sbin:/usr/local/bin:/usr/sbin:/usr/bin:/sbin:/bin"

abbrev pub with_path : List Bytes → List Bytes
with_path env = if not (env_has_key env (codes "PATH")) then env ++ (default_path ∷ []) else env

abbrev pub merged_unless_nil : List Bytes → List Bytes → List Bytes
merged_unless_nil environ [] = environ
merged_unless_nil environ (kv ∷ kvs) = merge_env environ (kv ∷ kvs)

-- assembleHelperEnv, of os.Environ() and the environment of the specification's process
unfoldable pub assemble_helper_env : List Bytes → List Bytes → List Bytes
unfolding env_has_key merge_env
assemble_helper_env environ process_env = with_path (merged_unless_nil environ process_env)

-- specs.LinuxNamespaceType
pub data NamespaceType : Type 0 where
  network ipc uts pid user mount other : NamespaceType

pub record LinuxNamespace : Type 0 where
  pub kind : NamespaceType
  pub path : Bytes

-- What genNsenterArgs reads of the specification; no process has no arguments.
pub record HelperSpec : Type 0 where
  pub args : List Bytes
  pub cwd : Bytes
  pub namespaces : List LinuxNamespace

abbrev pub namespace_arg : NamespaceType → Bytes → List Bytes
namespace_arg network path = (codes "--net=" ++ path) ∷ []
namespace_arg ipc path = (codes "--ipc=" ++ path) ∷ []
namespace_arg uts path = (codes "--uts=" ++ path) ∷ []
namespace_arg pid path = (codes "--pid=" ++ path) ∷ []
namespace_arg user path = (codes "--user=" ++ path) ∷ []
namespace_arg mount path = (codes "--mount=" ++ path) ∷ []
namespace_arg other path = []

-- The loop over the namespaces.
unfoldable pub namespace_args : List LinuxNamespace → List Bytes
namespace_args [] = []
namespace_args (ns ∷ nss) =
    let rest = namespace_args nss in
    if is_nil ns.path then rest else namespace_arg ns.kind ns.path ++ rest

-- nsSeen, which holds the network alone
abbrev pub is_network : NamespaceType → Bool
is_network network = true
is_network _ = false

unfoldable pub network_seen : List LinuxNamespace → Bool
network_seen [] = false
network_seen (ns ∷ nss) = (not (is_nil ns.path) && is_network ns.kind) || network_seen nss

-- An argument that is left out for an empty value.
abbrev pub unless_nil : Bytes → Bytes → List Bytes
unless_nil flag value = if is_nil value then [] else (flag ++ value) ∷ []

abbrev pub fallback_arg : List LinuxNamespace → Bytes → List Bytes
fallback_arg nss path = if network_seen nss then [] else unless_nil (codes "--net=") path

unfoldable pub options_of : HelperSpec → Bytes → Bytes → List Bytes
unfolding namespace_args network_seen
options_of spec rootfs fallback =
    namespace_args spec.namespaces
    ++ (fallback_arg spec.namespaces fallback
        ++ (unless_nil (codes "--root=") rootfs ++ unless_nil (codes "--wd=") spec.cwd))

-- genNsenterArgs
unfoldable pub gen_nsenter_args : HelperSpec → Bytes → Bytes → Option (List Bytes)
unfolding options_of
gen_nsenter_args spec rootfs fallback = elim spec.args [
  | [] ↦ none
  | arg ∷ args ↦ some (options_of spec rootfs fallback ++ (codes "--" ∷ arg ∷ args))
]
