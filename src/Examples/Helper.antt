-- ===== src/Examples/Helper.antt =====
-- The process of an infra container: pkg/micantainer/container.go.
use micrun.Prelude.{Bytes, List, [], ◌∷◌, codes, ◌≡◌, refl}
use micrun.Container.Helper.{
  HelperSpec, network, ipc, gen_nsenter_args, assemble_helper_env, merge_env,
}
use micrun.Container.Helper.Environment.{assemble_helper_env_lem, default_entry}
use micrun.Container.Helper.Environment.Entries.{entry_of, or_else}
use micrun.Container.Helper.Arguments.{Given, gen_nsenter_args_lem}

abbrev environ : List Bytes
environ = codes "HOME=/" ∷ codes "TERM=vt100" ∷ codes "HOME=/root" ∷ codes "broken" ∷ []

abbrev process_env : List Bytes
process_env = codes "HOME=/pause" ∷ codes "A=1" ∷ codes "A=2" ∷ []

-- The last entry of a variable is the one that is replaced.
merge_env_run :
    merge_env environ process_env
    ≡ codes "HOME=/" ∷ codes "TERM=vt100" ∷ codes "HOME=/pause" ∷ codes "broken" ∷ codes "A=2" ∷ []
unfolding merge_env
merge_env_run = refl

assemble_helper_env_lem_example :
    entry_of (codes "PATH") (assemble_helper_env environ process_env)
    ≡ or_else
        (entry_of (codes "PATH") process_env)
        (or_else (entry_of (codes "PATH") environ) (default_entry (codes "PATH")))
assemble_helper_env_lem_example = assemble_helper_env_lem environ process_env (codes "PATH")

abbrev spec : HelperSpec
spec = record {
  args = codes "/pause" ∷ [];
  cwd = codes "/";
  namespaces =
      record { kind = ipc; path = codes "/proc/7/ns/ipc" }
      ∷ record { kind = network; path = [] }
      ∷ [];
}

gen_nsenter_args_lem_example :
    Given spec (codes "/run/netns/pod") (gen_nsenter_args spec [] (codes "/run/netns/pod"))
gen_nsenter_args_lem_example = gen_nsenter_args_lem spec [] (codes "/run/netns/pod")
