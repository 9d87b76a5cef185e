-- ===== src/Container/Helper/Arguments.antt =====
-- pkg/micantainer/container.go: the arguments that genNsenterArgs gives to nsenter.
use micrun.Prelude.{
  ◌≢◌, List, [], ◌∷◌, ◌++◌, Bool, true, false, not, ◌&&◌, ◌||◌, Option, none, some, Bytes, codes,
  ◌≡◌, refl, sym, ap, ◌∙◌, Bool-cases, inl, inr, arith,
}
use micrun.Mica.Executor.{bytes_eq}
use micrun.Mica.Socket.{has_prefix}
use micrun.Container.Presence.{is_nil}
use micrun.Container.Helper.{
  NamespaceType, network, ipc, uts, pid, user, mount, other, LinuxNamespace, HelperSpec,
  namespace_arg, namespace_args, is_network, network_seen, unless_nil, fallback_arg, options_of,
  gen_nsenter_args,
}

-- An option of nsenter, and not the end of the options.
abbrev pub is_option : Bytes → Bool
is_option arg = has_prefix (codes "--") arg && not (bytes_eq arg (codes "--"))

abbrev pub are_options : List Bytes → Bool
are_options [] = true
are_options (arg ∷ args) = is_option arg && are_options args

abbrev pub joins_network : List Bytes → Bool
joins_network [] = false
joins_network (arg ∷ args) = has_prefix (codes "--net=") arg || joins_network args

are_options-append :
    (xs ys : List Bytes) → are_options (xs ++ ys) ≡ (are_options xs && are_options ys)
are_options-append [] ys = refl
are_options-append (x ∷ xs) ys = ground (arith, are_options-append xs ys)

joins_network-append :
    (xs ys : List Bytes) → joins_network (xs ++ ys) ≡ (joins_network xs || joins_network ys)
joins_network-append [] ys = refl
joins_network-append (x ∷ xs) ys = ground (arith, joins_network-append xs ys)

namespace_arg_lem :
    (kind : NamespaceType) (path : Bytes)
    → (are_options (namespace_arg kind path) ≡ true)
      × (joins_network (namespace_arg kind path) ≡ is_network kind)
namespace_arg_lem network path = (refl, refl)
namespace_arg_lem ipc path = (refl, refl)
namespace_arg_lem uts path = (refl, refl)
namespace_arg_lem pid path = (refl, refl)
namespace_arg_lem user path = (refl, refl)
namespace_arg_lem mount path = (refl, refl)
namespace_arg_lem other path = (refl, refl)

namespace_args_lem :
    (nss : List LinuxNamespace)
    → (are_options (namespace_args nss) ≡ true)
      × (joins_network (namespace_args nss) ≡ network_seen nss)
unfolding namespace_args network_seen
namespace_args_lem [] = (refl, refl)
namespace_args_lem (ns ∷ nss) =
    let (fine, net) = namespace_args_lem nss in
    let (fine', net') = namespace_arg_lem ns.kind ns.path in
    elim (Bool-cases (is_nil ns.path)) [
      | inl empty ↦ rw empty (fine, net)
      | inr there ↦ rw there (
        are_options-append (namespace_arg ns.kind ns.path) (namespace_args nss) ∙ rw fine' fine,
        joins_network-append (namespace_arg ns.kind ns.path) (namespace_args nss)
            ∙ rw net' (rw net refl),
      )
    ]

-- What can be said of the options of a spec.
Suits : Bool → List Bytes → Type 0
Suits net xs = (are_options xs ≡ true) × (joins_network xs ≡ net)

append-Suits :
    (b b' : Bool) (xs ys : List Bytes) → Suits b xs → Suits b' ys → Suits (b || b') (xs ++ ys)
unfolding Suits
append-Suits b b' xs ys (fine, net) (fine', net') =
    (are_options-append xs ys ∙ rw fine fine', joins_network-append xs ys ∙ rw net (rw net' refl))

fallback_arg-Suits :
    (nss : List LinuxNamespace) (path : Bytes)
    → Suits (not (network_seen nss) && not (is_nil path)) (fallback_arg nss path)
unfolding Suits
fallback_arg-Suits nss [] = elim (Bool-cases (network_seen nss)) [
  | inl seen ↦ rw seen (refl, refl)
  | inr unseen ↦ rw unseen (refl, refl)
]
fallback_arg-Suits nss (c ∷ cs) = elim (Bool-cases (network_seen nss)) [
  | inl seen ↦ rw seen (refl, refl)
  | inr unseen ↦ rw unseen (refl, refl)
]

root-Suits : (rootfs : Bytes) → Suits false (unless_nil (codes "--root=") rootfs)
unfolding Suits
root-Suits [] = (refl, refl)
root-Suits (c ∷ cs) = (refl, refl)

wd-Suits : (cwd : Bytes) → Suits false (unless_nil (codes "--wd=") cwd)
unfolding Suits
wd-Suits [] = (refl, refl)
wd-Suits (c ∷ cs) = (refl, refl)

options_of-Suits :
    (spec : HelperSpec) (rootfs fallback : Bytes)
    → Suits
        (network_seen spec.namespaces || not (is_nil fallback))
        (options_of spec rootfs fallback)
unfolding options_of Suits
options_of-Suits spec rootfs fallback =
    let seen = network_seen spec.namespaces in
    let b = not seen && not (is_nil fallback) in
    let (fine, net) =
      append-Suits seen (b || false) (namespace_args spec.namespaces) _
        (namespace_args_lem spec.namespaces)
        (append-Suits b false (fallback_arg spec.namespaces fallback) _
          (fallback_arg-Suits spec.namespaces fallback)
          (append-Suits false false (unless_nil (codes "--root=") rootfs) _ (root-Suits rootfs)
            (wd-Suits spec.cwd))) in
    (fine, net ∙ ground arith)

-- The arguments, by whether there are any.
abbrev pub Given : HelperSpec → Bytes → Option (List Bytes) → Type 0
Given spec fallback none = spec.args ≡ []
Given spec fallback (some args) =
    (options : List Bytes) × (spec.args ≢ [])
    × (args ≡ options ++ (codes "--" ∷ spec.args))
    × (are_options options ≡ true)
    × (joins_network options ≡ (network_seen spec.namespaces || not (is_nil fallback)))

-- genNsenterArgs fails exactly for a process without arguments. Otherwise it gives options, of which one
-- joins a network namespace exactly if the specification has one with a path or the sandbox has one, then
-- `--` and the arguments of the process.
pub gen_nsenter_args_lem :
    (spec : HelperSpec) (rootfs fallback : Bytes)
    → Given spec fallback (gen_nsenter_args spec rootfs fallback)
unfolding gen_nsenter_args Suits
gen_nsenter_args_lem spec rootfs fallback = split spec.args refl
  where
    split :
        (given : List Bytes)
        → spec.args ≡ given
        → Given spec fallback (elim given [
          | [] ↦ none
          | arg ∷ args ↦ some (options_of spec rootfs fallback ++ (codes "--" ∷ arg ∷ args))
        ])
    split [] e = e
    split (arg ∷ rest) e =
        let (fine, net) = options_of-Suits spec rootfs fallback in
        (
          options_of spec rootfs fallback,
          λ none_left. let no : [] ≡ (arg ∷ rest) = sym none_left ∙ e in cc,
          ap (λ z. options_of spec rootfs fallback ++ (codes "--" ∷ z)) (sym e),
          fine,
          net,
        )
