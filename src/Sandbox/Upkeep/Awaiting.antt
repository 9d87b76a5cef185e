-- ===== src/Sandbox/Upkeep/Awaiting.antt =====
-- pkg/micantainer/sandbox.go: a sandbox with a config that waits for its container.
use micrun.Sandbox.Rules.{IsValid}
use micrun.Container.Fit.{Fit}
use micrun.Container.Presence.{gone, is_nil}
use micrun.Keyed.{other_key, bytes_eq_self, insert, insert_cases, lookup, lookup-insert}
use micrun.Sandbox.Members.{add_config}
use micrun.Resources.{ContainerConfig}
use micrun.Sandbox.Core.{Sandbox}
use micrun.Container.Fit.Fresh.{Made}
use micrun.Container.Core.{Container}
use micrun.Prelude.{
  [], arith, ◌∷◌, Bytes, ap, false, inl, inr, none, some, subst, sym, ◌∙◌, ◌≢◌, ◌≡◌, refl,
}

-- A valid sandbox that has a config but no container for its id: the time of a creation.
abbrev pub Awaiting : ContainerConfig → Sandbox → Type 0
Awaiting cfg s =
    IsValid s
    × (lookup cfg.id s.containers ≡ none)
    × (lookup cfg.id s.config.container_configs ≡ some cfg)

pub is_nil_ne : (id : Bytes) → is_nil id ≡ false → id ≢ []
is_nil_ne [] h = absurd (ground arith)
is_nil_ne (c ∷ cs) h = λ e. cc

pub is_nil_named : (id : Bytes) → id ≢ [] → is_nil id ≡ false
is_nil_named [] h = absurd (h refl)
is_nil_named (c ∷ cs) h = refl

pub add_config-Awaiting :
    (cfg : ContainerConfig) (s : Sandbox)
    → IsValid s
    → lookup cfg.id s.containers ≡ none
    → Awaiting cfg (add_config cfg s)
unfolding add_config
add_config-Awaiting cfg s v gone = (
  record {
    fit = v.fit;
    shared = λ j c e.
        lookup-insert cfg.id j cfg s.config.container_configs
        ∙ rw (other_key cfg.id j c s.containers gone e) (v.shared j c e);
  },
  gone,
  lookup-insert cfg.id cfg.id cfg s.config.container_configs ∙ rw (bytes_eq_self cfg.id) refl,
)

pub add-IsValid :
    (cfg : ContainerConfig) (c : Container) (s : Sandbox)
    → Awaiting cfg s
    → Made cfg c
    → IsValid (record s { containers = insert cfg.id c s.containers })
add-IsValid cfg c s (v, gone, there) (fit, e) = record {
  fit = λ j d h. elim (insert_cases cfg.id j c d s.containers h) [
    | inl (equal, new) ↦ subst (Fit j) (sym new) (subst (λ k. Fit k c) equal fit)
    | inr (apart, old) ↦ v.fit j d old
  ];
  shared = λ j d h. elim (insert_cases cfg.id j c d s.containers h) [
    | inl (equal, new) ↦
        ap (λ k. lookup k s.config.container_configs) (sym equal)
        ∙ there
        ∙ ap some (sym e ∙ ap (λ (z : Container). z.config) (sym new))
    | inr (apart, old) ↦ v.shared j d old
  ];
}

-- A sandbox that is as before the creation, and a container for it.
abbrev pub New : ContainerConfig → Container → Sandbox → Type 0
New cfg c s = Awaiting cfg s × Made cfg c

-- A valid sandbox with a container for an id.
abbrev pub With : Bytes → Container → Sandbox → Type 0
With id c s = IsValid s × (lookup id s.containers ≡ some c)
