-- ===== src/Sandbox/Rules.antt =====
-- pkg/micantainer/sandbox.go: what holds of a sandbox between its operations, and rules for operations
-- that keep it.
use micrun.Container.State.{same}
use micrun.Prelude.{
  ◌≡◌, ◌≢◌, refl, sym, ap, subst, ◌∙◌, List, [], ◌∷◌, Bool, true, false, Option, none, some, Bytes,
  inl, inr, if◌then◌else◌,
}
use micrun.Keyed.{
  lookup-replace_other, lookup-replace_self, lookup, has, insert, remove, replace, lookup-insert,
  lookup-replace, replace_cases, insert_cases, remove_cases, bytes_eq_self, instead,
}
use micrun.Mica.Executor.{bytes_eq}
use micrun.Resources.{ContainerConfig}
use micrun.Container.Core.{
  failed, container_not_found, Container, Outside, Error, Result, ok, error, Step,
}
use micrun.Container.Fit.{Fit, KeepsFit}
use micrun.Sandbox.Core.{
  SandboxResource, store, asked, Sandbox, World, At, Op, go_on, put_back, call, inside, find,
  present_or, system, store_sandbox, settle, log_error, logged,
}
pub mod Results
pub mod Loops

-- Every container of the map is fit for its key, and its config is the one that ContainerConfigs has
-- under its id.
pub record IsValid (s : Sandbox) : Type 0 where
  pub fit : (id : Bytes) (c : Container) → lookup id s.containers ≡ some c → Fit id c
  pub shared :
      (id : Bytes) (c : Container)
      → lookup id s.containers ≡ some c
      → lookup id s.config.container_configs ≡ some c.config

-- The parts of a sandbox that `IsValid` reads.
pub same_parts-IsValid :
    (s s' : Sandbox)
    → s'.containers ≡ s.containers
    → s'.config.container_configs ≡ s.config.container_configs
    → IsValid s
    → IsValid s'
same_parts-IsValid s s' e e' v = record {
  fit = λ id c h. v.fit id c (ap (lookup id) (sym e) ∙ h);
  shared = λ id c h. ap (lookup id) e' ∙ v.shared id c (ap (lookup id) (sym e) ∙ h);
}

pub put_back-IsValid :
    (s : Sandbox) (id : Bytes) (c c' : Container)
    → lookup id s.containers ≡ some c
    → Fit id c'
    → IsValid s
    → IsValid (put_back c' s)
unfolding put_back
put_back-IsValid s id c c' there h v = record {
  fit = λ j d e. elim (replace_cases c'.config.id j c' d s.containers e) [
    | inl (same, new) ↦ subst (Fit j) (sym new) (subst (λ k. Fit k c') (sym h.its_id ∙ same) h)
    | inr (other, old) ↦ v.fit j d old
  ];
  shared = λ j d e. elim (replace_cases c'.config.id j c' d s.containers e) [
    | inl (same, new) ↦
        let at : id ≡ j = sym h.its_id ∙ same in
        ap (λ k. lookup j (replace k c'.config s.config.container_configs)) same
        ∙ lookup-replace_self j c'.config c.config s.config.container_configs (
            subst (λ k. lookup k s.config.container_configs ≡ some c.config) at
              (v.shared id c there))
        ∙ ap (λ (z : Container). some z.config) (sym new)
    | inr (other, old) ↦
        lookup-replace_other c'.config.id j c'.config s.config.container_configs other
        ∙ v.shared j d old
  ];
}

-- An operation keeps a property of the sandbox, whatever its result.
abbrev pub Keeps : {W A : Type 0} → (Sandbox → Type 0) → Op W A → Type 0
Keeps {W} I m = (s : Sandbox) (w : W) → I s → I (m (s, w)).0.0

module _ {W : Type 0} (I : Sandbox → Type 0) where
  pub go_on-Keeps :
      {A B : Type 0} (r : At W × Result A) (next : A → Op W B)
      → I r.0.0
      → ((a : A) → Keeps I (next a))
      → I (go_on r next).0.0
  unfolding go_on
  go_on-Keeps ((s, w), ok a) next h step = step a s w h
  go_on-Keeps ((s, w), error e) next h step = h

  pub if-Keeps :
      {A : Type 0} (b : Bool) (r r' : At W × Result A)
      → (b ≡ true → I r.0.0)
      → (b ≡ false → I r'.0.0)
      → I (if b then r else r').0.0
  if-Keeps true r r' h h' = h refl
  if-Keeps false r r' h h' = h' refl

  asked-Keeps : (e : Error) (s : Sandbox) (r : W × Bool) → I s → I (asked e s r).0.0
  asked-Keeps e s (w, true) h = h
  asked-Keeps e s (w, false) h = h

  pub system-Keeps : (e : Error) (request : W → W × Bool) → Keeps I (system e request)
  unfolding system
  system-Keeps e request s w h = asked-Keeps e s (request w) h

  pub store_sandbox-Keeps : (world : World W) → Keeps I (store_sandbox world)
  unfolding store_sandbox
  store_sandbox-Keeps world s w h = system-Keeps failed (store world s) s w h

  -- A container that is found is the one of the map.
  present_or-Keeps :
      {A : Type 0} (e : Error) (o : Option Container) (s : Sandbox) (w : W)
      (next : Container → Op W A)
      → I s
      → ((c : Container) → o ≡ some c → I (next c (s, w)).0.0)
      → I (go_on (present_or e o (s, w)) next).0.0
  unfolding present_or go_on
  present_or-Keeps e none s w next h step = h
  present_or-Keeps e (some c) s w next h step = step c refl

  pub find-Keeps :
      {A : Type 0} (id : Bytes) (s : Sandbox) (w : W) (next : Container → Op W A)
      → I s
      → ((c : Container) → lookup id s.containers ≡ some c → I (next c (s, w)).0.0)
      → I (go_on (find id (s, w)) next).0.0
  unfolding find
  find-Keeps id s w next h step =
      present_or-Keeps container_not_found (lookup id s.containers) s w next h step

-- A property of valid sandboxes that stays when a container's pointer is written through, and when the
-- accounts change.
pub record Stable (I : Sandbox → Type 0) : Type 0 where
  pub valid : (s : Sandbox) → I s → IsValid s
  pub written :
      (s : Sandbox) (id : Bytes) (c c' : Container)
      → lookup id s.containers ≡ some c
      → Fit id c'
      → I s
      → I (put_back c' s)
  pub booked :
      (s : Sandbox) (res : SandboxResource) (pinned : Bool)
      → I s
      → I (record s { res = res; vcpu_already_pinned = pinned })

pub IsValid-Stable : Stable IsValid
IsValid-Stable = record {
  valid = λ s v. v;
  written = put_back-IsValid;
  booked = λ s res pinned v. same_parts-IsValid s _ refl refl v;
}

module _ {W : Type 0} (world : World W) {I : Sandbox → Type 0} (st : Stable I) where
  pub settle-Keeps :
      {A : Type 0} (s : Sandbox) (id : Bytes) (c : Container) (r : Container × W × Result A)
      → lookup id s.containers ≡ some c
      → Fit id r.0
      → I s
      → I (settle world s r).0.0
  settle-Keeps s id c (c', w, r) there h v = st.written s id c c' there h v

  pub call-Keeps :
      {A : Type 0} (op : Outside W → Step W A)
      → KeepsFit op
      → (id : Bytes) (c : Container) (s : Sandbox) (w : W) → lookup id s.containers ≡ some c
      → I s
      → I (call world op c (s, w)).0.0
  unfolding call
  call-Keeps op keeps id c s w there v =
      settle-Keeps s id c (op (inside world s) c w) there
        (keeps (inside world s) id c w ((st.valid s v).fit id c there)) v
