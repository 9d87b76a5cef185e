-- ===== src/Sandbox/Rules/Loops.antt =====
-- pkg/micantainer/sandbox.go: the loops over the containers of a sandbox.
use micrun.Mica.Executor.{bytes_eq}
use micrun.Container.Fit.{Fit, KeepsFit}
use micrun.Container.Presence.{gone}
use micrun.Sandbox.Rules.{Stable}
use micrun.Sandbox.Lifecycle.{for_all, for_each, if_present}
use micrun.Container.Core.{Container, Outside, Result, Step, error, ok}
use micrun.Keyed.{bytes_eq_self, keys, listed, listed-keys, lookup, other_key, replace_cases}
use micrun.Sandbox.Core.{Op, Sandbox, World, call, go_on, inside, put_back, settle}
use micrun.Prelude.{
  ◌∙◌, Bytes, List, Option, [], arith, false, inl, inr, none, some, subst, sym, true, ◌∷◌, ◌⊎◌, ◌≡◌,
  refl,
}
use micrun.Sandbox.Rules.Results.{error-Yields, map-Yields, ok-Yields, Yields, go_on-Yields}

-- After an operation on the container of an id: that one satisfies `P`, and the others are as they
-- were.
abbrev pub Changed : (Container → Type 0) → Bytes → Sandbox → Sandbox → Type 0
Changed P id s s' =
    (j : Bytes) (c : Container)
    → lookup j s'.containers ≡ some c
    → ((bytes_eq id j ≡ true) × P c) ⊎ ((bytes_eq id j ≡ false) × (lookup j s.containers ≡ some c))

-- A container satisfies `P`, or the loop has yet to come to it.
abbrev pub Ahead : (Container → Type 0) → List Bytes → Sandbox → Type 0
Ahead P ids s =
    (j : Bytes) (c : Container) → lookup j s.containers ≡ some c → P c ⊎ (listed ids j ≡ true)

abbrev pub Every : (Container → Type 0) → Sandbox → Type 0
Every P s = (j : Bytes) (c : Container) → lookup j s.containers ≡ some c → P c

-- What an operation makes of its container, if it gives no error.
unfoldable pub Gives : {W A : Type 0} → (A → Container → Type 0) → Container × W × Result A → Type 0
Gives P (c, w, ok a) = P a c
Gives P (c, w, error e) = Unit

put_back-Changed :
    (P : Container → Type 0) (s : Sandbox) (id : Bytes) (c' : Container)
    → c'.config.id ≡ id
    → P c'
    → Changed P id s (put_back c' s)
unfolding put_back
put_back-Changed P s id c' its_id p j d e =
    elim (replace_cases c'.config.id j c' d s.containers e) [
      | inl (equal, new) ↦ inl (
        subst (λ k. bytes_eq id k ≡ true) (sym its_id ∙ equal) (bytes_eq_self id),
        subst P (sym new) p,
      )
      | inr (apart, old) ↦ inr (subst (λ k. bytes_eq k j ≡ false) its_id apart, old)
    ]

module _ {W : Type 0} (world : World W) {I : Sandbox → Type 0} (st : Stable I) {A : Type 0}
    (P : A → Container → Type 0) where
  abbrev DidFor : Bytes → Sandbox → A → Sandbox → Type 0
  DidFor id s a s' = I s' × Changed (P a) id s s'

  settle-Yields :
      (s : Sandbox) (id : Bytes) (c : Container) (r : Container × W × Result A)
      → lookup id s.containers ≡ some c
      → Fit id r.0
      → Gives P r
      → I s
      → Yields I (DidFor id s) (settle world s r)
  unfolding Gives
  settle-Yields s id c (c', w, ok a) there fit p h =
      ok-Yields I (DidFor id s) a _ w
        (st.written s id c c' there fit h, put_back-Changed (P a) s id c' fit.its_id p)
  settle-Yields s id c (c', w, error e) there fit p h =
      error-Yields I (DidFor id s) e _ w (st.written s id c c' there fit h)

  pub call-Yields :
      (op : Outside W → Step W A)
      → KeepsFit op
      → (id : Bytes) (c : Container) (s : Sandbox) (w : W) → lookup id s.containers ≡ some c
      → Gives P (op (inside world s) c w)
      → I s
      → Yields I (λ a s'. I s' × Changed (P a) id s s') (call world op c (s, w))
  unfolding call
  call-Yields op keeps id c s w there p h =
      settle-Yields s id c (op (inside world s) c w) there
        (keeps (inside world s) id c w ((st.valid s h).fit id c there)) p h

module _ {W : Type 0} (world : World W) {I : Sandbox → Type 0} (st : Stable I)
    (P : Container → Type 0) where
  abbrev pub Did : Bytes → Sandbox → Sandbox → Type 0
  Did id s s' = I s' × Changed P id s s'

  -- The loop: `op` does its work on a container that is there.
  abbrev pub Works : (Container → Op W Unit) → Type 0
  Works op =
      (id : Bytes) (c : Container) (s : Sandbox) (w : W)
      → lookup id s.containers ≡ some c
      → I s
      → Yields I (λ _ s'. Did id s s') (op c (s, w))

  passed_over :
      (id : Bytes) (ids : List Bytes) (s : Sandbox)
      → lookup id s.containers ≡ none
      → Ahead P (id ∷ ids) s
      → Ahead P ids s
  passed_over id ids s gone ahead j c e = elim (ahead j c e) [
    | inl p ↦ inl p
    | inr here ↦ inr (ground (arith, other_key id j c s.containers gone e))
  ]

  worked_on :
      (id : Bytes) (ids : List Bytes) (s s' : Sandbox)
      → Changed P id s s'
      → Ahead P (id ∷ ids) s
      → Ahead P ids s'
  worked_on id ids s s' did ahead j c e = elim (did j c e) [
    | inl (same_id, p) ↦ inl p
    | inr (apart, old) ↦ elim (ahead j c old) [ inl p ↦ inl p | inr here ↦ inr (ground arith) ]
  ]

  pub for_each-Yields :
      (op : Container → Op W Unit)
      → Works op
      → (ids : List Bytes) (s : Sandbox) (w : W) → I s
      → Ahead P ids s
      → Yields I (λ _ s'. I s' × Every P s') (for_each world op ids (s, w))
  unfolding for_each go_on
  for_each-Yields op works [] s w h ahead =
      ok-Yields I (λ _ s'. I s' × Every P s') tt s w
        (h, λ j c e. elim (ahead j c e) [ inl p ↦ p | inr late ↦ cc ])
  for_each-Yields op works (id ∷ ids) s w h ahead =
      go_on-Yields I (λ _ s'. I s' × Ahead P ids s') (λ _ s'. I s' × Every P s')
        (if_present world (lookup id s.containers) op (s, w)) _
        (if_present-Yields (lookup id s.containers) refl)
        (λ _ s' w' h'. for_each-Yields op works ids s' w' h'.0 h'.1)
    where
      if_present-Yields :
          (o : Option Container)
          → lookup id s.containers ≡ o
          → Yields I (λ _ s'. I s' × Ahead P ids s') (if_present world o op (s, w))
      if_present-Yields none e =
          ok-Yields I (λ _ s'. I s' × Ahead P ids s') tt s w (h, passed_over id ids s e ahead)
      if_present-Yields (some c) e =
          map-Yields I (λ _ s'. Did id s s') (λ _ s'. I s' × Ahead P ids s') (op c (s, w))
            (λ _ s' d. (d.0, worked_on id ids s s' d.1 ahead)) (works id c s w e h)

  pub for_all-Yields :
      (op : Container → Op W Unit)
      → Works op
      → (s : Sandbox) (w : W) → I s
      → Yields I (λ _ s'. I s' × Every P s') (for_all world op (s, w))
  for_all-Yields op works s w h =
      for_each-Yields op works (keys s.containers) s w h
        (λ j c e. inr (listed-keys j c s.containers e))
