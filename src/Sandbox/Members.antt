-- ===== src/Sandbox/Members.antt =====
-- pkg/micantainer/sandbox.go: addContainer, CreateContainer, DeleteContainer, initContainers and
-- loadContainersToSandbox.
use micrun.Prelude.{Bool, List, [], ◌∷◌, true, ◌&&◌, Bytes, if◌then◌else◌}
use micrun.Keyed.{has, insert, remove}
use micrun.Resources.{ContainerConfig}
use micrun.Container.Core.{
  Error, Outside, Step, Container, already_exists, duplicated_key, empty_container_id, refused,
  Result, ok, error,
}
use micrun.Container.State.{StateString}
use micrun.Container.Presence.{is_nil, ensure_client_presence}
use micrun.Container.Lifecycle.{stop}
use micrun.Container.Making.{
  new_container, valid_mica_container, create, may_delete, remove_unless_infra,
}
use micrun.Sandbox.Core.{
  fail, Sandbox, SandboxConfig, World, At, Op, pure, ◌>>=◌, ◌>>◌, go_on, get, modify, find, call,
  store_sandbox, remove_container, inside, log_error,
}
use micrun.Sandbox.Accounting.{update_resources, with_res}
use micrun.Sandbox.Pinning.{check_vcpus_pinning}

-- The loss of a config; one that is left out stays.
unfoldable pub drop_config : Bytes → Sandbox → Sandbox
unfolding remove
drop_config id s = record s {
  config = record s.config { container_configs = remove id s.config.container_configs };
}

abbrev pub with_config : Bytes → ContainerConfig → SandboxConfig → SandboxConfig
with_config id cfg config = record config {
  container_configs = insert id cfg config.container_configs;
  infra_only = config.infra_only && cfg.is_infra;
}

-- What CreateContainer writes into the configuration.
unfoldable pub add_config : ContainerConfig → Sandbox → Sandbox
unfolding insert
add_config cfg s = record s { config = with_config cfg.id cfg s.config }

abbrev pub forget : {V : Type 0} → Bytes → List (Bytes × V) → List (Bytes × V)
forget id m = remove id m

-- What DeleteContainer takes away besides the container.
unfoldable pub forget_container : Bytes → Sandbox → Sandbox
unfolding drop_config
forget_container id s =
    with_res
      (λ res. record res {
        container_cpu_sets = forget id res.container_cpu_sets;
        container_vcpus = forget id res.container_vcpus;
      })
      (drop_config id s)

module _ {W : Type 0} (world : World W) where
  -- newContainer
  unfoldable pub make_container : ContainerConfig → Op W Container
  unfolding new_container inside
  make_container cfg (s, w) =
      let (c, w') = new_container (inside world s) (world.saved_state cfg.id w) cfg w in
      if is_nil cfg.id then ((s, w), error empty_container_id) else ((s, w'), ok c)

  -- create of a container that is not in the sandbox yet.
  abbrev pub created : Sandbox → Container × W × Result Unit → At W × Result Container
  created s (c, w, ok _) = ((s, w), ok c)
  created s (c, w, error e) = ((s, w), error e)

  unfoldable pub create_new : Container → Op W Container
  unfolding create inside
  create_new c (s, w) = created s (create (inside world s) c w)

  abbrev pub validate : Container → Op W Unit
  validate c (s, w) =
      if valid_mica_container (λ path. world.regular path w) world.host.ped c.config
      then ((s, w), ok tt)
      else ((s, w), error refused)

  -- addContainer
  unfoldable pub add_container : Container → Op W Unit
  unfolding has insert
  add_container c (s, w) =
      if has c.config.id s.containers
      then ((s, w), error duplicated_key)
      else ((record s { containers = insert c.config.id c s.containers }, w), ok tt)

  -- The deferred functions of CreateContainer: an error takes the config away again, and once the
  -- container has been added it is stopped and removed before.
  abbrev pub undo_config : {A : Type 0} → Bytes → At W × Result A → At W × Result A
  undo_config id (at, ok a) = (at, ok a)
  undo_config id ((s, w), error e) = ((drop_config id s, w), error e)

  abbrev pub force_stop : Outside W → Step W Unit
  force_stop outside = stop outside true

  abbrev pub stop_and_remove : Bytes → Op W Unit
  stop_and_remove id = do
    log_error (do c ← find id; call world force_stop c)
    log_error (remove_container id)

  abbrev pub undo_container : Bytes → At W × Result Container → At W × Result Container
  undo_container id (at, ok c) = (at, ok c)
  undo_container id (at, error e) = ((stop_and_remove id at).0, error e)

  -- The steps from addContainer on.
  abbrev pub settle_new : Bytes → Op W Container
  settle_new id = do check_vcpus_pinning world; store_sandbox world; find id

  abbrev pub settled : Bytes → Op W Container
  settled id at = undo_container id (settle_new id at)

  abbrev pub create_and_add : Container → Op W Container
  create_and_add c = do c' ← create_new c; add_container c'; settled c.config.id

  -- An invalid container is an error of which the deferred functions do not know.
  abbrev pub add_valid : Bytes → Container → Op W Container
  add_valid id c (s, w) =
      let added = undo_config id (create_and_add c (s, w)) in
      if valid_mica_container (λ path. world.regular path w) world.host.ped c.config
      then added
      else ((s, w), error refused)

  abbrev pub create_from : ContainerConfig → Op W Container
  create_from cfg at = go_on (undo_config cfg.id (make_container cfg at)) (add_valid cfg.id)

  -- CreateContainer
  unfoldable pub create_container : ContainerConfig → Op W Container
  unfolding add_config make_container create_new add_container check_vcpus_pinning drop_config go_on
  create_container cfg (s, w) =
      if has cfg.id s.containers
      then ((s, w), error already_exists)
      else create_from cfg (add_config cfg s, w)

  abbrev pub update_logged : Op W Unit
  update_logged (s, w) = ((update_resources world (s, w)).0, ok tt)

  abbrev pub presence : Outside W → Step W StateString
  presence outside = ensure_client_presence outside

  abbrev pub client_removal : Outside W → Step W Unit
  client_removal outside = remove_unless_infra outside

  abbrev pub without_cache : Bytes → Op W Unit
  without_cache id (s, w) = ((s, world.remove_cache id w), ok tt)

  abbrev pub guard : Bool → Error → Op W Unit
  guard b e = if b then pure tt else fail e

  -- delete of a container; its id is that of the config, which does not change.
  unfoldable pub delete : Container → Op W Unit
  unfolding call find ensure_client_presence remove_container store_sandbox go_on
  delete c = do
    state ← call world presence c
    guard (may_delete state) refused
    c' ← find c.config.id
    call world client_removal c'
    remove_container c.config.id
    store_sandbox world
    without_cache c.config.id

  -- DeleteContainer; the container that it returns is the one of the id.
  unfoldable pub delete_container : Bytes → Op W Unit
  unfolding forget_container update_resources check_vcpus_pinning find delete go_on
  delete_container id at =
      if is_nil id
      then (at, error empty_container_id)
      else (do
        c ← find id
        delete c
        modify (forget_container id)
        update_logged
        check_vcpus_pinning world
        store_sandbox world)
          at

  -- A config read by initContainers.
  abbrev pub note_infra : ContainerConfig → Sandbox → Sandbox
  note_infra cfg s = record s {
    config = record s.config { infra_only = s.config.infra_only && cfg.is_infra };
  }

  -- The loop of initContainers.
  unfoldable pub init_each : List (Bytes × ContainerConfig) → Op W Unit
  unfolding make_container create_new add_container go_on
  init_each [] = pure tt
  init_each ((id, cfg) ∷ cfgs) = do
    modify (note_infra cfg)
    c ← make_container cfg
    validate c
    c' ← create_new c
    add_container c'
    init_each cfgs

  -- initContainers
  unfoldable pub init_containers : Op W Unit
  unfolding init_each update_resources check_vcpus_pinning go_on
  init_containers = do
    s ← get
    init_each s.config.container_configs
    update_resources world
    check_vcpus_pinning world
    store_sandbox world

  unfoldable pub load_each : List (Bytes × ContainerConfig) → Op W Unit
  unfolding make_container add_container go_on
  load_each [] = pure tt
  load_each ((id, cfg) ∷ cfgs) = do c ← make_container cfg; add_container c; load_each cfgs

  -- loadContainersToSandbox
  unfoldable pub load_containers : Op W Unit
  unfolding load_each go_on
  load_containers = do s ← get; load_each s.config.container_configs
