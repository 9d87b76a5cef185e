-- ===== src/Sandbox/Setup/Invalid.antt =====
-- pkg/micantainer/sandbox.go: a configuration that is not valid.
use micrun.Sandbox.Core.{At, Sandbox}
use micrun.Sandbox.Setup.{Creation, created, not_created}
use micrun.Container.Core.{Result, error, ok}
use micrun.Prelude.{◌≡◌}

-- What the initialisation of the containers makes of the creation.
abbrev pub Settles : {W : Type 0} → At W × Result Unit → W × Creation → Type 0
Settles ((s, w), ok _) r = r ≡ (w, created s)
Settles (at, error e) r = r.1 ≡ not_created e
