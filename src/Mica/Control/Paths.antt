-- ===== src/Mica/Control/Paths.antt =====
-- pkg/libmica/client.go: which commands are the same request to micad.
use micrun.Prelude.{◌≡◌, refl, sym, ◌∙◌, List, [], ◌∷◌, false, Bytes}
use micrun.Mica.Host.{Host}
use micrun.Mica.Command.{stop, start, pause, resume, update}
use micrun.Mica.Update.{xl_as_mica_update, handle_mica_update_with_xl}
use micrun.Mica.Control.{mica_ctl, stop_client, remove_client, destination, send_command}

module _ {W : Type 0} (host : Host W) where
  handle_mica_update_with_xl-off :
      (id : Bytes) (opts : List Bytes) (w : W)
      → xl_as_mica_update host.workaround ≡ false
      → handle_mica_update_with_xl host id opts w ≡ (w, false)
  unfolding handle_mica_update_with_xl
  handle_mica_update_with_xl-off id [] w off = refl
  handle_mica_update_with_xl-off id (opt ∷ opts) w off = rw off refl

  -- A pause is the request of a stop, a resume that of a start, and Stop removes the client. Without
  -- the xl workaround the options of a command, so also the values of an update, are not sent.
  pub mica_ctl_same :
      (id : Bytes) (opts opts' : List Bytes) (w : W)
      → xl_as_mica_update host.workaround ≡ false
      → (mica_ctl host pause id opts w ≡ mica_ctl host stop id opts w)
        × (mica_ctl host resume id opts w ≡ mica_ctl host start id opts w)
        × (stop_client host id w ≡ remove_client host id w)
        × (mica_ctl host update id opts w ≡ mica_ctl host update id opts' w)
  unfolding mica_ctl destination stop_client remove_client send_command
  mica_ctl_same id opts opts' w off =
      let by_xl =
        handle_mica_update_with_xl-off id opts w off
        ∙ sym (handle_mica_update_with_xl-off id opts' w off) in
      (refl, refl, refl, rw by_xl refl)
