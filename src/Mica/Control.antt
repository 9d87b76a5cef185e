-- ===== src/Mica/Control.antt =====
-- pkg/libmica/client.go and utils.go: the commands to micad for a client. An id is a single path
-- element, as containerd's are, so that filepath.Join only puts the directory in front.
use micrun.Prelude.{
  ℕ, List, [], ◌∷◌, ◌++◌, Bool, true, false, not, Bytes, codes, ltb, if◌then◌else◌, length,
}
use micrun.Pedestal.Essential.{PedType, is_xen}
use micrun.Pedestal.Xl.{xl_pause, xl_resume}
use micrun.Mica.Host.{Host}
use micrun.Mica.Command.{
  MicaCommand, create, start, stop, remove, pause, resume, status, update, word,
}
use micrun.Mica.Socket.{handle_msg}
use micrun.Mica.Update.{handle_mica_update_with_xl}
use micrun.Mica.ClientConf.{ClientConf, pack, max_name_len}
pub mod Paths

-- defs.MicaCreatSocketPath
abbrev pub create_socket : Bytes
create_socket = codes "/run/mica/mica-create.socket"

-- filepath.Join(defs.MicaStateDir, id+".socket")
abbrev pub client_socket : Bytes → Bytes
client_socket id = codes "/run/mica/" ++ (id ++ codes ".socket")

-- The switch of micaCtlImpl: where a command goes, and as what.
unfoldable pub destination : MicaCommand → Bytes → Bytes × MicaCommand
destination pause id = (client_socket id, stop)
destination resume id = (client_socket id, start)
destination status id = (create_socket, status)
destination cmd id = (client_socket id, cmd)

abbrev is_nil : Bytes → Bool
is_nil [] = true
is_nil (_ ∷ _) = false

abbrev pub is_update : MicaCommand → Bool
is_update update = true
is_update _ = false

module _ {W : Type 0} (host : Host W) where
  -- ClientNotExist
  unfoldable pub client_not_exist : Bytes → W → Bool
  client_not_exist id w = not (host.socket (client_socket id) w)

  -- Create
  unfoldable pub create_client : ClientConf → W → W × Bool
  create_client config w = handle_msg host create_socket (pack config) w

  -- The end of micaCtlImpl.
  unfoldable pub send_command : MicaCommand → Bytes → W → W × Bool
  unfolding destination
  send_command cmd id w = let to = destination cmd id in handle_msg host to.0 (word to.1) w

  -- An update that xl has carried out needs no message.
  abbrev pub or_send : MicaCommand → Bytes → W × Bool → W × Bool
  or_send cmd id (w, true) = (w, true)
  or_send cmd id (w, false) = send_command cmd id w

  -- micaCtlImpl; defs.WorkaroundUpdate is true.
  unfoldable pub mica_ctl : MicaCommand → Bytes → List Bytes → W → W × Bool
  unfolding send_command
  mica_ctl cmd id opts w =
      if not (host.socket create_socket w)
      then (w, false)
      else if is_nil id
      then (w, false)
      else if ltb max_name_len (length id)
      then (w, false)
      else if is_update cmd
      then or_send cmd id (handle_mica_update_with_xl host id opts w)
      else send_command cmd id w

  -- Start
  unfoldable pub start_client : Bytes → W → W × Bool
  unfolding mica_ctl
  start_client id w = mica_ctl start id [] w

  -- Stop
  unfoldable pub stop_client : Bytes → W → W × Bool
  unfolding mica_ctl client_not_exist
  stop_client id w = if client_not_exist id w then (w, true) else mica_ctl remove id [] w

  -- Pause
  unfoldable pub pause_client : Bytes → W → W × Bool
  unfolding mica_ctl
  pause_client id w = if is_xen host.ped then xl_pause host.xl id w else mica_ctl pause id [] w

  -- Resume
  unfoldable pub resume_client : Bytes → W → W × Bool
  unfolding mica_ctl
  resume_client id w = if is_xen host.ped then xl_resume host.xl id w else mica_ctl resume id [] w

  -- Remove
  unfoldable pub remove_client : Bytes → W → W × Bool
  unfolding mica_ctl client_not_exist
  remove_client id w = if client_not_exist id w then (w, true) else mica_ctl remove id [] w
