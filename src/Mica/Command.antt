-- ===== src/Mica/Command.antt =====
-- pkg/libmica/client.go: MicaCommand.
use micrun.Prelude.{Bytes, codes}

pub data MicaCommand : Type 0 where
  create start stop remove pause resume status update : MicaCommand

-- The word that is sent.
unfoldable pub word : MicaCommand → Bytes
word create = codes "create"
word start = codes "start"
word stop = codes "stop"
word remove = codes "rm"
word pause = codes "pause"
word resume = codes "resume"
word status = codes "status"
word update = codes "set"
