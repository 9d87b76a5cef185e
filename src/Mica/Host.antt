-- ===== src/Mica/Host.antt =====
-- What pkg/libmica asks of the system around it: sockets, the xl command and the environment. These
-- are the operating system's; `W` is its state.
use micrun.Prelude.{List, Bool, Bytes}
use micrun.Pedestal.Essential.{PedType}

-- One result of a Read on a connection; no bytes are the end of the stream.
pub data Read : Type 0 where
  chunk : Bytes → Read
  failed : Read

pub record Host (W : Type 0) : Type 0 where
  -- whether a path is a socket
  pub socket : Bytes → W → Bool
  pub dial : Bytes → W → W × Bool
  pub write : Bytes → W → W × Bool
  -- the results of the Reads on the connection, until the deadline
  pub answer : W → W × List Read
  -- the command `xl` with its arguments
  pub xl : List Bytes → W → W × Bool
  -- MICRUN_XL_WORKAROUND
  pub workaround : Bytes
  -- pedestal.GetHostPed
  pub ped : PedType
