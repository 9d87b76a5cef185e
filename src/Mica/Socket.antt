-- ===== src/Mica/Socket.antt =====
-- pkg/libmica/socket.go: rx and handleMsg, a message to micad and its answer.
use micrun.Prelude.{
  ℕ, List, [], ◌∷◌, ◌++◌, Bool, true, false, ◌&&◌, ◌||◌, Option, none, some, Bytes, codes, ◌==◌,
  if◌then◌else◌,
}
use micrun.Mica.Host.{Host, Read, chunk, failed}
pub mod Chunks

-- strings.HasPrefix and strings.Contains
abbrev pub has_prefix : Bytes → Bytes → Bool
has_prefix [] s = true
has_prefix (_ ∷ _) [] = false
has_prefix (a ∷ word) (c ∷ s) = a == c && has_prefix word s

abbrev pub contains : Bytes → Bytes → Bool
contains word [] = has_prefix word []
contains word (c ∷ s) = has_prefix word (c ∷ s) || contains word s

-- defs.MicaSuccess, defs.MicaFailed
abbrev pub mica_success : Bytes
mica_success = codes "MICA-SUCCESS"

abbrev pub mica_failed : Bytes
mica_failed = codes "MICA-FAILED"

pub data Reply : Type 0 where
  success failure : Reply

abbrev is_nil : Bytes → Bool
is_nil [] = true
is_nil (_ ∷ _) = false

-- The loop of rx: what was received, and the Reads to come. An error is `none`, also when the deadline
-- passes or the stream ends.
unfoldable pub receive : Bytes → List Read → Option Reply
receive response [] = none
receive response (failed ∷ reads) = none
receive response (chunk bytes ∷ reads) =
    let all = response ++ bytes in
    let rest = receive all reads in
    if is_nil bytes
    then none
    else if contains mica_failed all
    then some failure
    else if contains mica_success all
    then some success
    else rest

-- rx
unfoldable pub rx : List Read → Option Reply
rx reads = receive [] reads

abbrev succeeded : Option Reply → Bool
succeeded (some success) = true
succeeded _ = false

module _ {W : Type 0} (host : Host W) where
  abbrev read_reply : W × List Read → W × Bool
  read_reply (w, reads) = (w, succeeded (rx reads))

  abbrev then_read : W × Bool → W × Bool
  then_read (w, false) = (w, false)
  then_read (w, true) = read_reply (host.answer w)

  abbrev then_write : Bytes → W × Bool → W × Bool
  then_write msg (w, false) = (w, false)
  then_write msg (w, true) = then_read (host.write msg w)

  -- handleMsg; `true` is no error.
  unfoldable pub handle_msg : Bytes → Bytes → W → W × Bool
  handle_msg path msg w = then_write msg (host.dial path w)
