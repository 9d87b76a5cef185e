-- ===== src/Mica/Status.antt =====
-- pkg/libmica/utils.go and client.go: the status text of micad and what is read from it. `max_cpu_num`
-- is MaxCPUNum().
use micrun.Prelude.{
  ℕ, ◌-◌, List, [], ◌∷◌, ◌++◌, Bool, true, false, ◌&&◌, ◌||◌, not, Option, none, some, Bytes, codes,
  ltb, if◌then◌else◌,
}
use micrun.Text.{itoa}
use micrun.Mica.Host.{Host}
use micrun.Mica.Command.{MicaCommand, status}
use micrun.Mica.CpuString.{is_valid_cpu_string}
use micrun.Mica.Executor.{bytes_eq}
use micrun.Mica.Socket.{contains, mica_failed}
use micrun.Mica.Update.{fields, lower, is_nil}
use micrun.Mica.Control.{mica_ctl}
pub mod Reading

pub data MicaState : Type 0 where
  unknown offline configured ready running suspended stopped state_err : MicaState

pub data MicaService : Type 0 where
  pty rpc umt debug : MicaService

pub record MicaStatus : Type 0 where
  pub name : Bytes
  pub cpu : Bytes
  pub state : MicaState
  pub services : List MicaService
  pub raw : Bytes

abbrev pub same_state : MicaState → MicaState → Bool
same_state unknown unknown = true
same_state offline offline = true
same_state configured configured = true
same_state ready ready = true
same_state running running = true
same_state suspended suspended = true
same_state stopped stopped = true
same_state state_err state_err = true
same_state _ _ = false

abbrev pub same_service : MicaService → MicaService → Bool
same_service pty pty = true
same_service rpc rpc = true
same_service umt umt = true
same_service debug debug = true
same_service _ _ = false

-- parseMicaState
unfoldable pub parse_mica_state : Bytes → MicaState
parse_mica_state s =
    if bytes_eq s (codes "Offline")
    then offline
    else if bytes_eq s (codes "Configured")
    then configured
    else if bytes_eq s (codes "Ready")
    then ready
    else if bytes_eq s (codes "Running")
    then running
    else if bytes_eq s (codes "Suspended")
    then suspended
    else if bytes_eq s (codes "Stopped")
    then stopped
    else if bytes_eq s (codes "Error")
    then state_err
    else unknown

-- What one field appends.
abbrev service_in : Bytes → List MicaService → List MicaService
service_in s rest =
    if contains (codes "pty") s
    then pty ∷ rest
    else if contains (codes "rpc") s
    then rpc ∷ rest
    else if contains (codes "umt") s
    then umt ∷ rest
    else if contains (codes "debug") s
    then debug ∷ rest
    else rest

-- parseMicaServices
unfoldable pub parse_mica_services : List Bytes → List MicaService
parse_mica_services [] = []
parse_mica_services (field ∷ rest) =
    let more = parse_mica_services rest in service_in (lower field) more

-- The CPU text that stands for all CPUs; an error is `none`.
abbrev pub named_cpus : ℕ → Bytes → Option Bytes
named_cpus max_cpu_num [] =
    if ltb 0 max_cpu_num then some (codes "0-" ++ itoa (max_cpu_num - 1)) else none
named_cpus max_cpu_num (c ∷ cpu) = some (c ∷ cpu)

abbrev pub with_state : Bytes → Bytes → MicaState → List Bytes → Bytes → Option MicaStatus
with_state raw name state services cpu =
    if same_state state unknown
    then none
    else some (record {
      name = name;
      cpu = cpu;
      state = state;
      services = parse_mica_services services;
      raw = raw;
    })

abbrev pub with_cpus : Bytes → Bytes → MicaState → List Bytes → Option Bytes → Option MicaStatus
with_cpus raw name state services none = none
with_cpus raw name state services (some cpu) = with_state raw name state services cpu

abbrev pub from_fields : ℕ → Bytes → List Bytes → Option MicaStatus
from_fields max_cpu_num raw (name ∷ cpu ∷ state ∷ services) =
    if is_valid_cpu_string cpu
    then with_cpus raw name (parse_mica_state state) services (named_cpus max_cpu_num cpu)
    else none
from_fields max_cpu_num raw _ = none

-- parseMicaStatus; an error is `none`.
unfoldable pub parse_mica_status : ℕ → Bytes → Option MicaStatus
unfolding parse_mica_state parse_mica_services
parse_mica_status max_cpu_num raw =
    if is_nil raw
    then none
    else if contains mica_failed raw || contains (codes "Error") raw
    then none
    else from_fields max_cpu_num raw (fields raw)

-- isValid
unfoldable pub is_valid : MicaStatus → Bool
is_valid s = not (is_nil s.name) && is_valid_cpu_string s.cpu && not (same_state s.state unknown)

-- hasService
unfoldable pub has_service : MicaService → List MicaService → Bool
has_service service [] = false
has_service service (s ∷ rest) = same_service s service || has_service service rest

abbrev is_good : Option MicaStatus → Bool
is_good none = false
is_good (some s) = is_valid s

-- validStatusResponse
unfoldable pub valid_status_response : ℕ → Bytes → Bool
unfolding parse_mica_status is_valid
valid_status_response max_cpu_num res =
    if is_nil res then false else is_good (parse_mica_status max_cpu_num res)

abbrev only_valid : Bool → Option MicaStatus → Option MicaStatus
only_valid with_pty none = none
only_valid with_pty (some s) =
    if not (is_valid s)
    then none
    else if with_pty && not (has_service pty s.services)
    then none
    else some s

-- A filter that is set, by name, by state, or by service; `none` is no filter by service.
abbrev pub wanted_service : Option MicaService → MicaStatus → Bool
wanted_service none s = true
wanted_service (some service) s = has_service service s.services

abbrev pub wanted : Bytes → MicaState → Option MicaService → MicaStatus → Bool
wanted name state service s =
    (is_nil name || contains name s.name)
    && (same_state state unknown || same_state s.state state)
    && wanted_service service s

-- FilterStatuses, of statuses that are there.
unfoldable pub filter_statuses :
    Bytes → MicaState → Option MicaService → List MicaStatus → List MicaStatus
filter_statuses name state service [] = []
filter_statuses name state service (s ∷ rest) =
    let more = filter_statuses name state service rest in
    if wanted name state service s then s ∷ more else more

module _ {W : Type 0} (host : Host W) where
  abbrev pub queried : W × Bool → W × Option Bytes
  queried (w, true) = (w, some [])
  queried (w, false) = (w, none)

  -- queryStatus
  unfoldable pub query_status : Bytes → W → W × Option Bytes
  unfolding mica_ctl
  query_status id w = queried (mica_ctl host status id [] w)

  abbrev pub read_status : ℕ → Bool → W × Option Bytes → W × Option MicaStatus
  read_status max_cpu_num with_pty (w, none) = (w, none)
  read_status max_cpu_num with_pty (w, some res) =
      (w, only_valid with_pty (parse_mica_status max_cpu_num res))

  -- Status; `with_pty` is the filter's Ped.
  unfoldable pub status_of : ℕ → Bool → Bytes → W → W × Option MicaStatus
  unfolding query_status parse_mica_status is_valid has_service
  status_of max_cpu_num with_pty id w = read_status max_cpu_num with_pty (query_status id w)
