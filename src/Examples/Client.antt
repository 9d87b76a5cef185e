-- ===== src/Examples/Client.antt =====
-- The client of micad: pkg/libmica. The host records what it is sent.
use micrun.Mica.Status.{MicaStatus, running, pty}
use micrun.Mica.Buffer.{trim_right_nul, copy_into}
use micrun.Mica.Executor.{
  need_update_cpu_cap, update_cpu_capacity, need_update_mem_limit, need_update_cpu_set,
  read_resource, update_pcpu_constrains, need_update_cpu_share, update_cpu_weight,
  need_update_vcpus,
}
use micrun.Prelude.{
  ℕ, suc, ◌≤◌, ◌≡◌, ◌≢◌, refl, List, [], ◌∷◌, ◌++◌, Bool, true, false, some, Bytes, codes, arith,
  All, map, length, ltb, u32,
}
use mathlib.Core.List.{flatten}
use micrun.Text.{itoa, trim_space}
use micrun.Pedestal.Essential.{EssentialResource, init_resource, xen}
use micrun.Mica.Executor.Update.{update_container_resource}
use micrun.Mica.Executor.Update.Applied.{update_container_resource_lem}
use micrun.Mica.Host.{Host, chunk}
use micrun.Mica.Command.{MicaCommand}
use micrun.Mica.ClientConf.{CreateOptions, init_with_opts, pack}
use micrun.Mica.ClientConf.Layout.{fields_in_order, pack_layout, init_with_opts-Arrays}
use micrun.Mica.ClientConf.Decode.{text_at, number_at, pack-init_with_opts}
use micrun.Mica.Socket.{contains, mica_success, mica_failed, success, failure, rx}
use micrun.Mica.Socket.Chunks.{rx-chunks}
use micrun.Mica.Executor.{new_executor, current_max_mem, ensure_memory_limit, recorded_cpus}
use micrun.Mica.Executor.Memory.{Covers, Grows, new_executor-Covers, ensure_memory_limit_lem}
use micrun.Mica.Update.{handle_mica_update_with_xl, xl_as_mica_update}
use micrun.Mica.Update.RoundTrip.{handle_mica_update_with_xl_lem}

-- What was written to sockets and run by xl, the last first.
abbrev pub Sent : Type 0
Sent = List Bytes

-- A host on which `workaround` is set, that answers `answers`.
abbrev pub answering : Bytes → Bytes → Host Sent
answering workaround reply = record {
  socket = λ path sent. true;
  dial = λ path sent. (path ∷ sent, true);
  write = λ msg sent. (msg ∷ sent, true);
  answer = λ sent. (sent, chunk reply ∷ []);
  xl = λ args sent. (flatten args ∷ sent, true);
  workaround = workaround;
  ped = xen;
}

abbrev options : CreateOptions
options = record {
  cpu = codes "1-2";
  name = codes "rtos";
  path = codes "/rtos.elf";
  ped = codes "xen";
  ped_cfg = codes "/image.bin";
  vcpus = 2;
  cpu_weight = 256;
  cpu_capacity = 150;
  memory_mb = 64;
  max_vcpus = 0;
  memory_threshold = 0;
  io_mem = [];
  network = [];
}

pack_layout_example :
    (pack (init_with_opts options) ≡ flatten (fields_in_order (init_with_opts options)))
    × (length (pack (init_with_opts options)) ≡ 1772)
pack_layout_example = pack_layout (init_with_opts options) (init_with_opts-Arrays options)

name_nonzero : All (λ c. c ≢ 0) (codes "rtos")
name_nonzero = ground arith

pack-init_with_opts_example :
    let msg = pack (init_with_opts options) in
    (text_at 0 66 msg ≡ codes "rtos")
    × (number_at 724 msg ≡ u32 2)
    × (number_at 728 msg ≡ u32 8)
    × (number_at 732 msg ≡ u32 256)
    × (number_at 736 msg ≡ u32 150)
    × (number_at 740 msg ≡ u32 64)
    × (number_at 744 msg ≡ u32 128)
pack-init_with_opts_example = pack-init_with_opts options (omega arith) name_nonzero

abbrev answer_chunks : List Bytes
answer_chunks = codes "ok\nMICA-" ∷ codes "SUCC" ∷ codes "ESS\n" ∷ []

chunks_nonempty : All (λ c. c ≢ []) answer_chunks
chunks_nonempty = ground arith

rx-chunks_example :
    (contains mica_failed (flatten answer_chunks) ≡ false
      → contains mica_success (flatten answer_chunks) ≡ true
      → rx (map chunk answer_chunks) ≡ some success)
    × (contains mica_success (flatten answer_chunks) ≡ false
        → contains mica_failed (flatten answer_chunks) ≡ true
        → rx (map chunk answer_chunks) ≡ some failure)
rx-chunks_example = rx-chunks answer_chunks chunks_nonempty

-- The second of two requests fails.
abbrev failing_second : MicaCommand → Bytes → List Bytes → ℕ → ℕ × Bool
failing_second cmd id opts n = (suc n, ltb n 1)

ensure_memory_limit_lem_example :
    let r = ensure_memory_limit failing_second 64 (new_executor (codes "rtos")) 0 in
    Grows (new_executor (codes "rtos")) r.1
    × (r.2 ≡ true → (current_max_mem r.1 ≡ 64) × (64 ≤ r.1.memory_threshold_mb))
    × (r.2 ≡ false → r.1.memory_mb ≡ (new_executor (codes "rtos")).memory_mb)
ensure_memory_limit_lem_example =
    ensure_memory_limit_lem failing_second 64 (new_executor (codes "rtos")) 0
      (new_executor-Covers (codes "rtos")) (omega arith)

abbrev by_xl : Host Sent
by_xl = answering (codes "1") mica_success

handle_mica_update_with_xl_lem_example :
    let asked = λ (key : Bytes).
      handle_mica_update_with_xl by_xl (codes "rtos") ((key ++ (b' ' ∷ itoa 64)) ∷ []) [] in
    let credit2 = λ (opts : List Bytes).
      by_xl.xl (codes "sched-credit2" ∷ codes "-d" ∷ codes "rtos" ∷ opts) [] in
    (asked (codes "Memory") ≡ by_xl.xl (codes "mem-set" ∷ codes "rtos" ∷ codes "64" ∷ []) [])
    × (asked (codes "MaxMem") ≡ by_xl.xl (codes "mem-max" ∷ codes "rtos" ∷ codes "64" ∷ []) [])
    × (asked (codes "VCPU") ≡ by_xl.xl (codes "vcpu-set" ∷ codes "rtos" ∷ codes "64" ∷ []) [])
    × (asked (codes "CPUWeight") ≡ credit2 (codes "-w" ∷ codes "64" ∷ []))
    × (asked (codes "CPUCpacity") ≡ credit2 (codes "-c" ∷ codes "64" ∷ []))
unfolding xl_as_mica_update trim_space itoa
handle_mica_update_with_xl_lem_example =
    handle_mica_update_with_xl_lem by_xl (codes "rtos") 64 [] refl refl (omega arith)

abbrev by_socket : Host Sent
by_socket = answering [] mica_success

recorded_well : Covers (new_executor (codes "rtos"))
recorded_well = new_executor-Covers (codes "rtos")

abbrev accepting : MicaCommand → Bytes → List Bytes → ℕ → ℕ × Bool
accepting cmd id opts n = (suc n, true)

-- An update of the CPUs and of the memory.
abbrev two_limits : EssentialResource
two_limits = record init_resource {
  cpu_capacity = some 150;
  cpu_weight = some 256;
  client_cpu_set = codes "1-2";
  memory_max_mb = some 64;
}

update_container_resource_lem_example :
    let r = update_container_resource accepting 4 two_limits (new_executor (codes "rtos")) 0 in
    (u32 r.1.cpu_capacity ≡ 150)
    × (current_max_mem r.1 ≡ 64)
    × (trim_space (recorded_cpus r.1) ≡ trim_space (codes "1-2"))
    × (u32 r.1.cpu_weight ≡ 256)
unfolding update_container_resource need_update_cpu_cap new_executor update_cpu_capacity
    need_update_mem_limit ensure_memory_limit need_update_cpu_set trim_space read_resource
    trim_right_nul copy_into update_pcpu_constrains need_update_cpu_share update_cpu_weight
    init_resource need_update_vcpus
update_container_resource_lem_example =
    update_container_resource_lem accepting 4 two_limits (new_executor (codes "rtos")) 0
      recorded_well (omega arith, omega arith, omega arith) (omega arith) (ground arith) refl

-- What micad prints for a client.
abbrev status_line : Bytes
status_line = codes "rtos  1-2  Running  rtos(PTY)"

abbrev status_read : MicaStatus
status_read = record {
  name = codes "rtos";
  cpu = codes "1-2";
  state = running;
  services = pty ∷ [];
  raw = status_line;
}
