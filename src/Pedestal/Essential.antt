-- ===== src/Pedestal/Essential.antt =====
-- pkg/pedestal/resources.go: EssentialResource and InitResource, and what micran can hand out of the
-- host's CPUs. The counts of the host are cached once, so they are the fields of a state.
use micrun.Prelude.{
  ℕ, ◌+◌, ◌-◌, ◌≤◌, ◌<◌, List, [], ◌≡◌, Bool, true, false, ◌&&◌, Option, some, Bytes, arith, ltb,
  leb, if◌then◌else◌, min,
}
use micrun.Resources.{default_min_mem_mb}

pub record EssentialResource : Type 0 where
  pub cpu_capacity : Option ℕ
  pub cpu_weight : Option ℕ
  pub client_cpu_set : Bytes
  pub vcpu : Option ℕ
  pub memory_max_mb : Option ℕ
  pub memory_min_mb : ℕ
  pub vif : List Bytes

-- InitResource
unfoldable pub init_resource : EssentialResource
init_resource = record {
  cpu_capacity = some 0;
  cpu_weight = some 0;
  client_cpu_set = [];
  vcpu = some 1;
  memory_max_mb = some default_min_mem_mb;
  memory_min_mb = 0;
  vif = [];
}

-- pkg/pedestal/types.go
pub data PedType : Type 0 where
  xen fusion_dock acrn open_amp unsupported : PedType

abbrev pub is_xen : PedType → Bool
is_xen xen = true
is_xen _ = false

-- HostCPUInventory, the reservation, the Dom0 flag and the host's pedestal.
pub record HostCpus : Type 0 where
  pub ped : PedType
  pub physical : ℕ
  pub linux_visible : ℕ
  pub reserved : ℕ
  pub exclusive_dom0 : Bool

-- HostCPUCounts, run once on what xl and the Go runtime report.
unfoldable pub host_cpu_counts : PedType → ℕ → ℕ → HostCpus
host_cpu_counts ped max_cpu_num num_cpu = record {
  ped = ped;
  physical = max_cpu_num;
  linux_visible = min num_cpu max_cpu_num;
  reserved = 0;
  exclusive_dom0 = false;
}

-- ClientCPUCapacity
unfoldable pub client_cpu_capacity : HostCpus → ℕ
client_cpu_capacity h =
    if is_xen h.ped
    then if ltb h.linux_visible h.physical && h.exclusive_dom0
      then h.physical - h.linux_visible
      else h.physical
    else if leb h.physical h.reserved
    then 0
    else h.physical - h.reserved

-- SetBaremetalReservedCPUs
unfoldable pub set_baremetal_reserved_cpus : ℕ → HostCpus → HostCpus
set_baremetal_reserved_cpus count h = record h {
  reserved = if ltb h.physical count then h.physical else count;
}

-- EnableDom0CPUExclusive
unfoldable pub enable_dom0_cpu_exclusive : Bool → HostCpus → HostCpus
enable_dom0_cpu_exclusive enabled h = record h { exclusive_dom0 = enabled }

-- Without Xen, the CPUs handed out and the CPUs reserved are together the CPUs of the host, whatever
-- count was asked for; with Xen the reservation changes nothing.
pub client_cpu_capacity-reserved :
    (count : ℕ) (h : HostCpus)
    → let h' = set_baremetal_reserved_cpus count h in
      (is_xen h.ped ≡ false → client_cpu_capacity h' + h'.reserved ≡ h.physical)
      × (is_xen h.ped ≡ true → client_cpu_capacity h' ≡ client_cpu_capacity h)
unfolding client_cpu_capacity set_baremetal_reserved_cpus
client_cpu_capacity-reserved count h = (λ e. ground arith, λ e. ground arith)

-- A host with a CPU always has one for clients on Xen, with Dom0 exclusive or not.
pub client_cpu_capacity-xen :
    (max_cpu_num num_cpu : ℕ) (enabled : Bool)
    → 0 < max_cpu_num
    → let h = enable_dom0_cpu_exclusive enabled (host_cpu_counts xen max_cpu_num num_cpu) in
      (0 < client_cpu_capacity h) × (client_cpu_capacity h ≤ max_cpu_num)
unfolding client_cpu_capacity enable_dom0_cpu_exclusive host_cpu_counts
client_cpu_capacity-xen n k enabled h = ground arith
