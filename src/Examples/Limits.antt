-- ===== src/Examples/Limits.antt =====
-- Resources: pkg/pedestal, pkg/micantainer/container_resources.go.
use micrun.Prelude.{◌≤◌, ◌*◌, ◌≡◌, refl, [], ◌∷◌, false, some, codes, arith, pos}
use micrun.Text.{split, trim_space, atoi}
use micrun.Cpuset.{CpuSet, size, put, put_all}
use micrun.Cpuset.Parse.{parse, read_cpu}
use micrun.Mica.CpuString.{parse_cpu_string}
use micrun.Resources.{
  LinuxCpu, LinuxMemory, LinuxResources, ContainerConfig, no_cpu, no_memory, cpu_mask,
}
use micrun.Pedestal.Essential.{HostCpus, xen, unsupported, host_cpu_counts}
use micrun.Pedestal.Planner.{plan_essential_resources, plan_bounds, value_or}
use micrun.OciResources.{parse_oci_resources}
use micrun.OciResources.Clip.{InRange, parse_oci_resources-InRange}

-- Three CPUs by name, and the time of two.
abbrev two_cpus : LinuxCpu
two_cpus = record no_cpu {
  quota = some (pos 200000);
  period = some 100000;
  cpus = codes "1-2,9";
  shares = some 512;
}

abbrev half_a_gib : LinuxMemory
half_a_gib = record no_memory { limit = some (pos 536870912); reservation = some (pos 67108864) }

abbrev resources : LinuxResources
resources = record { cpu = some two_cpus; memory = some half_a_gib; hugepage_limits = [] }

abbrev pub config : ContainerConfig
config = record {
  id = codes "rtos";
  is_infra = false;
  resources = some resources;
  image_abs_path = codes "/rtos.elf";
  pedestal_conf = codes "/image.bin";
  os = codes "zephyr";
  vcpu_num = 1;
  pcpu_num = 0;
  max_vcpu_num = 0;
  memory_threshold_mb = 0;
}

abbrev cpu_set : CpuSet
cpu_set = (parse (codes "1-2,9")).0

plan_bounds_example :
    let res = plan_essential_resources xen (some resources) in
    (res.vcpu ≡ some (size cpu_set))
    × (res.client_cpu_set ≡ codes "1-2,9")
    × (value_or 0 res.cpu_capacity ≤ size cpu_set * 100)
    × (1 ≤ value_or 0 res.cpu_weight)
    × (value_or 0 res.cpu_weight ≤ 65535)
unfolding parse split trim_space read_cpu atoi put put_all
plan_bounds_example =
    plan_bounds resources two_cpus b'1' (codes "-2,9") cpu_set refl refl refl (omega arith)
      (omega arith)

abbrev baremetal : HostCpus
baremetal = host_cpu_counts unsupported 8 8

parse_oci_resources-InRange_example :
    InRange 4 (cpu_mask (parse_oci_resources xen 4 (some resources) config))
unfolding parse_cpu_string split trim_space atoi
parse_oci_resources-InRange_example =
    parse_oci_resources-InRange xen 4 resources two_cpus config (1 ∷ 2 ∷ 9 ∷ []) refl refl refl
