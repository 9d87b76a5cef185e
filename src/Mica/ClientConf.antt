-- ===== src/Mica/ClientConf.antt =====
-- pkg/libmica/client.go: MicaClientConf, the message that registers a client, InitWithOpts and pack.
-- The numbers are `int`s that come from uint32 values.
use micrun.Prelude.{
  ℕ, ◌+◌, ◌-◌, ◌*◌, ◌/◌, ◌%◌, List, [], ◌∷◌, ◌++◌, Bool, true, false, Bytes, ◌==◌, ltb,
  if◌then◌else◌, length, take, drop, replicate, u32,
}
use micrun.Mica.Buffer.{copy_into}
pub mod Layout
pub mod Decode

abbrev pub max_name_len : ℕ
max_name_len = 66

abbrev pub max_ped_len : ℕ
max_ped_len = 16

abbrev pub max_firmware_path_len : ℕ
max_firmware_path_len = 256

abbrev pub max_cpu_string_len : ℕ
max_cpu_string_len = 128

abbrev pub max_config_str_len : ℕ
max_config_str_len = 512

-- createMsgDebugFieldSize … createMsgSerializedBufSize
abbrev pub create_msg_prefix_size : ℕ
create_msg_prefix_size =
    max_name_len + max_firmware_path_len + max_ped_len + max_firmware_path_len + 1
    + max_cpu_string_len

abbrev pub create_msg_padding_after_cpu : ℕ
create_msg_padding_after_cpu = (4 - create_msg_prefix_size % 4) % 4

abbrev pub create_msg_serialized_buf_size : ℕ
create_msg_serialized_buf_size =
    create_msg_prefix_size + create_msg_padding_after_cpu + 6 * 4 + max_config_str_len * 2

-- defaultMaxVCPUs, fallbackMaxMemoryMB
abbrev pub default_max_vcpus : ℕ
default_max_vcpus = 8

abbrev pub fallback_max_memory_mb : ℕ
fallback_max_memory_mb = 16 * 2

-- MicaClientConfCreateOptions
pub record CreateOptions : Type 0 where
  pub cpu : Bytes
  pub name : Bytes
  pub path : Bytes
  pub ped : Bytes
  pub ped_cfg : Bytes
  pub vcpus : ℕ
  pub cpu_weight : ℕ
  pub cpu_capacity : ℕ
  pub memory_mb : ℕ
  pub max_vcpus : ℕ
  pub memory_threshold : ℕ
  pub io_mem : Bytes
  pub network : Bytes

-- MicaClientConf; a byte array is the list of its bytes.
pub record ClientConf : Type 0 where
  pub name : Bytes
  pub path : Bytes
  pub ped : Bytes
  pub ped_cfg : Bytes
  pub debug : Bool
  pub cpu_str : Bytes
  pub vcpu_num : ℕ
  pub max_vcpu_num : ℕ
  pub cpu_weight : ℕ
  pub cpu_capacity : ℕ
  pub memory_mb : ℕ
  pub memory_threshold_mb : ℕ
  pub iomem : Bytes
  pub network : Bytes

-- The threshold that InitWithOpts takes.
abbrev pub initial_threshold : CreateOptions → ℕ
initial_threshold opts =
    if opts.memory_threshold == 0
    then if ltb 0 opts.memory_mb then opts.memory_mb * 2 else fallback_max_memory_mb
    else opts.memory_threshold

-- InitWithOpts
unfoldable pub init_with_opts : CreateOptions → ClientConf
init_with_opts opts = record {
  name = copy_into max_name_len opts.name;
  path = copy_into max_firmware_path_len opts.path;
  ped = copy_into max_ped_len opts.ped;
  ped_cfg = copy_into max_firmware_path_len opts.ped_cfg;
  debug = false;
  cpu_str = copy_into max_cpu_string_len opts.cpu;
  vcpu_num = opts.vcpus;
  max_vcpu_num = if ltb 0 opts.max_vcpus then opts.max_vcpus else default_max_vcpus;
  cpu_weight = opts.cpu_weight;
  cpu_capacity = opts.cpu_capacity;
  memory_mb = opts.memory_mb;
  memory_threshold_mb = initial_threshold opts;
  iomem = copy_into max_config_str_len opts.io_mem;
  network = copy_into max_config_str_len opts.network;
}

-- copy(buf, data)
abbrev pub overlay : Bytes → Bytes → Bytes
overlay [] buf = buf
overlay (_ ∷ _) [] = []
overlay (b ∷ data') (_ ∷ buf) = b ∷ overlay data' buf

-- What pack does in turn: copy(buf[offset:offset+size], field[:]); offset += size, or the offset alone.
pub data Piece : Type 0 where
  field : (size : ℕ) → Bytes → Piece
  padding : (size : ℕ) → Piece

abbrev pub write : List Piece → ℕ → Bytes → Bytes
write [] offset buf = buf
write (field size bytes ∷ rest) offset buf =
    write rest (offset + size) (take offset buf ++ overlay (take size bytes) (drop offset buf))
write (padding size ∷ rest) offset buf = write rest (offset + size) buf

-- binary.LittleEndian.PutUint32(…, uint32(n))
unfoldable pub put_uint32 : ℕ → Bytes
put_uint32 n = u32 n % 256 ∷ u32 n / 256 % 256 ∷ u32 n / 65536 % 256 ∷ u32 n / 16777216 % 256 ∷ []

abbrev pub pieces : ClientConf → List Piece
pieces m =
    field max_name_len m.name
    ∷ field max_firmware_path_len m.path
    ∷ field max_ped_len m.ped
    ∷ field max_firmware_path_len m.ped_cfg
    ∷ field 1 ((if m.debug then 1 else 0) ∷ [])
    ∷ field max_cpu_string_len m.cpu_str
    ∷ padding create_msg_padding_after_cpu
    ∷ field 4 (put_uint32 m.vcpu_num)
    ∷ field 4 (put_uint32 m.max_vcpu_num)
    ∷ field 4 (put_uint32 m.cpu_weight)
    ∷ field 4 (put_uint32 m.cpu_capacity)
    ∷ field 4 (put_uint32 m.memory_mb)
    ∷ field 4 (put_uint32 m.memory_threshold_mb)
    ∷ field max_config_str_len m.iomem
    ∷ field max_config_str_len m.network
    ∷ []

unfoldable pub pack : ClientConf → Bytes
pack m = write (pieces m) 0 (replicate create_msg_serialized_buf_size 0)
