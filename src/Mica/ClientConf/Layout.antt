-- ===== src/Mica/ClientConf/Layout.antt =====
-- pkg/libmica/client.go: pack writes the fields of MicaClientConf one after the other.
use micrun.Prelude.{
  ℕ, ◌+◌, ◌≡◌, refl, sym, ap, List, [], ◌∷◌, ◌++◌, Bytes, arith, All, length, take, drop, replicate,
  length-append, length-replicate, take-append, drop-append, append_assoc, if◌then◌else◌,
}
use mathlib.Core.List.{flatten}
use micrun.Mica.Buffer.{length-copy_into, take_all}
use micrun.Mica.ClientConf.{
  CreateOptions, ClientConf, init_with_opts, overlay, Piece, field, padding, write, pieces,
  put_uint32, pack,
}

-- The size of a piece, its bytes in the message, and that a field has its size.
abbrev pub size_of : Piece → ℕ
size_of (field size _) = size
size_of (padding size) = size

abbrev pub image : Piece → Bytes
image (field _ bytes) = bytes
image (padding size) = replicate {A = ℕ} size 0

abbrev Sized : Piece → Type 0
Sized (field size bytes) = length bytes ≡ size
Sized (padding _) = Unit

abbrev pub images : List Piece → Bytes
images [] = []
images (p ∷ ps) = image p ++ images ps

abbrev pub blanks : List Piece → Bytes
blanks [] = []
blanks (p ∷ ps) = replicate (size_of p) 0 ++ blanks ps

overlay-replicate :
    (bytes rest : Bytes) → overlay bytes (replicate (length bytes) 0 ++ rest) ≡ bytes ++ rest
overlay-replicate [] rest = refl
overlay-replicate (b ∷ bytes) rest = ap (◌∷◌ b) (overlay-replicate bytes rest)

-- One field written into the zeros behind what is there.
write_field :
    (done bytes rest : Bytes) (size : ℕ)
    → length bytes ≡ size
    → take (length done) (done ++ (replicate {A = ℕ} size 0 ++ rest))
        ++ overlay
            (take size bytes)
            (drop (length done) (done ++ (replicate {A = ℕ} size 0 ++ rest)))
      ≡ (done ++ bytes) ++ rest
write_field done bytes rest size h =
    rw
      (
        take-append done (replicate {A = ℕ} size 0 ++ rest),
        drop-append done (replicate {A = ℕ} size 0 ++ rest),
        take_all size bytes (omega (arith, h)),
        sym h,
        overlay-replicate bytes rest,
        append_assoc done bytes rest,
      )
      refl

end_of :
    (done bytes : Bytes) (size : ℕ)
    → length bytes ≡ size
    → length done + size ≡ length (done ++ bytes)
end_of done bytes size h = omega (arith, length-append done bytes, h)

-- The buffer behind what is written holds zeros until it is written.
write_lem :
    (ps : List Piece) (done : Bytes)
    → All Sized ps
    → write ps (length done) (done ++ blanks ps) ≡ done ++ images ps
write_lem [] done _ = refl
write_lem (field size bytes ∷ ps) done (h, hs) =
    rw
      (
        write_field done bytes (blanks ps) size h,
        end_of done bytes size h,
        write_lem ps (done ++ bytes) hs,
        append_assoc done bytes (images ps),
      )
      refl
write_lem (padding size ∷ ps) done (_, hs) =
    rw
      (
        sym (append_assoc done (replicate {A = ℕ} size 0) (blanks ps)),
        end_of done (replicate {A = ℕ} size 0) size (length-replicate {A = ℕ} size 0),
        write_lem ps (done ++ replicate {A = ℕ} size 0) hs,
        append_assoc done (replicate {A = ℕ} size 0) (images ps),
      )
      refl

length-images : (ps : List Piece) → All Sized ps → length (images ps) ≡ length (blanks ps)
length-images [] _ = refl
length-images (field size bytes ∷ ps) (h, hs) = omega (
  arith,
  h,
  length-append bytes (images ps),
  length-append (replicate {A = ℕ} size 0) (blanks ps),
  length-replicate {A = ℕ} size 0,
  length-images ps hs,
)
length-images (padding size ∷ ps) (_, hs) = omega (
  arith,
  length-append (replicate {A = ℕ} size 0) (images ps),
  length-append (replicate {A = ℕ} size 0) (blanks ps),
  length-images ps hs,
)

-- That the arrays have the sizes of their types.
pub record Arrays (m : ClientConf) : Type 0 where
  pub name : length m.name ≡ 66
  pub path : length m.path ≡ 256
  pub ped : length m.ped ≡ 16
  pub ped_cfg : length m.ped_cfg ≡ 256
  pub cpu_str : length m.cpu_str ≡ 128
  pub iomem : length m.iomem ≡ 512
  pub network : length m.network ≡ 512

pub init_with_opts-Arrays : (opts : CreateOptions) → Arrays (init_with_opts opts)
unfolding init_with_opts
init_with_opts-Arrays opts = record {
  name = length-copy_into 66 opts.name;
  path = length-copy_into 256 opts.path;
  ped = length-copy_into 16 opts.ped;
  ped_cfg = length-copy_into 256 opts.ped_cfg;
  cpu_str = length-copy_into 128 opts.cpu;
  iomem = length-copy_into 512 opts.io_mem;
  network = length-copy_into 512 opts.network;
}

pieces-Sized : (m : ClientConf) → Arrays m → All Sized (pieces m)
unfolding put_uint32
pieces-Sized m a = (
  a.name,
  (
    a.path,
    (
      a.ped,
      (
        a.ped_cfg,
        (
          refl,
          (
            a.cpu_str,
            (tt, (refl, (refl, (refl, (refl, (refl, (refl, (a.iomem, (a.network, tt))))))))),
          ),
        ),
      ),
    ),
  ),
)

-- The fields of MicaClientConf in order, with one unused byte behind the CPU text.
abbrev pub fields_in_order : ClientConf → List Bytes
fields_in_order m =
    m.name
    ∷ m.path
    ∷ m.ped
    ∷ m.ped_cfg
    ∷ ((if m.debug then 1 else 0) ∷ [])
    ∷ m.cpu_str
    ∷ (0 ∷ [])
    ∷ put_uint32 m.vcpu_num
    ∷ put_uint32 m.max_vcpu_num
    ∷ put_uint32 m.cpu_weight
    ∷ put_uint32 m.cpu_capacity
    ∷ put_uint32 m.memory_mb
    ∷ put_uint32 m.memory_threshold_mb
    ∷ m.iomem
    ∷ m.network
    ∷ []

-- For arrays of the sizes of their Go types, pack writes the fields of MicaClientConf one after the
-- other, with one byte of padding behind the CPU text, 1772 bytes in all.
pub pack_layout :
    (m : ClientConf) → Arrays m → (pack m ≡ flatten (fields_in_order m)) × (length (pack m) ≡ 1772)
unfolding pack flatten put_uint32
pack_layout m a =
    let written = write_lem (pieces m) [] (pieces-Sized m a) in
    (written, omega (arith, ap length written, length-images (pieces m) (pieces-Sized m a)))
