-- ===== src/Mica/ClientConf/Decode.antt =====
-- pkg/libmica/client.go: what stands in the message: texts that end at a NUL byte and
-- little-endian numbers at the offsets where pack puts them.
use micrun.Prelude.{
  ℕ, zero, suc, ◌+◌, ◌*◌, ◌≤◌, ◌≡◌, ◌≢◌, refl, ◌∙◌, ap, [], ◌∷◌, ◌++◌, Bytes, arith, All, length,
  take, drop, u32, ltb, if◌then◌else◌, take-append,
}
use mathlib.Core.List.{flatten}
use micrun.Mica.Buffer.{trim_right_nul, trim_right_nul-copy_into}
use micrun.Mica.ClientConf.{
  CreateOptions, ClientConf, init_with_opts, put_uint32, pack, initial_threshold, default_max_vcpus,
}
use micrun.Mica.ClientConf.Layout.{Arrays, init_with_opts-Arrays, pack_layout}

abbrev from_bytes : Bytes → ℕ
from_bytes [] = 0
from_bytes (b ∷ s) = b + 256 * from_bytes s

-- The number at an offset, and the text of an array there.
abbrev pub number_at : ℕ → Bytes → ℕ
number_at offset msg = from_bytes (take 4 (drop offset msg))

abbrev pub text_at : ℕ → ℕ → Bytes → Bytes
text_at offset size msg = trim_right_nul (take size (drop offset msg))

from_bytes-put_uint32 : (n : ℕ) → from_bytes (put_uint32 n) ≡ u32 n
unfolding put_uint32
from_bytes-put_uint32 n = omega arith

skip : (s rest : Bytes) (size n : ℕ) → length s ≡ size → drop (size + n) (s ++ rest) ≡ drop n rest
skip [] rest zero n h = ap (λ k. drop k rest) (omega arith)
skip [] rest (suc size) n h = absurd (omega (arith, h))
skip (c ∷ s) rest zero n h = absurd (omega (arith, h))
skip (c ∷ s) rest (suc size) n h =
    let e : suc size + n ≡ suc (size + n) = omega arith in
    rw e (skip s rest size n (omega (arith, h)))

abbrev behind_texts : ClientConf → Bytes
behind_texts m = flatten (
    put_uint32 m.vcpu_num
    ∷ put_uint32 m.max_vcpu_num
    ∷ put_uint32 m.cpu_weight
    ∷ put_uint32 m.cpu_capacity
    ∷ put_uint32 m.memory_mb
    ∷ put_uint32 m.memory_threshold_mb
    ∷ m.iomem
    ∷ m.network
    ∷ [])

-- The numbers begin at 724.
behind_texts_lem :
    (m : ClientConf) (n : ℕ)
    → Arrays m
    → drop (66 + (256 + (16 + (256 + (1 + (128 + (1 + n))))))) (pack m) ≡ drop n (behind_texts m)
unfolding flatten
behind_texts_lem m n a =
    rw
      (
        (pack_layout m a).0,
        skip m.name _ 66 (256 + (16 + (256 + (1 + (128 + (1 + n)))))) a.name,
        skip m.path _ 256 (16 + (256 + (1 + (128 + (1 + n))))) a.path,
        skip m.ped _ 16 (256 + (1 + (128 + (1 + n)))) a.ped,
        skip m.ped_cfg _ 256 (1 + (128 + (1 + n))) a.ped_cfg,
        skip ((if m.debug then 1 else 0) ∷ []) _ 1 (128 + (1 + n)) refl,
        skip m.cpu_str _ 128 (1 + n) a.cpu_str,
        skip (0 ∷ []) _ 1 n refl,
      )
      refl

-- One number of the message.
number_at-pack :
    (m : ClientConf) (n value : ℕ)
    → Arrays m
    → take 4 (drop n (behind_texts m)) ≡ put_uint32 value
    → from_bytes (take 4 (drop (66 + (256 + (16 + (256 + (1 + (128 + (1 + n))))))) (pack m)))
      ≡ u32 value
number_at-pack m n value a e =
    ap (λ s. from_bytes (take 4 s)) (behind_texts_lem m n a)
    ∙ ap from_bytes e
    ∙ from_bytes-put_uint32 value

take_front : (s rest : Bytes) (size : ℕ) → length s ≡ size → take size (s ++ rest) ≡ s
take_front s rest size h = rw (← h) (take-append s rest)

text_at-pack : (m : ClientConf) → Arrays m → text_at 0 66 (pack m) ≡ trim_right_nul m.name
unfolding flatten
text_at-pack m a =
    ap (λ s. trim_right_nul (take 66 s)) (pack_layout m a).0
    ∙ ap trim_right_nul (take_front m.name _ 66 a.name)

-- For options whose name has at most 66 bytes and no NUL byte: the message of InitWithOpts and pack
-- holds, where pack puts the fields of MicaClientConf, the name with the NUL bytes behind it cut
-- off, and each number in 32 bits, with the default for a missing maximum of virtual CPUs and the
-- initial threshold.
pub pack-init_with_opts :
    (opts : CreateOptions)
    → length opts.name ≤ 66
    → All (λ c. c ≢ 0) opts.name
    → let msg = pack (init_with_opts opts) in
      (text_at 0 66 msg ≡ opts.name)
      × (number_at 724 msg ≡ u32 opts.vcpus)
      × (number_at 728 msg
          ≡ u32 (if ltb 0 opts.max_vcpus then opts.max_vcpus else default_max_vcpus))
      × (number_at 732 msg ≡ u32 opts.cpu_weight)
      × (number_at 736 msg ≡ u32 opts.cpu_capacity)
      × (number_at 740 msg ≡ u32 opts.memory_mb)
      × (number_at 744 msg ≡ u32 (initial_threshold opts))
unfolding init_with_opts put_uint32 flatten
pack-init_with_opts opts h nonzero =
    let m = init_with_opts opts in
    let a : Arrays m = init_with_opts-Arrays opts in
    (
      text_at-pack m a ∙ trim_right_nul-copy_into 66 opts.name h nonzero,
      number_at-pack m 0 m.vcpu_num a refl,
      number_at-pack m 4 m.max_vcpu_num a refl,
      number_at-pack m 8 m.cpu_weight a refl,
      number_at-pack m 12 m.cpu_capacity a refl,
      number_at-pack m 16 m.memory_mb a refl,
      number_at-pack m 20 m.memory_threshold_mb a refl,
    )
