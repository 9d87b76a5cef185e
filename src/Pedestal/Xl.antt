-- ===== src/Pedestal/Xl.antt =====
-- pkg/pedestal/xen.go: the xl commands that change a domain. `xl` runs the command with its arguments
-- and gives whether it succeeded.
use micrun.Prelude.{
  suc, List, [], ◌∷◌, ◌++◌, Bool, true, false, Bytes, codes, ltb, if◌then◌else◌, ℤ, pos, negsuc,
}
use micrun.Text.{itoa}

-- strconv.Itoa of an int.
abbrev pub itoa_int : ℤ → Bytes
itoa_int (pos n) = itoa n
itoa_int (negsuc n) = b'-' ∷ itoa (suc n)

abbrev positive : ℤ → Bool
positive (pos n) = ltb 0 n
positive (negsuc _) = false

abbrev negative : ℤ → Bool
negative (pos _) = false
negative (negsuc _) = true

module _ {W : Type 0} (xl : List Bytes → W → W × Bool) where
  -- XlMemSet
  unfoldable pub xl_mem_set : Bytes → ℤ → W → W × Bool
  xl_mem_set domain mb = xl (codes "mem-set" ∷ domain ∷ itoa_int mb ∷ [])

  -- XlMemMax
  unfoldable pub xl_mem_max : Bytes → ℤ → W → W × Bool
  xl_mem_max domain mb = xl (codes "mem-max" ∷ domain ∷ itoa_int mb ∷ [])

  -- XlVcpuSet
  unfoldable pub xl_vcpu_set : Bytes → ℤ → W → W × Bool
  xl_vcpu_set domain count = xl (codes "vcpu-set" ∷ domain ∷ itoa_int count ∷ [])

  -- XlSchedCredit2
  unfoldable pub xl_sched_credit2 : Bytes → ℤ → ℤ → W → W × Bool
  xl_sched_credit2 domain weight cap w =
      if negative weight
      then (w, false)
      else xl
          (codes "sched-credit2"
            ∷ codes "-d"
            ∷ domain
            ∷ ((if positive weight then codes "-w" ∷ itoa_int weight ∷ [] else [])
                ++ (if positive cap then codes "-c" ∷ itoa_int cap ∷ [] else [])))
          w

  -- Pause, Resume
  unfoldable pub xl_pause : Bytes → W → W × Bool
  xl_pause id = xl (codes "pause" ∷ id ∷ [])

  unfoldable pub xl_resume : Bytes → W → W × Bool
  xl_resume id = xl (codes "unpause" ∷ id ∷ [])

  -- PinVCPU
  unfoldable pub pin_vcpu : Bytes → Bytes → W → W × Bool
  pin_vcpu client_id cpus = xl (codes "vcpu-pin" ∷ client_id ∷ codes "all" ∷ cpus ∷ [])
