-- ===== src/Pedestal/Weight.antt =====
-- pkg/pedestal/xen.go: ShareToWeight.
use micrun.Prelude.{ℕ, ◌/◌, ◌≤◌, ◌<◌, ◌≡◌, arith, ltb, leb, ◌==◌, if◌then◌else◌, u32}

abbrev pub default_cgroup_share : ℕ
default_cgroup_share = 1024

abbrev pub default_xen_weight : ℕ
default_xen_weight = 256

abbrev pub share_weight_ratio : ℕ
share_weight_ratio = default_cgroup_share / default_xen_weight

-- ShareToWeight
unfoldable pub share_to_weight : ℕ → ℕ
share_to_weight shares =
    if leb share_weight_ratio 0
    then default_xen_weight
    else if shares == 0
    then default_xen_weight
    else let weight = shares / share_weight_ratio in
      if weight == 0 then 1 else if ltb 65535 weight then 65535 else u32 weight

-- The weight lies in the range that Xen takes, and more shares never give a smaller weight, but for
-- the unset 0.
pub share_to_weight_bounds :
    (a b : ℕ)
    → 0 < a
    → a ≤ b
    → (1 ≤ share_to_weight a)
      × (share_to_weight a ≤ share_to_weight b)
      × (share_to_weight b ≤ 65535)
unfolding share_to_weight
share_to_weight_bounds a b h le = ground arith

-- Between the two ends of the range the weight is the share over 4.
pub share_to_weight_exact : (s : ℕ) → 4 ≤ s → s ≤ 262143 → share_to_weight s ≡ s / 4
unfolding share_to_weight
share_to_weight_exact s lo hi = ground arith
