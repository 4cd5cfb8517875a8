-- ===== src/MediaQuota/LowWater.antt =====
-- The low-water mark of the quota.
use whatsapp_mcp.Prelude.{ℕ, zero, suc, ◌+◌, ◌*◌, ◌/◌, ◌%◌, ◌≤◌, ◌<◌, ◌≡◌, ap, ◌∙◌, arith}
use whatsapp_mcp.MediaQuota.{low_water, two_64}

split_product : (d r t : ℕ) → (100 * d + r) * t ≡ 100 * (d * t) + r * t
split_product d r t = omega arith

pub times_most : (d t : ℕ) → t ≤ 99 → d * t ≤ d * 99
times_most zero t h = omega arith
times_most (suc d) t h = omega (arith, h, times_most d t h)

-- For a quota of 64 bits and a target of 1 to 99 percent, the low-water mark is that part of the
-- quota, rounded down: no step of the calculation wraps around.
pub low_water-part :
    (quota target : ℕ)
    → quota < two_64
    → 1 ≤ target
    → target ≤ 99
    → low_water quota target ≡ quota * target / 100
unfolding low_water
low_water-part quota target b l h =
    let d = quota / 100 in
    let r = quota % 100 in
    let whole : quota ≡ 100 * d + r = omega arith in
    let product : quota * target ≡ 100 * (d * target) + r * target =
      ap (λ x. x * target) whole ∙ split_product d r target in
    let most : d * target ≤ d * 99 = times_most d target h in
    let rest : r * target ≤ r * 99 = times_most r target h in
    let dw : d * target % two_64 ≡ d * target = omega arith in
    let rw' : r * target % two_64 ≡ r * target = omega arith in
    let sum : (d * target + r * target / 100) % two_64 ≡ d * target + r * target / 100 =
      omega arith in
    let value : quota * target / 100 ≡ d * target + r * target / 100 = omega arith in
    ground (arith, dw, rw', sum, value)
