-- ===== src/Runtime/RetryAfter/Estimate.antt =====
-- The range of the estimate, and its dependence on the queue, the limit and the service time.
use native.Mathlib.Nat.{le-div_iff_mul-le, div-mul-le_self, lt-div-mul-add}
use free_llama.Base.{
  ℕ, ◌+◌, ◌*◌, ◌/◌, ◌≤◌, ◌<◌, ◌≡◌, subst, min, max, Option, some, arith, u64_max, saturating_add,
  saturating_mul,
}
use free_llama.Runtime.RetryAfter.{to_seconds, retry_after_seconds}

div_mono : (a b m n : ℕ) → a ≤ b → 0 < n → n ≤ m → a / m ≤ b / n
div_mono a b m n h p k = (le-div_iff_mul-le p).1 (grind (arith, div-mul-le_self a m))

saturating_mono :
    (d d' p p' : ℕ)
    → d ≤ d'
    → p ≤ p'
    → saturating_mul u64_max (saturating_add u64_max d 1) p
      ≤ saturating_mul u64_max (saturating_add u64_max d' 1) p'
unfolding saturating_mul saturating_add
saturating_mono d d' p p' h k =
    product (min (d + 1) u64_max) (min (d' + 1) u64_max) p p' (omega arith) k
  where
    product : (a b p p' : ℕ) → a ≤ b → p ≤ p' → min (a * p) u64_max ≤ min (b * p') u64_max
    product a b p p' h k = grind arith

to_seconds_mono : (a b : ℕ) → a ≤ b → to_seconds a ≤ to_seconds b
unfolding to_seconds
to_seconds_mono a b h = ground arith

-- The estimate lies between 1 and 120 seconds.
pub retry_after_seconds_bounds :
    (queue_depth limit : ℕ) (average : Option ℕ)
    → (1 ≤ retry_after_seconds queue_depth limit average)
      × (retry_after_seconds queue_depth limit average ≤ 120)
unfolding retry_after_seconds
retry_after_seconds_bounds queue_depth limit average = ground arith

-- A longer queue, a longer service time or a lower limit never shortens it.
pub retry_after_seconds_mono :
    (depth depth' limit limit' average average' : ℕ)
    → depth ≤ depth'
    → limit' ≤ limit
    → average ≤ average'
    → retry_after_seconds depth limit (some average)
      ≤ retry_after_seconds depth' limit' (some average')
unfolding retry_after_seconds
retry_after_seconds_mono depth depth' limit limit' average average' h k l = to_seconds_mono _ _ (
    div_mono _ _ (max limit 1) (max limit' 1)
      (saturating_mono depth depth' (max average 250) (max average' 250) h (omega arith))
      (omega arith) (omega arith))

to_seconds_covers : (q : ℕ) → to_seconds q < 120 → q ≤ to_seconds q * 1000
unfolding to_seconds
to_seconds_covers q h = ground arith

exact_product :
    (depth per_task : ℕ)
    → 0 < per_task
    → (depth + 1) * per_task ≤ u64_max
    → saturating_mul u64_max (saturating_add u64_max depth 1) per_task ≡ (depth + 1) * per_task
unfolding saturating_mul saturating_add
exact_product depth per_task pos h =
    let fits : depth + 1 ≤ u64_max = grind arith in
    let same : min (depth + 1) u64_max ≡ depth + 1 = omega arith in rw same (omega arith)

covered : (x q lanes r : ℕ) → x < q * lanes + lanes → q ≤ r → x < (r + 1) * lanes
covered x q lanes r h k = grind arith

-- Below its cap the estimate covers the queue ahead: its seconds, over all lanes, last at least as
-- long as the tasks that wait and the new one, each at the average service time.
pub retry_after_seconds_covers :
    (depth limit average : ℕ)
    → (depth + 1) * max average 250 ≤ u64_max
    → retry_after_seconds depth limit (some average) < 120
    → (depth + 1) * max average 250
      < (retry_after_seconds depth limit (some average) * 1000 + 1) * max limit 1
unfolding retry_after_seconds
retry_after_seconds_covers depth limit average h k =
    let q =
      saturating_mul u64_max (saturating_add u64_max depth 1) (max average 250) / max limit 1 in
    covered ((depth + 1) * max average 250) q (max limit 1) (to_seconds q * 1000)
      (subst (λ x. x < q * max limit 1 + max limit 1)
        (exact_product depth (max average 250) (omega arith) h) (lt-div-mul-add (omega arith)))
      (to_seconds_covers q k)
