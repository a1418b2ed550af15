-- ===== src/Resources/Reserve.antt =====
-- The reserves of a policy that `validate` accepts (platform/resources/mod.rs).
use free_llama.Base.{ℕ, ◌*◌, ◌/◌, ◌≤◌, ◌<◌, ◌≡◌, max, Bool, true, false, Option, none, some, arith}
use free_llama.Resources.{Floats, ResourcePolicy, validate, reserve, reserve_for, minimum_of, share}

-- What the governor relies on in a valid policy.
pub record Valid (floats : Floats) (policy : ResourcePolicy floats) : Type 0 where
  pub percents : policy.hold_available_percent < policy.resume_available_percent
  pub at_most_all : policy.resume_available_percent ≤ 100
  pub minima : policy.hold_available_min_bytes < policy.resume_available_min_bytes
  pub loads : floats.at_most policy.hold_load_per_cpu policy.resume_load_per_cpu ≡ false
  pub samples : 0 < policy.recovery_samples

pub validate-Valid :
    (floats : Floats) (policy : ResourcePolicy floats)
    → validate floats policy ≡ true
    → Valid floats policy
unfolding validate
validate-Valid floats policy e = ground arith

mul_mono : (a p q : ℕ) → p ≤ q → a * p ≤ a * q
mul_mono a p q h = grind arith

share_mono : (total : Option ℕ) (p q m n : ℕ) → p ≤ q → m ≤ n → share total p m ≤ share total q n
share_mono none p q m n h k = k
share_mono (some bytes) p q m n h k = omega (arith, mul_mono (bytes / 100) p q h)

share-ge : (total : Option ℕ) (percent minimum : ℕ) → minimum ≤ share total percent minimum
share-ge none percent minimum = omega arith
share-ge (some bytes) percent minimum = omega arith

reserve-ge :
    (floats : Floats) (policy : ResourcePolicy floats) (total : Option ℕ) (recovering : Bool)
    → minimum_of floats policy recovering ≤ reserve floats policy total recovering
unfolding reserve
reserve-ge floats policy total recovering = share-ge total _ _

-- A request that was held before has to leave at least as much free.
pub reserve_mono :
    (floats : Floats) (policy : ResourcePolicy floats) (total : Option ℕ)
    → Valid floats policy
    → reserve floats policy total false ≤ reserve floats policy total true
unfolding reserve
reserve_mono floats policy total v =
    share_mono total _ _ _ _ (omega (arith, v.percents)) (omega (arith, v.minima))

-- The reserve that a new load must leave free is at least the policy's minimum and at most the
-- larger of that minimum and the load itself, and a request that was held before has to leave at
-- least as much.
pub reserve_for_bounds :
    (floats : Floats) (policy : ResourcePolicy floats) (total : Option ℕ) (recovering : Bool)
    (bytes : ℕ)
    → validate floats policy ≡ true
    → (minimum_of floats policy recovering ≤ reserve_for floats policy total recovering bytes)
      × (reserve_for floats policy total recovering bytes
          ≤ max bytes (minimum_of floats policy recovering))
      × (reserve_for floats policy total false bytes ≤ reserve_for floats policy total true bytes)
unfolding reserve_for
reserve_for_bounds floats policy total recovering bytes e =
    let v = validate-Valid floats policy e in
    let mono = reserve_mono floats policy total v in
    let low = reserve-ge floats policy total recovering in
    (ground arith, omega arith, omega (arith, v.minima))
