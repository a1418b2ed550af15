-- ===== src/Residency/Exact/Optimal.antt =====
-- The exact search against the set of all sub-sequences of the candidates
-- (packages/rust-core/src/platform/residency.rs, `cheapest_covering_set`).
use Prim.Native.Nat.{Ordering}
use free_llama.Base.{
  ℕ, zero, suc, ◌+◌, ◌-◌, ◌*◌, ◌/◌, ◌%◌, ◌^◌, ◌≤◌, ◌<◌, ◌≡◌, ◌≢◌, refl, sym, ap, subst, true, false,
  List, [], ◌∷◌, Option, none, some, length, arith, ◌==◌,
}
use free_llama.Residency.{Context, Candidate}
use free_llama.Residency.Victims.{
  Key, compare_keys, key_of, chosen_by, bytes_of, search_masks, cheapest_covering_set, set_of_best,
}
use free_llama.Residency.Exact.{Below, Honest, search-new, search-Honest}

-- A sub-sequence of the candidates.
pub data Subset : List Candidate → List Candidate → Type 0 where
  nil : Subset [] []
  keep : (x : Candidate) (ys xs : List Candidate) → Subset ys xs → Subset (x ∷ ys) (x ∷ xs)
  drop : (x : Candidate) (ys xs : List Candidate) → Subset ys xs → Subset ys (x ∷ xs)

abbrev mask_of : (ys xs : List Candidate) → Subset ys xs → ℕ
mask_of ys xs nil = 0
mask_of ys xs (keep x ys' xs' s) = 1 + 2 * mask_of ys' xs' s
mask_of ys xs (drop x ys' xs' s) = 2 * mask_of ys' xs' s

pow_suc : (n : ℕ) → 2 ^ suc n ≡ 2 ^ n + 2 ^ n
pow_suc n = ground arith

mask_of-lt : (ys xs : List Candidate) (s : Subset ys xs) → mask_of ys xs s < 2 ^ length xs
mask_of-lt ys xs nil = ground arith
mask_of-lt ys xs (keep x ys' xs' s) = omega (arith, mask_of-lt ys' xs' s, pow_suc (length xs'))
mask_of-lt ys xs (drop x ys' xs' s) = omega (arith, mask_of-lt ys' xs' s, pow_suc (length xs'))

chosen_by-mask_of :
    (ys xs : List Candidate) (s : Subset ys xs) → chosen_by (mask_of ys xs s) xs ≡ ys
unfolding chosen_by
chosen_by-mask_of ys xs nil = refl
chosen_by-mask_of ys xs (keep x ys' xs' s) =
    let m = mask_of ys' xs' s in
    let odd : ((1 + 2 * m) % 2 == 1) ≡ true = ground arith in
    let half : (1 + 2 * m) / 2 ≡ m = omega arith in
    rw (odd, half) (ap (λ zs. x ∷ zs) (chosen_by-mask_of ys' xs' s))
chosen_by-mask_of ys xs (drop x ys' xs' s) =
    let m = mask_of ys' xs' s in
    let even : (2 * m % 2 == 1) ≡ false = ground arith in
    let half : 2 * m / 2 ≡ m = omega arith in rw (even, half) (chosen_by-mask_of ys' xs' s)

chosen_by-zero : (xs : List Candidate) → chosen_by 0 xs ≡ []
unfolding chosen_by
chosen_by-zero [] = refl
chosen_by-zero (x ∷ xs) = let half : 0 / 2 ≡ 0 = omega arith in rw half (chosen_by-zero xs)

module _ (c : Context) (candidates : List Candidate) (shortfall : ℕ) where
  mask-positive : (i : ℕ) → 0 < shortfall → shortfall ≤ bytes_of 0 (chosen_by i candidates) → 1 ≤ i
  unfolding bytes_of
  mask-positive zero positive h =
      let none_freed = ap (λ ys. bytes_of 0 ys) (chosen_by-zero candidates) in
      absurd (omega (arith, none_freed))
  mask-positive (suc i) positive h = omega arith

  best_set :
      (o : Option (Key × ℕ)) (k : Key)
      → Honest c candidates shortfall o
      → Below o k
      → (shortfall ≤ bytes_of 0 (set_of_best candidates o))
        × (compare_keys (key_of c shortfall (set_of_best candidates o)) k ≢ Ordering.gt)
  best_set none k h b = absurd b
  best_set (some (found, mask)) k h b = (h.1, subst (λ x. compare_keys x k ≢ Ordering.gt) h.0 b)

  -- For a positive shortfall and every sub-sequence of the candidates whose bytes cover it, the set
  -- that the search returns covers it too and does not come behind that sub-sequence, by cost,
  -- then by the number of runners, then by the bytes beyond the shortfall.
  pub cheapest_covering_set-optimal :
      (set : List Candidate)
      → Subset set candidates
      → 0 < shortfall
      → shortfall ≤ bytes_of 0 set
      → (shortfall ≤ bytes_of 0 (cheapest_covering_set c candidates shortfall))
        × (compare_keys
              (key_of c shortfall (cheapest_covering_set c candidates shortfall))
              (key_of c shortfall set)
            ≢ Ordering.gt)
  unfolding cheapest_covering_set
  cheapest_covering_set-optimal set s positive covers =
      let i = mask_of set candidates s in
      let same = chosen_by-mask_of set candidates s in
      let masks = 2 ^ length candidates - 1 in
      let enough = subst (λ ys. shortfall ≤ bytes_of 0 ys) (sym same) covers in
      let first = mask-positive i positive enough in
      let found =
        search-new c candidates shortfall masks 1 i none first
          (omega (arith, mask_of-lt set candidates s)) enough in
      best_set (search_masks c candidates shortfall masks 1 none) (key_of c shortfall set)
        (search-Honest c candidates shortfall masks 1 none tt)
        (subst
          (λ ys. Below (search_masks c candidates shortfall masks 1 none) (key_of c shortfall ys))
          same found)
