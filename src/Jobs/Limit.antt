-- ===== src/Jobs/Limit.antt =====
-- The limit on what a job retains (platform/jobs.rs, `fits_retention_limit`): a writer that counts
-- the bytes of a value while serde_json writes it.
use free_llama.Base.{
  ℕ, ◌-◌, ◌*◌, ◌≡◌, Bool, true, false, List, [], ◌∷◌, Option, none, some, leb, ltb, if◌then◌else◌,
  sum, arith,
}

-- A JSON value, as the numbers of bytes that serde_json passes to the writer, call by call.
pub record Value : Type 0 where
  pub writes : List ℕ

abbrev pub max_result_bytes : ℕ
max_result_bytes = 2 * 1024 * 1024

-- `Limit::write`: the bytes that are left, or an error.
unfoldable pub write : ℕ → ℕ → Option ℕ
write left bytes = if ltb left bytes then none else some (left - bytes)

-- `serde_json::to_writer`, which stops at the first error.
unfoldable pub to_writer : ℕ → List ℕ → Bool
unfolding write
to_writer left [] = true
to_writer left (bytes ∷ rest) = elim (write left bytes) [
  | none ↦ false
  | some left' ↦ to_writer left' rest
]

unfoldable pub fits_retention_limit : Value → Bool
fits_retention_limit value = to_writer max_result_bytes value.writes

to_writer_lem : (left : ℕ) (writes : List ℕ) → to_writer left writes ≡ leb (sum writes) left
unfolding to_writer
to_writer_lem left [] = ground arith
to_writer_lem left (bytes ∷ rest) = ground (arith, to_writer_lem (left - bytes) rest)

-- A value is retained exactly where all the bytes that it is written as are two MiB at most, in
-- however many pieces serde_json writes it.
pub fits_retention_limit-sum :
    (value : Value) → fits_retention_limit value ≡ leb (sum value.writes) 2097152
unfolding fits_retention_limit
fits_retention_limit-sum value = to_writer_lem 2097152 value.writes
