-- ===== src/Residency.antt =====
-- Which resident models to unload when a load needs room (packages/rust-core/src/platform/residency.rs,
-- `plan`). The `f64` arithmetic is a parameter: the cost of a candidate, the sum of costs and the
-- cost per byte are bit patterns, compared by `total_cmp`; a year is what the text begins with.
pub mod Victims
pub mod Exact
pub mod Safety
pub mod Covers
use Prim.Native.Nat.{Ordering, compare}
use Prim.Native.String.{compare as compare_text}
use text.Mathlib.Text.{starts_with}
use free_llama.Base.{
  ℕ, zero, suc, ◌+◌, ◌-◌, ◌*◌, ◌/◌, ◌%◌, ◌^◌, min, Bool, true, false, not, ◌&&◌, List, [], ◌∷◌,
  ◌++◌, Option, none, some, String, same_text, ltb, leb, ◌==◌, length, is_some_and, if◌then◌else◌,
  then_with,
}
use free_llama.Routing.Compare.{total_cmp}

-- What `usage` answers for a model.
pub record Usage : Type 0 where
  pub active : ℕ
  pub recent_uses : ℕ
  pub load_ms : Option ℕ

-- An entry of `/api/ps`.
pub record PsEntry : Type 0 where
  pub name : Option String
  pub expires_at : String
  pub size : ℕ
  pub size_vram : ℕ

pub data Freed : Type 0 where
  total vram host_spill : Freed

pub record Candidate : Type 0 where
  pub name : String
  pub bytes : ℕ
  pub size : ℕ
  pub usage : Usage
  pub expires_at : String

pub record PlanInputs : Type 0 where
  pub keep : String
  pub pinned : String → Bool
  pub freed : Freed
  pub shortfall : ℕ

pub record Plan : Type 0 where
  pub victims : List Candidate
  pub skipped : List (String × String)
  pub shortfall : ℕ
  pub covers_shortfall : Bool

-- The parameters: the clock's year, `parse::<u64>` of the first four bytes of a text, and `f64`.
pub record Context : Type 0 where
  pub now_year : ℕ
  pub year_of : String → Option ℕ
  pub usage : String → Usage
  pub cost : Candidate → ℕ
  pub add : ℕ → ℕ → ℕ
  pub cost_per_byte : Candidate → ℕ

unfoldable pub pinned_expiry : Context → String → Bool
pinned_expiry c expires_at = is_some_and (c.year_of expires_at) (λ year. ltb (c.now_year + 1) year)

-- Why a runner is left alone.
unfoldable pub reason_kept : Context → PlanInputs → String → String → Option String
reason_kept c inputs name expires_at =
    if same_text name inputs.keep
    then some "target"
    else if inputs.pinned name
    then some "pinned"
    else if pinned_expiry c expires_at
    then some "keep_alive_forever"
    else if starts_with expires_at "0001-"
    then some "loading"
    else if ltb 0 (c.usage name).active
    then some "busy"
    else none

abbrev pub bytes_freed : Freed → PsEntry → ℕ
bytes_freed total entry = entry.size
bytes_freed vram entry = entry.size_vram
bytes_freed host_spill entry = entry.size - entry.size_vram

-- The candidates and the runners that are skipped, with the reason.
pub record Sorted : Type 0 where
  pub candidates : List Candidate
  pub skipped : List (String × String)

abbrev pub skip : String → String → Sorted → Sorted
skip name reason s = record s { skipped = (name, reason) ∷ s.skipped }

abbrev pub sort_entry : Context → PlanInputs → PsEntry → String → Option String → Sorted → Sorted
sort_entry c inputs entry name (some reason) rest =
    if same_text name inputs.keep then rest else skip name reason rest
sort_entry c inputs entry name none rest =
    let bytes = bytes_freed inputs.freed entry in
    if bytes == 0 then skip name "frees_nothing_needed" rest else record rest {
      candidates =
          record {
            name = name;
            bytes = bytes;
            size = entry.size;
            usage = c.usage name;
            expires_at = entry.expires_at;
          }
          ∷ rest.candidates;
    }

abbrev pub sort_named : Context → PlanInputs → PsEntry → Option String → Sorted → Sorted
sort_named c inputs entry none rest = rest
sort_named c inputs entry (some name) rest =
    sort_entry c inputs entry name (reason_kept c inputs name entry.expires_at) rest

unfoldable pub sort_entries : Context → PlanInputs → List PsEntry → Sorted
sort_entries c inputs [] = record { candidates = []; skipped = [] }
sort_entries c inputs (entry ∷ entries) =
    sort_named c inputs entry entry.name (sort_entries c inputs entries)
