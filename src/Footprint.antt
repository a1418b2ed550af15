-- ===== src/Footprint.antt =====
-- Measured runner sizes and the estimates from them (packages/rust-core/src/platform/footprint.rs).
pub mod Estimate
pub mod Measured
pub mod Limits
pub mod Saves
use free_llama.Base.{
  ℕ, zero, suc, ◌+◌, ◌-◌, ◌*◌, ◌/◌, ◌^◌, min, max, Bool, true, false, not, ◌&&◌, List, [], ◌∷◌,
  ◌++◌, retain, find, drop, length, Option, none, some, String, same_text, ltb, leb, ◌==◌, is_some,
  is_some_and, if◌then◌else◌, lookup,
}
use free_llama.Routing.{CatalogModel}

pub record RuntimeHints : Type 0 where
  pub num_parallel : ℕ
  pub kv_cache_percent : ℕ

abbrev pub default_hints : RuntimeHints
default_hints = record { num_parallel = 1; kv_cache_percent = 100 }

pub record Sample : Type 0 where
  pub backend : String
  pub digest : String
  pub context : ℕ
  pub bytes : ℕ
  pub num_parallel : ℕ
  pub kv_cache_percent : ℕ

unfoldable pub taken_under : Sample → String → String → RuntimeHints → Bool
taken_under s backend digest hints =
    same_text s.backend backend
    && same_text s.digest digest
    && s.num_parallel == hints.num_parallel
    && s.kv_cache_percent == hints.kv_cache_percent

-- The samples, newest last, and the settings that scale an estimate.
pub record FootprintHistory : Type 0 where
  pub samples : List Sample
  pub hints : RuntimeHints
  pub backend_hints : List (String × RuntimeHints)

abbrev pub history_limit : ℕ
history_limit = 64

-- What is read of an observation: whether it is verified, and its fields where they have the type.
pub record Observation : Type 0 where
  pub verified : Bool
  pub digest : Option String
  pub context_length : Option ℕ
  pub size : Option ℕ

abbrev pub hints_or : Option RuntimeHints → RuntimeHints → RuntimeHints
hints_or none d = d
hints_or (some h) d = h

unfoldable pub hints_for : FootprintHistory → String → RuntimeHints
hints_for h backend = hints_or (lookup backend h.backend_hints) h.hints

abbrev pub is_same : String → String → RuntimeHints → ℕ → Sample → Bool
is_same backend digest hints context s = taken_under s backend digest hints && s.context == context

abbrev pub bytes_or_zero : Option Sample → ℕ
bytes_or_zero none = 0
bytes_or_zero (some s) = s.bytes

-- `while len > HISTORY_LIMIT { pop_front }`.
abbrev pub drop_oldest : List Sample → List Sample
drop_oldest samples = drop (length samples - history_limit) samples

-- The measurement is stored where it is larger than what is known.
unfoldable pub store : FootprintHistory → String → String → ℕ → ℕ → FootprintHistory × Bool
store h backend digest context bytes =
    let hints = hints_for h backend in
    let same = is_same backend digest hints context in
    let previous = bytes_or_zero (find same h.samples) in
    if leb bytes previous then (h, false) else (
      record h {
        samples = drop_oldest (
            retain (λ s. not (same s)) h.samples
            ++ (record {
              backend = backend;
              digest = digest;
              context = context;
              bytes = max bytes previous;
              num_parallel = hints.num_parallel;
              kv_cache_percent = hints.kv_cache_percent;
            }
                ∷ []));
      },
      true,
    )

abbrev pub is_empty_text : String → Bool
is_empty_text digest = same_text digest ""

abbrev pub store_sized :
    FootprintHistory → String → String → Option ℕ → Option ℕ → FootprintHistory × Bool
store_sized h backend digest none size = (h, false)
store_sized h backend digest (some context) none = (h, false)
store_sized h backend digest (some context) (some bytes) =
    if context == 0
    then (h, false)
    else if bytes == 0
    then (h, false)
    else store h backend digest context bytes

abbrev pub record_digest :
    FootprintHistory → String → Option String → Observation → FootprintHistory × Bool
record_digest h backend none o = (h, false)
record_digest h backend (some digest) o =
    if is_empty_text digest
    then (h, false)
    else if not o.verified
    then (h, false)
    else if not (is_some_and o.digest (λ d. same_text d digest))
    then (h, false)
    else store_sized h backend digest o.context_length o.size

-- `FootprintHistory::record`: the history, and whether it changed.
unfoldable pub record_observation :
    FootprintHistory → String → Option String → Observation → FootprintHistory × Bool
record_observation h backend digest o = record_digest h backend digest o

-- Every runner that Ollama reports.
unfoldable pub observe_resident :
    FootprintHistory → String → List Observation → FootprintHistory × Bool
observe_resident h backend [] = (h, false)
observe_resident h backend (o ∷ entries) =
    let (h₁, changed) = record_observation h backend o.digest (record o { verified = true }) in
    let (h₂, later) = observe_resident h₁ backend entries in (h₂, if changed then true else later)
