-- ===== src/Footprint/Estimate.antt =====
-- The memory that a load needs, from measurements and the model's file
-- (packages/rust-core/src/platform/footprint.rs, `requirement`).
use free_llama.Base.{
  add_u64, ℕ, ◌-◌, ◌*◌, ◌/◌, ◌^◌, max, Bool, false, not, ◌&&◌, List, [], ◌∷◌, Option, none, some,
  String, same_text, ltb, leb, is_some_and, if◌then◌else◌,
}
use free_llama.Routing.{CatalogModel}
use free_llama.Footprint.{
  FootprintHistory, Observation, RuntimeHints, Sample, hints_for, is_empty_text, taken_under,
}

pub data Source : Type 0 where
  host_memory_not_applicable matching_resident_context : Source
  observed_same_digest_at_equal_or_larger_context observed_smaller_context_plus_kv : Source
  model_file_plus_kv_plus_graph model_file_plus_assumed_kv_plus_graph : Source

pub record Requirement : Type 0 where
  pub required_available_bytes : ℕ
  pub source : Source

abbrev pub checked : ℕ → Option ℕ
checked n = if ltb n (2 ^ 64) then some n else none

abbrev pub checked_mul : Option ℕ → ℕ → Option ℕ
checked_mul none b = none
checked_mul (some a) b = checked (a * b)

abbrev pub scaled : Option ℕ → RuntimeHints → Option ℕ
scaled none hints = none
scaled (some bytes) hints = some (bytes / 100 * hints.kv_cache_percent)

unfoldable pub kv_bytes : Option ℕ → ℕ → RuntimeHints → Option ℕ
kv_bytes per_token context hints =
    scaled (checked_mul (checked_mul per_token context) hints.num_parallel) hints

abbrev pub has_digest : Option String → String
has_digest none = ""
has_digest (some digest) = digest

abbrev pub is_comparable : String → String → RuntimeHints → Sample → Bool
is_comparable backend digest hints s =
    not (is_empty_text digest) && taken_under s backend digest hints

abbrev pub max_option : ℕ → Option ℕ → Option ℕ
max_option a none = some a
max_option a (some b) = some (max a b)

-- The largest size measured at no smaller a context.
unfoldable pub observed_at : String → String → RuntimeHints → ℕ → List Sample → Option ℕ
observed_at backend digest hints context [] = none
observed_at backend digest hints context (s ∷ rest) =
    let later = observed_at backend digest hints context rest in
    if is_comparable backend digest hints s && leb context s.context
    then max_option s.bytes later
    else later

abbrev pub larger_pair : ℕ × ℕ → Option (ℕ × ℕ) → Option (ℕ × ℕ)
larger_pair a none = some a
larger_pair (c, b) (some (c', b')) =
    if ltb c c' then some (c', b') else if ltb c' c then some (c, b) else some (c, max b b')

-- The largest smaller context, with its largest size.
unfoldable pub smaller_at : String → String → RuntimeHints → ℕ → List Sample → Option (ℕ × ℕ)
smaller_at backend digest hints context [] = none
smaller_at backend digest hints context (s ∷ rest) =
    let later = smaller_at backend digest hints context rest in
    if is_comparable backend digest hints s && ltb s.context context
    then larger_pair (s.context, s.bytes) later
    else later

abbrev pub add_extra : ℕ → Option ℕ → Option ℕ
add_extra bytes none = none
add_extra bytes (some extra) = some (add_u64 bytes extra)

abbrev pub extend : Option ℕ → ℕ → RuntimeHints → Option (ℕ × ℕ) → Option ℕ
extend per_token context hints none = none
extend per_token context hints (some (smaller, bytes)) =
    add_extra bytes (kv_bytes per_token (context - smaller) hints)

abbrev pub assumed : Option ℕ → ℕ → ℕ
assumed none d = d
assumed (some a) d = a

abbrev pub file_estimate : CatalogModel → Option ℕ → ℕ
file_estimate m kv = add_u64 (add_u64 m.size (assumed kv (m.size / 100 * 25))) (m.size / 100 * 10)

abbrev pub estimate_from : CatalogModel → Option ℕ → Option ℕ → Option ℕ → Requirement
estimate_from m kv (some observed) measured = record {
  required_available_bytes = observed;
  source = Source.observed_same_digest_at_equal_or_larger_context;
}
estimate_from m kv none (some bytes) = record {
  required_available_bytes = bytes;
  source = Source.observed_smaller_context_plus_kv;
}
estimate_from m (some kv) none none = record {
  required_available_bytes = file_estimate m (some kv);
  source = Source.model_file_plus_kv_plus_graph;
}
estimate_from m none none none = record {
  required_available_bytes = file_estimate m none;
  source = Source.model_file_plus_assumed_kv_plus_graph;
}

-- What a resident entry says of the model: its context and digest.
abbrev pub is_warm : CatalogModel → ℕ → Option Observation → Bool
is_warm m context none = false
is_warm m context (some entry) =
    is_some_and entry.context_length (λ loaded. leb context loaded)
    && is_some_and m.digest (λ digest. is_some_and entry.digest (λ d. same_text d digest))

unfoldable pub estimate : FootprintHistory → String → CatalogModel → ℕ → Requirement
estimate h backend m context =
    let hints = hints_for h backend in
    let digest = has_digest m.digest in
    estimate_from m (kv_bytes m.kv_cache_bytes_per_token_f16 context hints)
      (observed_at backend digest hints context h.samples)
      (extend m.kv_cache_bytes_per_token_f16 context hints
        (smaller_at backend digest hints context h.samples))

unfoldable pub requirement :
    FootprintHistory → String → CatalogModel → ℕ → Option Observation → Bool → Requirement
requirement h backend m context current host_memory_relevant =
    if not host_memory_relevant
    then record { required_available_bytes = 0; source = Source.host_memory_not_applicable }
    else if is_warm m context current
    then record { required_available_bytes = 0; source = Source.matching_resident_context }
    else estimate h backend m context
