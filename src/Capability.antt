-- ===== src/Capability.antt =====
-- What a model can do, and the coarse type that follows from it (packages/rust-core/src/capability.rs).
-- A set of capabilities (`BTreeSet<Capability>`) is its membership test.
use free_llama.Base.{
  ◌≡◌, arith, Bool, true, false, not, ◌&&◌, ◌||◌, String, same_text, if◌then◌else◌,
}

pub data Capability : Type 0 where
  completion tools vision audio thinking embedding other : Capability

unfoldable pub parse : String → Capability
parse value =
    if same_text value "completion"
    then completion
    else if same_text value "tools"
    then tools
    else if same_text value "vision"
    then vision
    else if same_text value "audio"
    then audio
    else if same_text value "thinking"
    then thinking
    else if same_text value "embedding"
    then embedding
    else other

abbrev pub CapabilitySet : Type 0
CapabilitySet = Capability → Bool

abbrev pub no_capabilities : CapabilitySet
no_capabilities c = false

abbrev pub same_capability : Capability → Capability → Bool
same_capability completion completion = true
same_capability tools tools = true
same_capability vision vision = true
same_capability audio audio = true
same_capability thinking thinking = true
same_capability embedding embedding = true
same_capability other other = true
same_capability a b = false

-- `BTreeSet::insert`.
abbrev pub add : Capability → CapabilitySet → CapabilitySet
add c s d = if same_capability c d then true else s d

abbrev implies : Bool → Bool → Bool
implies true b = b
implies false b = true

-- `BTreeSet::is_subset`.
unfoldable pub is_subset : CapabilitySet → CapabilitySet → Bool
is_subset s t =
    implies (s completion) (t completion)
    && implies (s tools) (t tools)
    && implies (s vision) (t vision)
    && implies (s audio) (t audio)
    && implies (s thinking) (t thinking)
    && implies (s embedding) (t embedding)
    && implies (s other) (t other)

pub data ModelType : Type 0 where
  generative multimodal embedding_only unknown : ModelType

unfoldable pub from_capabilities : CapabilitySet → ModelType
from_capabilities s =
    if s embedding && not (s completion)
    then embedding_only
    else if s completion && (s vision || s audio)
    then multimodal
    else if s completion
    then generative
    else unknown

implies-elim : (a b : Bool) → implies a b ≡ true → a ≡ true → b ≡ true
implies-elim true b h k = h
implies-elim false b h k = cc

-- A subset is one at every capability.
pub is_subset_sound :
    (s t : CapabilitySet) → is_subset s t ≡ true → (c : Capability) → s c ≡ true → t c ≡ true
unfolding is_subset
is_subset_sound s t h completion k = ground arith
is_subset_sound s t h tools k = ground arith
is_subset_sound s t h vision k = ground arith
is_subset_sound s t h audio k = ground arith
is_subset_sound s t h thinking k = ground arith
is_subset_sound s t h embedding k = ground arith
is_subset_sound s t h other k = ground arith

-- A set that contains an inserted capability.
pub add_keeps : (c d : Capability) (s : CapabilitySet) → s d ≡ true → add c s d ≡ true
add_keeps c d s h = ground arith
