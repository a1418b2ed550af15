-- ===== src/Jobs/Registry/Room.antt =====
-- How the registry makes room (platform/jobs.rs, `make_room`): which job it evicts, and when it
-- refuses.
use free_llama.Base.{
  All-retain, subst, some-injective, inl, inr, ◌⊎◌, ◌≢◌, ℕ, ◌≤◌, ◌<◌, ◌≡◌, refl, sym, ◌∙◌, ap, Bool,
  true, false, not, List, [], ◌∷◌, Option, none, some, Option-cases, Bool-cases, is_none_or, leb,
  ◌==◌, ==_iff, length, retain, any, All, All-imp, arith, String, length-retain-lt,
  length-retain-le,
}
use free_llama.Jobs.Limit.{Value}
use free_llama.Jobs.Registry.{
  Store, is_retained, prune, finished_jobs, add_finished, min_by_time, earlier, remove_entry, evict,
  make_space, make_room, task_jobs_full,
}

abbrev pub Unfinished : Store → ℕ → Type 0
Unfinished jobs id = (jobs id).finished ≡ none

-- A job that finished at `at` or later, or has not finished.
abbrev pub NotBefore : Store → ℕ → ℕ → Type 0
NotBefore jobs at id = is_none_or (jobs id).finished (λ t. leb at t) ≡ true

record Oldest (jobs : Store) (entries : List ℕ) (at id : ℕ) : Type 0 where
  found : any (λ i. i == id) entries ≡ true
  time : (jobs id).finished ≡ some at
  least : All (NotBefore jobs at) entries

earlier-ne-none : (first : ℕ × ℕ) (o : Option (ℕ × ℕ)) → earlier first o ≢ none
earlier-ne-none first none = ground arith
earlier-ne-none first (some later) = ground arith

add_none :
    (id : ℕ) (time : Option ℕ) (rest : List (ℕ × ℕ))
    → min_by_time (add_finished id time rest) ≡ none
    → (time ≡ none) × (min_by_time rest ≡ none)
unfolding min_by_time
add_none id none rest e = (refl, e)
add_none id (some at) rest e = absurd (earlier-ne-none (at, id) (min_by_time rest) e)

min_by_time-none :
    (jobs : Store) (entries : List ℕ)
    → min_by_time (finished_jobs jobs entries) ≡ none
    → All (Unfinished jobs) entries
unfolding finished_jobs
min_by_time-none jobs [] e = tt
min_by_time-none jobs (id ∷ entries) e =
    let (here, there) = add_none id (jobs id).finished (finished_jobs jobs entries) e in
    (here, min_by_time-none jobs entries there)

-- The least of a list with one more job: the new one, or the least of the rest.
earlier-some :
    (first : ℕ × ℕ) (o : Option (ℕ × ℕ)) (at id : ℕ)
    → earlier first o ≡ some (at, id)
    → ((first ≡ (at, id)) × (is_none_or o (λ later. leb at later.0) ≡ true))
      ⊎ ((o ≡ some (at, id)) × (leb at first.0 ≡ true))
earlier-some first none at id e = inl (some-injective _ _ e, refl)
earlier-some (t, i) (some (u, j)) at id e = ground arith

Unfinished-NotBefore : (jobs : Store) (at id : ℕ) → Unfinished jobs id → NotBefore jobs at id
Unfinished-NotBefore jobs at id f = ground arith

le-NotBefore :
    (time : Option ℕ) (a b : ℕ)
    → leb a b ≡ true
    → is_none_or time (λ t. leb b t) ≡ true
    → is_none_or time (λ t. leb a t) ≡ true
le-NotBefore none a b h k = refl
le-NotBefore (some t) a b h k = ground arith

add_some :
    (id : ℕ) (time : Option ℕ) (rest : List (ℕ × ℕ)) (at i : ℕ)
    → min_by_time (add_finished id time rest) ≡ some (at, i)
    → ((time ≡ some at) × (id ≡ i) × (is_none_or (min_by_time rest) (λ l. leb at l.0) ≡ true))
      ⊎ ((min_by_time rest ≡ some (at, i)) × (is_none_or time (λ t. leb at t) ≡ true))
unfolding min_by_time
add_some id none rest at i e = inr (e, refl)
add_some id (some t) rest at i e = elim (earlier-some (t, id) (min_by_time rest) at i e) [
  | inl (h, k) ↦ inl (ap (λ (p : ℕ × ℕ). some p.0) h, ap (λ (p : ℕ × ℕ). p.1) h, k)
  | inr h ↦ inr h
]

-- Jobs that are not before the oldest one are not before anything earlier.
least-All :
    (jobs : Store) (at : ℕ) (entries : List ℕ)
    → ((b i : ℕ) → min_by_time (finished_jobs jobs entries) ≡ some (b, i) → Oldest jobs entries b i)
    → is_none_or (min_by_time (finished_jobs jobs entries)) (λ l. leb at l.0) ≡ true
    → All (NotBefore jobs at) entries
least-All jobs at entries rest h = elim (Option-cases (min_by_time (finished_jobs jobs entries))) [
  | inl e ↦ All-imp _ _ (Unfinished-NotBefore jobs at) entries (min_by_time-none jobs entries e)
  | inr ((b, i), e) ↦
      let later : leb at b ≡ true =
        sym (ap (λ o. is_none_or o (λ (l : ℕ × ℕ). leb at l.0)) e) ∙ h in
      All-imp _ _ (λ id. le-NotBefore (jobs id).finished at b later) entries (rest b i e).least
]

min_by_time-Oldest :
    (jobs : Store) (entries : List ℕ) (at id : ℕ)
    → min_by_time (finished_jobs jobs entries) ≡ some (at, id)
    → Oldest jobs entries at id
unfolding finished_jobs min_by_time
min_by_time-Oldest jobs [] at id e = cc
min_by_time-Oldest jobs (first ∷ entries) at id e =
    let rest = min_by_time-Oldest jobs entries in
    elim (add_some first (jobs first).finished (finished_jobs jobs entries) at id e) [
      | inl (t, same, h) ↦ record {
        found = ground (arith, ==_iff first id);
        time = rw (sym same) t;
        least = (ground arith, least-All jobs at entries rest h);
      }
      | inr (h, k) ↦
          let older = rest at id h in
          record {
            found = ground (arith, older.found);
            time = older.time;
            least = (k, older.least);
          }
    ]

pub any-retain :
    (p : ℕ → Bool) (id : ℕ) (entries : List ℕ)
    → p id ≡ true
    → any (λ i. i == id) (retain p entries) ≡ any (λ i. i == id) entries
any-retain p id [] h = refl
any-retain p id (i ∷ entries) h = elim (Bool-cases (i == id)) [
  | inl e ↦ let same : p i ≡ true = ap p ((==_iff i id).0 e) ∙ h in ground arith
  | inr e ↦ let rest = any-retain p id entries h in ground arith
]

retain-drops :
    (p : ℕ → Bool) (id : ℕ) (entries : List ℕ)
    → any (λ i. i == id) entries ≡ true
    → any (λ i. i == id) (retain p entries) ≡ false
    → p id ≡ false
retain-drops p id entries h k = elim (Bool-cases (p id)) [
  | inl e ↦ let same = any-retain p id entries e in ground arith
  | inr e ↦ e
]

make_space-cases :
    (jobs : Store) (entries : List ℕ)
    → ((make_space jobs entries ≡ entries)
        × ((length entries < 64) ⊎ All (Unfinished jobs) entries))
      ⊎ ((at : ℕ) × (id : ℕ) × Oldest jobs entries at id
          × (64 ≤ length entries)
          × (make_space jobs entries ≡ remove_entry id entries))
unfolding make_space evict
make_space-cases jobs entries = elim (Bool-cases (leb 64 (length entries))) [
  | inl full ↦ elim (Option-cases (min_by_time (finished_jobs jobs entries))) [
    | inl e ↦ inl (rw (full, e) refl, inr (min_by_time-none jobs entries e))
    | inr ((at, id), e) ↦
        inr (at, id, min_by_time-Oldest jobs entries at id e, ground arith, rw (full, e) refl)
  ]
  | inr room ↦ inl (rw room refl, inl (ground arith))
]

other_job :
    (jobs : Store) (at old id : ℕ)
    → (jobs old).finished ≡ some at
    → (jobs id).finished ≡ none
    → not (id == old) ≡ true
other_job jobs at old id f g = elim (Bool-cases (id == old)) [
  | inl e ↦ let same = ap (λ i. (jobs i).finished) ((==_iff id old).0 e) in cc
  | inr e ↦ ground arith
]

-- An unfinished job is never taken from the registry to make room, whatever its age.
make_room-unfinished :
    (error_body : ℕ → String → Value) (jobs : Store) (now id : ℕ) (entries : List ℕ)
    → (jobs id).finished ≡ none
    → any (λ i. i == id) (make_room error_body jobs now entries).0 ≡ any (λ i. i == id) entries
unfolding make_room prune
make_room-unfinished error_body jobs now id entries f =
    let kept : is_retained jobs now id ≡ true = rw (f, is_none_or) refl in
    let pruned = any-retain (is_retained jobs now) id entries kept in
    elim (make_space-cases jobs (prune jobs now entries)) [
      | inl (e, _) ↦ ap (any (λ i. i == id)) e ∙ pruned
      | inr (at, old, o, _, e) ↦
          ap (any (λ i. i == id)) e
          ∙ any-retain (λ i. not (i == old)) id _ (other_job jobs at old id o.time f)
          ∙ pruned
    ]

-- A job that is dropped to make room has expired, or finished no later than every job that stays.
make_room-oldest :
    (error_body : ℕ → String → Value) (jobs : Store) (now id : ℕ) (entries : List ℕ)
    → any (λ i. i == id) entries ≡ true
    → any (λ i. i == id) (make_room error_body jobs now entries).0 ≡ false
    → (is_retained jobs now id ≡ false)
      ⊎ ((at : ℕ) × ((jobs id).finished ≡ some at)
          × All (NotBefore jobs at) (make_room error_body jobs now entries).0)
unfolding make_room prune
make_room-oldest error_body jobs now id entries h gone =
    elim (Bool-cases (is_retained jobs now id)) [
      | inr e ↦ inl e
      | inl kept ↦
          let pruned = any-retain (is_retained jobs now) id entries kept ∙ h in
          elim (make_space-cases jobs (prune jobs now entries)) [
            | inl (e, _) ↦ let kept' = ap (any (λ i. i == id)) (sym e) ∙ gone in cc
            | inr (at, old, o, _, e) ↦
                let out : not (id == old) ≡ false =
                  retain-drops (λ i. not (i == old)) id _ pruned
                    (ap (any (λ i. i == id)) (sym e) ∙ gone) in
                let same : id ≡ old = ground (arith, ==_iff id old) in
                inr (
                  at,
                  ap (λ i. (jobs i).finished) same ∙ o.time,
                  subst (All (NotBefore jobs at)) (sym e) (All-retain _ _ _ o.least),
                )
          ]
    ]

-- A registry of at most 64 jobs stays so. It refuses a job only where it holds 64 that have not
-- finished, and elsewhere it has a place left.
pub make_room-full :
    (error_body : ℕ → String → Value) (jobs : Store) (now : ℕ) (entries : List ℕ)
    → length entries ≤ 64
    → let (entries', refusal) = make_room error_body jobs now entries in
      ((refusal ≡ none) × (length entries' < 64))
      ⊎ ((refusal ≡ some (task_jobs_full error_body))
          × (length entries' ≡ 64)
          × All (Unfinished jobs) entries')
unfolding make_room prune
make_room-full error_body jobs now entries h =
    let pruned = length-retain-le (is_retained jobs now) entries in
    elim (make_space-cases jobs (prune jobs now entries)) [
      | inl (e, inl room) ↦ let size = ap length e in inl (ground arith)
      | inl (e, inr busy) ↦
          let size = ap length e in
          let still : All (Unfinished jobs) (make_space jobs (prune jobs now entries)) =
            subst (All (Unfinished jobs)) (sym e) busy in
          elim (Bool-cases (leb 64 (length (make_space jobs (prune jobs now entries))))) [
            | inl full ↦ inr (rw full refl, ground arith, still)
            | inr room ↦ inl (rw room refl, ground arith)
          ]
      | inr (at, old, o, _, e) ↦
          let size = ap length e in
          let less = length-retain-lt (λ i. i == old) (prune jobs now entries) o.found in
          inl (ground arith)
    ]
