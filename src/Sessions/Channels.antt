-- ===== src/Sessions/Channels.antt =====
-- The invariant of the sessions and their channels (platform/routing.rs).
use free_llama.Base.{
  ℕ, ◌≤◌, ◌<◌, ◌≡◌, ◌≢◌, refl, sym, subst, Bool, false, not, List, [], ◌∷◌, map, retain, any,
  length, Option, none, some, some-injective, String, same_text, ◌==◌, lookup, insert, remove, All,
  All-imp, arith, inl, inr, Bool-cases, length-map, length-retain-le,
}
use free_llama.Sessions.{
  SessionRecord, SessionAffinity, create, modify, cancellation, channel_of, kill_found,
}

abbrev pub Entries : Type 0
Entries = List (String × SessionRecord)

abbrev pub channels : Entries → List ℕ
channels [] = []
channels ((key, r) ∷ entries) = r.channel ∷ channels entries

abbrev pub Distinct : List ℕ → Type 0
Distinct [] = Unit
Distinct (c ∷ cs) = All (λ d. d ≢ c) cs × Distinct cs

abbrev is_channel : ℕ → ℕ → Bool
is_channel channel c = c == channel

-- What the handlers keep: no more sessions than the limit, a channel of its own for each, and no
-- session whose channel says that it was killed.
pub record Inv (max_sessions : ℕ) (s : SessionAffinity) : Type 0 where
  pub bounded : length s.sessions ≤ max_sessions
  pub fresh : All (λ c. c < s.next_channel) (channels s.sessions)
  pub old : All (λ c. c < s.next_channel) s.killed
  pub distinct : Distinct (channels s.sessions)
  pub alive : All (λ c. any (λ k. k == c) s.killed ≡ false) (channels s.sessions)

All-channels_retain :
    (P : ℕ → Type 0) (p : String × SessionRecord → Bool) (entries : Entries)
    → All P (channels entries)
    → All P (channels (retain p entries))
All-channels_retain P p [] h = tt
All-channels_retain P p ((key, r) ∷ entries) h = elim (Bool-cases (p (key, r))) [
  | inl e ↦ rw e (h.0, All-channels_retain P p entries h.1)
  | inr e ↦ rw e (All-channels_retain P p entries h.1)
]

Distinct-retain :
    (p : String × SessionRecord → Bool) (entries : Entries)
    → Distinct (channels entries)
    → Distinct (channels (retain p entries))
Distinct-retain p [] h = tt
Distinct-retain p ((key, r) ∷ entries) h = elim (Bool-cases (p (key, r))) [
  | inl e ↦
      rw e (All-channels_retain (λ d. d ≢ r.channel) p entries h.0, Distinct-retain p entries h.1)
  | inr e ↦ rw e (Distinct-retain p entries h.1)
]

channel-modify :
    (id : String) (change : SessionRecord → SessionRecord)
    → ((r : SessionRecord) → (change r).channel ≡ r.channel)
    → (key : String) (r : SessionRecord) → (modify id change (key, r)).1.channel ≡ r.channel
channel-modify id change keeps key r = elim (Bool-cases (same_text key id)) [
  | inl e ↦ rw e (keeps r)
  | inr e ↦ rw e refl
]

channels-modify :
    (id : String) (change : SessionRecord → SessionRecord)
    → ((r : SessionRecord) → (change r).channel ≡ r.channel)
    → (entries : Entries) → channels (map (modify id change) entries) ≡ channels entries
channels-modify id change keeps [] = refl
channels-modify id change keeps ((key, r) ∷ entries) =
    cc (channel-modify id change keeps key r, channels-modify id change keeps entries)

pub retain-Inv :
    (max_sessions : ℕ) (s : SessionAffinity) (p : String × SessionRecord → Bool)
    → Inv max_sessions s
    → Inv max_sessions (record s { sessions = retain p s.sessions })
retain-Inv max_sessions s p v = record {
  bounded = omega (arith, v.bounded, length-retain-le p s.sessions);
  fresh = All-channels_retain _ p s.sessions v.fresh;
  old = v.old;
  distinct = Distinct-retain p s.sessions v.distinct;
  alive = All-channels_retain _ p s.sessions v.alive;
}

pub modify-Inv :
    (max_sessions : ℕ) (s : SessionAffinity) (id : String) (change : SessionRecord → SessionRecord)
    → ((r : SessionRecord) → (change r).channel ≡ r.channel)
    → Inv max_sessions s
    → Inv max_sessions (record s { sessions = map (modify id change) s.sessions })
modify-Inv max_sessions s id change keeps v =
    let same = channels-modify id change keeps s.sessions in
    record {
      bounded = omega (arith, v.bounded, length-map s.sessions (modify id change));
      fresh = subst (All _) (sym same) v.fresh;
      old = v.old;
      distinct = subst Distinct (sym same) v.distinct;
      alive = subst (All _) (sym same) v.alive;
    }

lt-ne : (c n : ℕ) → c < n → c ≢ n
lt-ne c n h = ground arith

old_not_new :
    (next : ℕ) (killed : List ℕ) → All (λ c. c < next) killed → any (λ k. k == next) killed ≡ false
old_not_new next [] h = refl
old_not_new next (k ∷ killed) h = ground (arith, old_not_new next killed h.1)

pub create-Inv :
    (max_sessions : ℕ) (s : SessionAffinity) (id : String) (now : ℕ)
    → length s.sessions < max_sessions
    → Inv max_sessions s
    → Inv max_sessions (create s id now)
unfolding create insert remove
create-Inv max_sessions s id now room v =
    let w = retain-Inv max_sessions s (λ e. not (same_text e.0 id)) v in
    record {
      bounded = omega (arith, room, length-retain-le (λ e. not (same_text e.0 id)) s.sessions);
      fresh = (omega arith, All-imp _ _ (λ c h. omega (arith, h)) _ w.fresh);
      old = All-imp _ _ (λ c h. omega (arith, h)) _ v.old;
      distinct = (All-imp _ _ (λ c h. lt-ne c s.next_channel h) _ w.fresh, w.distinct);
      alive = (old_not_new s.next_channel s.killed v.old, w.alive);
    }

-- The channel of the session under a key is of no other entry.
All-lookup :
    (P : ℕ → Type 0) (id : String) (entries : Entries) (channel : ℕ)
    → All P (channels entries)
    → channel_of (lookup id entries) ≡ some channel
    → P channel
unfolding lookup
All-lookup P id [] channel h = λ e. cc
All-lookup P id ((key, r) ∷ entries) channel h = elim (Bool-cases (same_text key id)) [
  | inl same ↦ rw same (λ e. subst P (some-injective _ _ e) h.0)
  | inr other ↦ rw other (λ e. All-lookup P id entries channel h.1 e)
]

remove-channel :
    (id : String) (entries : Entries) (channel : ℕ)
    → Distinct (channels entries)
    → channel_of (lookup id entries) ≡ some channel
    → All (λ d. d ≢ channel) (channels (remove id entries))
unfolding lookup remove
remove-channel id [] channel h = λ e. tt
remove-channel id ((key, r) ∷ entries) channel h = elim (Bool-cases (same_text key id)) [
  | inl same ↦ rw same (λ e.
      All-channels_retain (λ d. d ≢ channel) _ entries
        (subst (λ c. All (λ d. d ≢ c) (channels entries)) (some-injective _ _ e) h.0))
  | inr other ↦ rw other (λ e. (
    (λ f. All-lookup (λ d. d ≢ r.channel) id entries channel h.0 e (sym f)),
    remove-channel id entries channel h.1 e,
  ))
]

still_alive :
    (channel : ℕ) (killed cs : List ℕ)
    → All (λ d. d ≢ channel) cs
    → All (λ c. any (λ k. k == c) killed ≡ false) cs
    → All (λ c. any (λ k. k == c) (channel ∷ killed) ≡ false) cs
still_alive channel killed [] h k = tt
still_alive channel killed (c ∷ cs) h k =
    (ground (arith, h.0, k.0), still_alive channel killed cs h.1 k.1)

pub kill_found-Inv :
    (max_sessions : ℕ) (s : SessionAffinity) (id : String) (found : Option ℕ)
    → cancellation s id ≡ found
    → Inv max_sessions s
    → Inv max_sessions (kill_found s id found).0
unfolding kill_found cancellation remove
kill_found-Inv max_sessions s id none e v = v
kill_found-Inv max_sessions s id (some channel) e v =
    let w = retain-Inv max_sessions s (λ e. not (same_text e.0 id)) v in
    let apart = remove-channel id s.sessions channel v.distinct e in
    record {
      bounded = w.bounded;
      fresh = w.fresh;
      old = (All-lookup (λ c. c < s.next_channel) id s.sessions channel v.fresh e, v.old);
      distinct = w.distinct;
      alive = still_alive channel s.killed _ apart w.alive;
    }
