-- ===== src/Repetition/Tail.antt =====
-- The loop at the end of a whole text, and the stop of a stream.
use free_llama.Base.{
  ℕ, zero, suc, ◌+◌, ◌-◌, ◌*◌, ◌≤◌, ◌<◌, ◌≡◌, inl, inr, subst, sym, ap, ◌∙◌, true, false, List,
  Option, none, some, arith, length, length-drop, drop, get_or-drop, ltb, ◌==◌, ==_iff, ◌&&◌,
  Bool-cases, Option-cases,
}
use free_llama.Repetition.{
  TailLoop, scan_window, char_at, qualifies, extend_back, in_text, map_loop, detect_in_window,
  detect_tail_loop, stops, should_stop_streaming,
}
use free_llama.Repetition.Runs.{Periodic}
use free_llama.Repetition.Window.{IsLoop, Sound, detect_in_window-Sound}

extend_back-le : (text : List ℕ) (period start : ℕ) → extend_back text period start ≤ start
unfolding extend_back
extend_back-le text period zero = omega arith
extend_back-le text period (suc start) = ground (arith, extend_back-le text period start)

extend_down :
    (text : List ℕ) (period from start : ℕ)
    → char_at text start ≡ char_at text (start + period)
    → Periodic text period (from + period) (start + period)
    → Periodic text period (from + period) (suc start + period)
extend_down text period from start same run i low high = elim (Bool-cases (i == start + period)) [
  | inl last ↦
      let e : i ≡ start + period = (==_iff i _).0 last in
      let back : i - period ≡ start = omega arith in
      ap (char_at text) e ∙ sym same ∙ ap (char_at text) (sym back)
  | inr before ↦ run i low (ground arith)
]

extend_back-Periodic :
    (text : List ℕ) (period start : ℕ)
    → Periodic text period (extend_back text period start + period) (start + period)
unfolding extend_back
extend_back-Periodic text period zero = λ i low high. absurd (omega arith)
extend_back-Periodic text period (suc start) =
    elim (Bool-cases (char_at text start == char_at text (start + period))) [
      | inl same ↦
          rw (same, extend_back)
            (extend_down text period _ start ((==_iff _ _).0 same)
              (extend_back-Periodic text period start))
      | inr differs ↦ rw (differs, extend_back) (λ i low high. absurd (omega arith))
    ]

-- A run of the window is one of the text.
shift :
    (text : List ℕ) (offset period from : ℕ)
    → offset ≤ length text
    → period ≤ from
    → Periodic (drop offset text) period from (length (drop offset text))
    → Periodic text period (from + offset) (length text)
shift text offset period from within one_copy run i low high =
    let inside : i - offset < length (drop offset text) = omega (arith, length-drop offset text) in
    let here : offset + (i - offset) ≡ i = omega arith in
    let there : offset + (i - offset - period) ≡ i - period = omega arith in
    ap (char_at text) (sym here)
    ∙ sym (get_or-drop offset text (i - offset) 0)
    ∙ run (i - offset) (omega arith) inside
    ∙ get_or-drop offset text (i - offset - period) 0
    ∙ ap (char_at text) there

join :
    (text : List ℕ) (period from middle to : ℕ)
    → Periodic text period from middle
    → Periodic text period middle to
    → Periodic text period from to
join text period from middle to below above i low high = elim (Bool-cases (ltb i middle)) [
  | inl before ↦ below i low (ground arith)
  | inr after ↦ above i (ground arith) high
]

in_text-IsLoop :
    (text : List ℕ) (offset : ℕ) (found : TailLoop)
    → offset ≤ length text
    → IsLoop (drop offset text) (length (drop offset text)) found
    → IsLoop text (length text) (in_text text offset found)
unfolding in_text
in_text-IsLoop text offset found within v =
    elim (Bool-cases (ltb 0 offset && found.unique_prefix == found.period)) [
      | inl filled ↦ rw filled (record {
        positive = v.positive;
        whole = omega (
          arith,
          v.whole,
          length-drop offset text,
          extend_back-le text found.period offset,
          fills filled,
        );
        one_copy = omega arith;
        long =
            longer found.period found.repeated (offset - extend_back text found.period offset)
              v.long;
        periodic =
            join text found.period _ (offset + found.period) (length text)
              (extend_back-Periodic text found.period offset)
              (let e : found.unique_prefix + offset ≡ offset + found.period =
                  omega (arith, fills filled) in
                subst (λ k. Periodic text found.period k (length text)) e moved);
      })
      | inr partial ↦ rw partial (record {
        positive = v.positive;
        whole = omega (arith, v.whole, length-drop offset text);
        one_copy = omega (arith, v.one_copy);
        long = v.long;
        periodic = moved;
      })
    ]
  where
    moved : Periodic text found.period (found.unique_prefix + offset) (length text)
    moved = shift text offset found.period found.unique_prefix within v.one_copy v.periodic

    fills :
        (ltb 0 offset && found.unique_prefix == found.period) ≡ true
        → found.unique_prefix ≡ found.period
    fills h = ground arith

    longer : (p r d : ℕ) → qualifies p r ≡ true → qualifies p (r + d) ≡ true
    longer p r d h = ground arith

-- The loop reported for a text of any length is one of the whole text: the prefix and the repeated
-- part make up the text, the prefix holds a whole copy of the unit, and all that follows repeats it.
pub detect_tail_loop-Sound : (text : List ℕ) → Sound text (length text) (detect_tail_loop text)
unfolding detect_tail_loop
detect_tail_loop-Sound text =
    moved (detect_in_window (drop offset text)) (detect_in_window-Sound (drop offset text))
  where
    offset : ℕ
    offset = length text - scan_window

    moved :
        (found : Option TailLoop)
        → Sound (drop offset text) (length (drop offset text)) found
        → Sound text (length text) (map_loop (in_text text offset) found)
    moved none h = tt
    moved (some found) h = in_text-IsLoop text offset found (omega arith) h

-- A stream is stopped only where its text ends in a unit and two more whole copies of it at least,
-- which repeat 96 characters or more.
pub should_stop_streaming-IsLoop :
    (text : List ℕ)
    → should_stop_streaming text ≡ true
    → (found : TailLoop) × (detect_tail_loop text ≡ some found)
      × IsLoop text (length text) found
      × (2 * found.period ≤ found.repeated)
      × (96 ≤ found.repeated)
unfolding should_stop_streaming
should_stop_streaming-IsLoop text h = elim (Option-cases (detect_tail_loop text)) [
  | inl e ↦ absurd (false_stop (rw e at h))
  | inr (found, e) ↦
      let stop : stops (some found) ≡ true = rw e at h in
      (
        found,
        e,
        subst (Sound text (length text)) e (detect_tail_loop-Sound text),
        ground arith,
        ground arith,
      )
]
  where
    false_stop : false ≡ true → ⊥
    false_stop e = cc
