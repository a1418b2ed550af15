-- ===== src/Examples/RepetitionExamples.antt =====
-- Loops at the end of small texts (packages/rust-core/src/platform/repetition.rs).
use free_llama.Base.{
  ℕ, zero, suc, ◌*◌, ◌≤◌, ◌≡◌, refl, List, [], ◌∷◌, ◌++◌, some, true, arith, length,
}
use free_llama.Repetition.{
  TailLoop, tail_run, consider, scan_periods, detect_in_window, in_text, detect_tail_loop,
  should_stop_streaming,
}
use free_llama.Repetition.Runs.{Periodic, tail_run-Periodic}
use free_llama.Repetition.Window.{IsLoop, detect_in_window-first}
use free_llama.Repetition.Tail.{should_stop_streaming-IsLoop}

abbrev repeat : ℕ → List ℕ → List ℕ
repeat zero unit = []
repeat (suc n) unit = unit ++ repeat n unit

-- An answer of two characters and fifty copies of a fence.
abbrev fenced : List ℕ
fenced = 7 ∷ 8 ∷ repeat 50 (1 ∷ 1 ∷ 2 ∷ [])

fenced_loop :
    detect_tail_loop fenced ≡ some (record { unique_prefix = 5; period = 3; repeated = 147 })
unfolding detect_tail_loop detect_in_window scan_periods consider tail_run in_text
fenced_loop = refl

fenced_stops : should_stop_streaming fenced ≡ true
unfolding should_stop_streaming detect_tail_loop detect_in_window scan_periods consider tail_run
    in_text
fenced_stops = refl

abbrev dashes : List ℕ
dashes = repeat 60 (1 ∷ [])

dashes-Periodic : Periodic dashes 1 1 (length dashes)
unfolding tail_run
dashes-Periodic = tail_run-Periodic dashes 1 59

detect_in_window-first_example :
    (found : TailLoop) × (detect_in_window dashes ≡ some found)
    × IsLoop dashes (length dashes) found
    × (found.unique_prefix ≤ 1)
detect_in_window-first_example =
    detect_in_window-first dashes 1 1 (omega arith) (omega arith) (omega arith) (omega arith)
      (omega arith) dashes-Periodic refl

-- The run that starts first need not be the one that is found: here one of period 131 starts at 0,
-- and its first copy ends one character behind that of the run of period 1, which starts at 129.
abbrev two_runs : List ℕ
two_runs = repeat 128 (1 ∷ []) ++ (2 ∷ repeat 130 (1 ∷ []))

earlier_run : tail_run two_runs 131 128 ≡ 128
unfolding tail_run
earlier_run = refl

later_run_found :
    detect_in_window two_runs ≡ some (record { unique_prefix = 130; period = 1; repeated = 129 })
unfolding detect_in_window scan_periods consider tail_run
later_run_found = refl

should_stop_streaming-IsLoop_example :
    (found : TailLoop) × (detect_tail_loop fenced ≡ some found)
    × IsLoop fenced (length fenced) found
    × (2 * found.period ≤ found.repeated)
    × (96 ≤ found.repeated)
should_stop_streaming-IsLoop_example = should_stop_streaming-IsLoop fenced fenced_stops
