-- ===== src/Session/Heuristic/Machine.antt =====
-- The heuristic as a state machine over three phases.
use terminal_x.Common.{
  ℕ, ◌+◌, ◌<◌, ◌≤◌, ◌≡◌, ◌≢◌, ◌⊎◌, true, false, arith, if◌then◌else◌, not, ◌==◌, string_key,
}
use terminal_x.Session.Heuristic.{
  HeurInput, HeurState, VerdictKind, none, suspect, cleared, unknown, resumed, evaluate, is_zero,
  silence_for_suspect, suspect_debounce, structured_fresh_for,
}
use terminal_x.Session.Heuristic.Prompt.{match_prompt}

pub data Phase : Type 0 where
  calm suspected lost : Phase

pub phase : HeurState → Phase
phase st =
    if not (is_zero st.suspect_at)
    then Phase.suspected
    else if not (is_zero st.unknown_at)
    then Phase.lost
    else Phase.calm

-- At most one verdict is active, and no candidate is being watched while a suspect is.
pub record Inv (st : HeurState) : Type 0 where
  pub one_verdict : (st.suspect_at ≡ 0) ⊎ (st.unknown_at ≡ 0)
  pub no_candidate : (st.suspect_at ≡ 0) ⊎ (st.candidate_since ≡ 0)

-- Which verdict leads from which phase to which.
abbrev pub Turn : VerdictKind → Phase → Phase → Type 0
Turn none p q = q ≡ p
Turn suspect p q = (p ≢ suspected) × (q ≡ suspected)
Turn cleared p q = (p ≡ suspected) × (q ≡ calm)
Turn unknown p q = (p ≡ calm) × (q ≡ lost)
Turn resumed p q = (p ≡ lost) × (q ≡ calm)

pub evaluate-Inv :
    (input : HeurInput) (st : HeurState) (now : ℕ) → Inv st → Inv (evaluate input st now).1
unfolding evaluate
evaluate-Inv input st now v = ground arith

-- Every evaluation after Go's zero time keeps the memory consistent, and its verdict is exactly the
-- change of phase: a suspect verdict enters the suspected phase and is not repeated in it, cleared
-- leaves it, unknown and resumed enter and leave the lost phase, and with no verdict the phase stays.
pub evaluate-Turn :
    (input : HeurInput) (st : HeurState) (now : ℕ)
    → 0 < now
    → Inv st
    → Inv (evaluate input st now).1
      × Turn (evaluate input st now).0.kind (phase st) (phase (evaluate input st now).1)
unfolding evaluate phase
evaluate-Turn input st now after v = (evaluate-Inv input st now v, ground arith)

-- A suspect verdict carries the last line, which matches a prompt, of a session that has been silent
-- for five minutes with no structured signal in the last five, and was already a candidate fifteen
-- seconds before.
pub suspect_needs :
    (input : HeurInput) (st : HeurState) (now : ℕ)
    → (evaluate input st now).0.kind ≡ suspect
    → ((evaluate input st now).0.line ≡ input.last_line)
      × (match_prompt input.last_line ≡ true)
      × (input.last_output + silence_for_suspect ≤ now)
      × (0 < st.candidate_since)
      × (st.candidate_since + suspect_debounce ≤ now)
      × ((input.last_structured ≡ 0) ⊎ (input.last_structured + structured_fresh_for ≤ now))
unfolding evaluate
suspect_needs input st now h = ground arith

-- Two evaluations of one silent prompt, fifteen seconds apart or more, from a phase that is not
-- suspected and with no candidate yet, raise the suspect verdict at the second, if no structured
-- signal is fresh and, in the lost phase, no output has come since.
pub suspect_raised :
    (input : HeurInput) (st : HeurState) (t u : ℕ)
    → 0 < t
    → t + suspect_debounce ≤ u
    → (input.tool == "") ≡ false
    → (input.tool == "shell") ≡ false
    → st.suspect_at ≡ 0
    → st.candidate_since ≡ 0
    → (st.unknown_at ≡ 0) ⊎ (input.last_output ≤ st.unknown_at)
    → (input.last_structured ≡ 0) ⊎ (input.last_structured + structured_fresh_for ≤ t)
    → match_prompt input.last_line ≡ true
    → input.last_output + silence_for_suspect ≤ t
    → ((evaluate input st t).0.kind ≡ none)
      × ((evaluate input (evaluate input st t).1 u).0.kind ≡ suspect)
unfolding evaluate
suspect_raised input st t u a b c d e f g h i j = (ground arith, ground arith)

-- A plain shell never has a verdict, and its memory is left alone.
pub shell_quiet :
    (input : HeurInput) (st : HeurState) (now : ℕ)
    → ((input.tool == "") ≡ true) ⊎ ((input.tool == "shell") ≡ true)
    → ((evaluate input st now).0.kind ≡ none) × ((evaluate input st now).1 ≡ st)
unfolding evaluate
shell_quiet input st now h = ground arith
