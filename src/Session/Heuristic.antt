-- ===== src/Session/Heuristic.antt =====
-- internal/session/heuristic.go: the guess from a terminal's silence and last line. Text is a list of
-- code points. A time is a number of nanoseconds, 0 Go's zero time; `now.Sub(t)` is compared with
-- positive durations only, so a time in the future counts as no time ago.
pub mod Prompt
pub mod Machine
mod Tests
use terminal_x.Common.{
  ℕ, ◌+◌, ◌-◌, ◌*◌, ◌^◌, Bool, true, false, not, ◌&&◌, ◌||◌, List, [], String, ltb, leb, nat_beq,
  if◌then◌else◌, ◌==◌, string_key,
}
use Prompt.{match_prompt}

abbrev pub second : ℕ
second = 10 ^ 9

abbrev pub minute : ℕ
minute = 60 * second

abbrev pub silence_for_suspect : ℕ
silence_for_suspect = 5 * minute

abbrev pub silence_for_unknown : ℕ
silence_for_unknown = 10 * minute

abbrev pub suspect_debounce : ℕ
suspect_debounce = 15 * second

abbrev pub structured_fresh_for : ℕ
structured_fresh_for = 5 * minute

pub record HeurInput : Type 0 where
  pub tool : String
  pub last_output : ℕ
  pub last_structured : ℕ
  pub last_line : List ℕ

pub record HeurState : Type 0 where
  pub candidate_since : ℕ
  pub suspect_at : ℕ
  pub unknown_at : ℕ

pub data VerdictKind : Type 0 where
  none suspect cleared unknown resumed : VerdictKind

pub record Verdict : Type 0 where
  pub kind : VerdictKind
  pub line : List ℕ

abbrev pub is_zero : ℕ → Bool
is_zero t = nat_beq t 0

abbrev pub quiet : VerdictKind → Verdict
quiet k = record { kind = k; line = [] }

abbrev pub struct_fresh : HeurInput → ℕ → Bool
struct_fresh input now =
    not (is_zero input.last_structured) && ltb (now - input.last_structured) structured_fresh_for

abbrev pub struct_stale : HeurInput → ℕ → Bool
struct_stale input now =
    is_zero input.last_structured || leb silence_for_unknown (now - input.last_structured)

abbrev pub silent_prompt : HeurInput → ℕ → Bool
silent_prompt input now =
    leb silence_for_suspect (now - input.last_output) && match_prompt input.last_line

-- what follows the two checks for a verdict that output has overtaken
watch : HeurInput → HeurState → ℕ → Verdict × HeurState
watch input st now =
    if struct_fresh input now
    then (quiet none, record st { candidate_since = 0 })
    else if silent_prompt input now
    then if is_zero st.candidate_since
      then (quiet none, record st { candidate_since = now })
      else if leb suspect_debounce (now - st.candidate_since)
      then (
        record { kind = suspect; line = input.last_line },
        record { suspect_at = now; unknown_at = 0; candidate_since = 0 },
      )
      else (quiet none, st)
    else if leb silence_for_unknown (now - input.last_output)
        && struct_stale input now
        && is_zero st.unknown_at
    then (quiet unknown, record st { candidate_since = 0; unknown_at = now })
    else (quiet none, record st { candidate_since = 0 })

unfoldable pub evaluate : HeurInput → HeurState → ℕ → Verdict × HeurState
unfolding watch
evaluate input st now =
    if input.tool == "" || input.tool == "shell"
    then (quiet none, st)
    else if not (is_zero st.suspect_at)
    then if ltb st.suspect_at input.last_output || struct_fresh input now
      then (quiet cleared, record st { suspect_at = 0; candidate_since = 0 })
      else (quiet none, st)
    else if not (is_zero st.unknown_at)
        && (ltb st.unknown_at input.last_output || struct_fresh input now)
    then (quiet resumed, record st { unknown_at = 0 })
    else watch input st now
