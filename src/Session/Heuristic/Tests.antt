-- ===== src/Session/Heuristic/Tests.antt =====
-- The heuristic's properties at a session that waits at a prompt.
use terminal_x.Common.{◌*◌, ◌≡◌, inl, refl, true, arith}
use terminal_x.Session.Heuristic.{HeurInput, HeurState, none, suspect, evaluate, second}
use terminal_x.Session.Heuristic.Prompt.{match_prompt, codes}
use terminal_x.Session.Heuristic.Machine.{Inv, Turn, phase, evaluate-Turn, suspect_raised}

-- "continue? (y/n)" after 1000 s
abbrev waiting_prompt : HeurInput
waiting_prompt = record {
  tool = "claude";
  last_output = 1000 * second;
  last_structured = 0;
  last_line = codes "continue? (y/n)";
}

abbrev no_memory : HeurState
no_memory = record { candidate_since = 0; suspect_at = 0; unknown_at = 0 }

abbrev candidate : HeurState
candidate = record { candidate_since = 1400 * second; suspect_at = 0; unknown_at = 0 }

prompt_matches : match_prompt waiting_prompt.last_line ≡ true
unfolding match_prompt
prompt_matches = refl

no_memory-Inv : Inv no_memory
no_memory-Inv = record { one_verdict = inl refl; no_candidate = inl refl }

evaluate-Turn_example :
    Inv (evaluate waiting_prompt no_memory (2000 * second)).1
    × Turn
        (evaluate waiting_prompt no_memory (2000 * second)).0.kind
        (phase no_memory)
        (phase (evaluate waiting_prompt no_memory (2000 * second)).1)
evaluate-Turn_example =
    evaluate-Turn waiting_prompt no_memory (2000 * second) (omega arith) no_memory-Inv

raised : (evaluate waiting_prompt candidate (1420 * second)).0.kind ≡ suspect
unfolding evaluate match_prompt
raised = refl

suspect_raised_example :
    ((evaluate waiting_prompt no_memory (1400 * second)).0.kind ≡ none)
    × ((evaluate waiting_prompt
          (evaluate waiting_prompt no_memory (1400 * second)).1
          (1420 * second)).0.kind
        ≡ suspect)
suspect_raised_example =
    suspect_raised waiting_prompt no_memory (1400 * second) (1420 * second) (omega arith)
      (omega arith) refl refl refl refl (inl refl) (inl refl) prompt_matches (omega arith)
