-- ===== src/Session/Cmdline/Tests.antt =====
-- Command lines, and the properties at them.
use terminal_x.Common.{ℕ, ◌≡◌, refl, arith, true, some, List, [], ◌∷◌, All}
use terminal_x.Proto.Messages.{Tool}
use terminal_x.Session.Heuristic.Prompt.{codes}
use terminal_x.Session.Cmdline.{
  ToolSpec, ShellKind, command, parts_of, quote_arg, replace_all, contains_any, join,
}
use terminal_x.Session.Cmdline.Sh.{sh_words, OneLine}
use terminal_x.Session.Cmdline.Words.{bare, sh_words-command}

abbrev spec : ToolSpec
spec = record {
  tool = Tool.claude;
  name = "it's a test";
  permission_mode = "";
  resume = "";
  extra = [];
  settings_path = "/home/a b/s.json";
  codex_notify = [];
  shell_kind = ShellKind.other "bash";
}

spec-command :
    command spec true
    ≡ codes
        "claude --name 'it'\\''s a test' --settings '/home/a b/s.json' --resume 'it'\\''s a test'"
unfolding command parts_of quote_arg replace_all contains_any join
spec-command = refl

abbrev words : List (List ℕ)
words =
    codes "claude"
    ∷ codes "--name"
    ∷ codes "it's a test"
    ∷ codes "--settings"
    ∷ codes "/home/a b/s.json"
    ∷ codes "--resume"
    ∷ codes "it's a test"
    ∷ []

spec-words : parts_of spec.tool bare spec true ≡ some words
unfolding parts_of
spec-words = refl

words-OneLine : All OneLine words
words-OneLine = ground arith

sh_words-command_example : sh_words (command spec true) ≡ some words
sh_words-command_example = sh_words-command spec true "bash" words refl spec-words words-OneLine
