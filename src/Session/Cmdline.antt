-- ===== src/Session/Cmdline.antt =====
-- internal/session/cmdline.go: the line that starts a tool. A text that is quoted is a list of code points;
-- the fields of a spec are texts of the language, and `codes` gives their code points.
pub mod Sh
pub mod Words
pub mod Toml
mod Tests
use terminal_x.Common.{
  ℕ, Bool, true, false, not, ◌&&◌, ◌||◌, String, Option, none, some, List, [], ◌∷◌, ◌++◌, nat_beq,
  if◌then◌else◌, string_key, ◌==◌,
}
use terminal_x.Proto.Messages.{Tool}
use terminal_x.Session.Heuristic.Prompt.{codes}

abbrev pub Text : Type 0
Text = List ℕ

-- The shells that the quoting tells apart.
pub data ShellKind : Type 0 where
  pwsh powershell cmd : ShellKind
  other : String → ShellKind

pub record ToolSpec : Type 0 where
  pub tool : Tool
  pub name : String
  pub permission_mode : String
  pub resume : String
  pub extra : List String
  pub settings_path : String
  pub codex_notify : List String
  pub shell_kind : ShellKind

abbrev pub member : ℕ → Text → Bool
member c [] = false
member c (x ∷ xs) = nat_beq x c || member c xs

-- `strings.ContainsAny`
unfoldable pub contains_any : Text → Text → Bool
contains_any [] chars = false
contains_any (c ∷ s) chars = member c chars || contains_any s chars

-- `strings.ReplaceAll` of a text of one character
unfoldable pub replace_all : Text → ℕ → Text → Text
replace_all [] old new = []
replace_all (c ∷ s) old new = (if nat_beq c old then new else c ∷ []) ++ replace_all s old new

abbrev pub quote : ℕ
quote = b'\''

abbrev pub double_quote : ℕ
double_quote = b'"'

abbrev pub backslash : ℕ
backslash = b'\\'

abbrev pub specials : Text
specials = codes " \t\"'`$&|;<>()[]{}*?!\\#~^%,"

abbrev pub is_empty_text : Text → Bool
is_empty_text [] = true
is_empty_text (_ ∷ _) = false

abbrev quoted : ShellKind → Text → Text
quoted ShellKind.pwsh s = quote ∷ (replace_all s quote (quote ∷ quote ∷ []) ++ quote ∷ [])
quoted ShellKind.powershell s = quote ∷ (replace_all s quote (quote ∷ quote ∷ []) ++ quote ∷ [])
quoted ShellKind.cmd s =
    double_quote ∷ (replace_all s double_quote (backslash ∷ double_quote ∷ []) ++ double_quote ∷ [])
quoted (ShellKind.other _) s =
    quote ∷ (replace_all s quote (quote ∷ backslash ∷ quote ∷ quote ∷ []) ++ quote ∷ [])

unfoldable pub quote_arg : ShellKind → Text → Text
quote_arg kind s =
    if not (is_empty_text s) && not (contains_any s specials) then s else quoted kind s

abbrev toml_char : ℕ → Text
toml_char c =
    if nat_beq c backslash
    then backslash ∷ backslash ∷ []
    else if nat_beq c double_quote
    then backslash ∷ double_quote ∷ []
    else if nat_beq c b'\n'
    then backslash ∷ b'n' ∷ []
    else c ∷ []

unfoldable pub toml_escape : Text → Text
toml_escape [] = []
toml_escape (c ∷ s) = toml_char c ++ toml_escape s

abbrev pub comma_unless : Bool → Text
comma_unless true = []
comma_unless false = b',' ∷ []

-- The loop; `first` is `i == 0`.
unfoldable pub toml_items : Bool → List Text → Text
toml_items first [] = []
toml_items first (s ∷ items) =
    comma_unless first ++ (double_quote ∷ (toml_escape s ++ double_quote ∷ toml_items false items))

unfoldable pub toml_string_array : List Text → Text
toml_string_array items = b'[' ∷ (toml_items true items ++ b']' ∷ [])

abbrev pub texts : List String → List Text
texts [] = []
texts (s ∷ ss) = codes s ∷ texts ss

-- An option and its value, unless the value is empty.
abbrev pub flag_with : (Text → Text) → String → String → List Text
flag_with q option value = if value == "" then [] else codes option ∷ q (codes value) ∷ []

abbrev pub claude_resume : (Text → Text) → ToolSpec → Bool → List Text
claude_resume q t after_kill =
    if after_kill && not (t.name == "")
    then codes "--resume" ∷ q (codes t.name) ∷ []
    else if after_kill
    then codes "--continue" ∷ []
    else if t.resume == "last" || t.resume == "continue"
    then codes "--continue" ∷ []
    else if not (t.resume == "")
    then codes "--resume" ∷ q (codes t.resume) ∷ []
    else []

abbrev pub codex_resume : (Text → Text) → ToolSpec → Bool → List Text
codex_resume q t after_kill =
    if after_kill || t.resume == "last"
    then codes "resume" ∷ codes "--last" ∷ []
    else if not (t.resume == "")
    then codes "resume" ∷ q (codes t.resume) ∷ []
    else []

abbrev pub codex_notify_part : (Text → Text) → List String → List Text
codex_notify_part q [] = []
codex_notify_part q (s ∷ ss) =
    codes "-c" ∷ q (codes "notify=" ++ toml_string_array (texts (s ∷ ss))) ∷ []

abbrev pub map_text : (Text → Text) → List Text → List Text
map_text q [] = []
map_text q (s ∷ ss) = q s ∷ map_text q ss

abbrev pub claude_parts : (Text → Text) → ToolSpec → Bool → List Text
claude_parts q t after_kill =
    codes "claude"
    ∷ (flag_with q "--name" t.name
        ++ (flag_with q "--permission-mode" t.permission_mode
            ++ (flag_with q "--settings" t.settings_path ++ claude_resume q t after_kill)))

abbrev pub codex_parts : (Text → Text) → ToolSpec → Bool → List Text
codex_parts q t after_kill =
    codes "codex" ∷ (codex_resume q t after_kill ++ codex_notify_part q t.codex_notify)

-- The parts of the line, each argument through `q`; `none` for a plain shell.
unfoldable pub parts_of : Tool → (Text → Text) → ToolSpec → Bool → Option (List Text)
parts_of Tool.claude q t after_kill =
    some (claude_parts q t after_kill ++ map_text q (texts t.extra))
parts_of Tool.codex q t after_kill = some (codex_parts q t after_kill ++ map_text q (texts t.extra))
parts_of Tool.grok q t after_kill = some ((codes "grok" ∷ []) ++ map_text q (texts t.extra))
parts_of _ q t after_kill = none

-- `strings.Join` with a space
unfoldable pub join : List Text → Text
join [] = []
join (w ∷ []) = w
join (w ∷ v ∷ ws) = w ++ (b' ' ∷ join (v ∷ ws))

abbrev pub joined : Option (List Text) → Text
joined none = []
joined (some ws) = join ws

unfoldable pub command : ToolSpec → Bool → Text
command t after_kill = joined (parts_of t.tool (quote_arg t.shell_kind) t after_kill)
