-- ===== src/Session/Cmdline/Words.antt =====
-- The words of a tool's command line.
use terminal_x.Common.{
  ◌≡◌, refl, sym, ap, ◌∙◌, Bool, not, ◌&&◌, ◌||◌, String, Option, none, some, List, [], ◌∷◌, ◌++◌,
  All, Bool-cases, inl, inr, string_key, ◌==◌,
}
use terminal_x.Proto.Messages.{Tool}
use terminal_x.Session.Heuristic.Prompt.{codes}
use terminal_x.Session.Cmdline.{
  Text, ShellKind, ToolSpec, contains_any, quote_arg, parts_of, claude_parts, codex_parts, joined,
  command, map_text, texts, flag_with, claude_resume, codex_resume, codex_notify_part,
}
use terminal_x.Session.Cmdline.Sh.{sh_words, OneLine, sh_words-join}

-- An argument as it is.
abbrev pub bare : Text → Text
bare s = s

abbrev map_parts : (Text → Text) → Option (List Text) → Option (List Text)
map_parts q none = none
map_parts q (some ws) = some (map_text q ws)

map_text-append :
    (q : Text → Text) (ws vs : List Text) → map_text q (ws ++ vs) ≡ map_text q ws ++ map_text q vs
map_text-append q [] vs = refl
map_text-append q (w ∷ ws) vs = rw (map_text-append q ws vs)

map_text-bare : (ws : List Text) → map_text bare ws ≡ ws
map_text-bare [] = refl
map_text-bare (w ∷ ws) = rw (map_text-bare ws)

-- The words that the lines have in them are not quoted.
abbrev Plain : (Text → Text) → Type 0
Plain q =
    (q (codes "claude") ≡ codes "claude")
    × (q (codes "--name") ≡ codes "--name")
    × (q (codes "--permission-mode") ≡ codes "--permission-mode")
    × (q (codes "--settings") ≡ codes "--settings")
    × (q (codes "--resume") ≡ codes "--resume")
    × (q (codes "--continue") ≡ codes "--continue")
    × (q (codes "codex") ≡ codes "codex")
    × (q (codes "resume") ≡ codes "resume")
    × (q (codes "--last") ≡ codes "--last")
    × (q (codes "-c") ≡ codes "-c")
    × (q (codes "grok") ≡ codes "grok")

quote_arg-Plain : (kind : ShellKind) → Plain (quote_arg kind)
unfolding quote_arg contains_any
quote_arg-Plain kind = (refl, refl, refl, refl, refl, refl, refl, refl, refl, refl, refl)

module _ (q : Text → Text) (p : Plain q) where
  flag_with-map :
      (option value : String)
      → q (codes option) ≡ codes option
      → flag_with q option value ≡ map_text q (flag_with bare option value)
  flag_with-map option value e = elim (Bool-cases (value == "")) [
    | inl f ↦ rw f
    | inr f ↦ rw (f, e)
  ]

  claude_resume-map :
      (t : ToolSpec) (k : Bool) → claude_resume q t k ≡ map_text q (claude_resume bare t k)
  claude_resume-map t k = elim (Bool-cases (k && not (t.name == ""))) [
    | inl a ↦ rw (a, p.4)
    | inr a ↦ elim (Bool-cases k) [
      | inl b ↦ rw (a, b, p.5)
      | inr b ↦ elim (Bool-cases (t.resume == "last" || t.resume == "continue")) [
        | inl c ↦ rw (a, b, c, p.5)
        | inr c ↦ elim (Bool-cases (t.resume == "")) [
          | inl d ↦ rw (a, b, c, d)
          | inr d ↦ rw (a, b, c, d, p.4)
        ]
      ]
    ]
  ]

  codex_resume-map :
      (t : ToolSpec) (k : Bool) → codex_resume q t k ≡ map_text q (codex_resume bare t k)
  codex_resume-map t k = elim (Bool-cases (k || t.resume == "last")) [
    | inl a ↦ rw (a, p.7, p.8)
    | inr a ↦ elim (Bool-cases (t.resume == "")) [ inl d ↦ rw (a, d) | inr d ↦ rw (a, d, p.7) ]
  ]

  codex_notify_part-map :
      (ss : List String) → codex_notify_part q ss ≡ map_text q (codex_notify_part bare ss)
  codex_notify_part-map [] = refl
  codex_notify_part-map (s ∷ ss) = rw (p.9)

  claude_parts-map :
      (t : ToolSpec) (k : Bool) → claude_parts q t k ≡ map_text q (claude_parts bare t k)
  claude_parts-map t k = simp (
    map_text-append,
    p.0,
    flag_with-map "--name" t.name p.1,
    flag_with-map "--permission-mode" t.permission_mode p.2,
    flag_with-map "--settings" t.settings_path p.3,
    claude_resume-map t k,
  )

  codex_parts-map :
      (t : ToolSpec) (k : Bool) → codex_parts q t k ≡ map_text q (codex_parts bare t k)
  codex_parts-map t k =
      simp (map_text-append, p.6, codex_resume-map t k, codex_notify_part-map t.codex_notify)

  with_extra :
      (a b extra : List Text)
      → a ≡ map_text q b
      → some (a ++ map_text q extra) ≡ map_parts q (some (b ++ map_text bare extra))
  with_extra a b extra e = ap some (
      ap (λ x. x ++ map_text q extra) e
      ∙ (sym (map_text-append q b extra)
          ∙ ap (λ x. map_text q (b ++ x)) (sym (map_text-bare extra))))

  parts_of-map :
      (tool : Tool) (t : ToolSpec) (k : Bool)
      → parts_of tool q t k ≡ map_parts q (parts_of tool bare t k)
  unfolding parts_of
  parts_of-map Tool.claude t k =
      with_extra (claude_parts q t k) (claude_parts bare t k) (texts t.extra) (claude_parts-map t k)
  parts_of-map Tool.codex t k =
      with_extra (codex_parts q t k) (codex_parts bare t k) (texts t.extra) (codex_parts-map t k)
  parts_of-map Tool.grok t k =
      with_extra (codes "grok" ∷ []) (codes "grok" ∷ []) (texts t.extra) (rw p.10)
  parts_of-map Tool.shell t k = refl
  parts_of-map Tool.unset t k = refl
  parts_of-map (Tool.other _) t k = refl

-- A shell that follows POSIX reads the command line of a tool as the tool's words, each argument as it
-- was given, if none of them holds an end of line.
pub sh_words-command :
    (t : ToolSpec) (after_kill : Bool) (shell : String) (ws : List Text)
    → t.shell_kind ≡ ShellKind.other shell
    → parts_of t.tool bare t after_kill ≡ some ws
    → All OneLine ws
    → sh_words (command t after_kill) ≡ some ws
unfolding command
sh_words-command t k shell ws e h l =
    let q = quote_arg (ShellKind.other shell) in
    ap (λ x. sh_words (joined (parts_of t.tool (quote_arg x) t k))) e
    ∙ (ap (λ x. sh_words (joined x))
          (parts_of-map q (quote_arg-Plain (ShellKind.other shell)) t.tool t k ∙ ap (map_parts q) h)
        ∙ sh_words-join shell ws l)
