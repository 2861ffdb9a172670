-- ===== src/Hooks/Server/Serve.antt =====
-- internal/hooks/server.go: `Handler`, `auth` and `sessionFromPath`, the way to a handler; and the steps of
-- the endpoint, requests and the ends of the waiting ones.
pub mod Access
use terminal_x.Common.{
  ℕ, ◌+◌, ◌-◌, ◌*◌, ◌^◌, inl, inr, Bool, true, false, not, ◌&&◌, ◌||◌, String, Option, none, some,
  List, [], ◌∷◌, if◌then◌else◌, ltb, leb, nat_beq, Bool-cases, Option-cases,
}
use terminal_x.Proto.Messages.{ApprovalMode}
use terminal_x.Session.Heuristic.Prompt.{codes}
use terminal_x.Hooks.Approvals.{Store}
use terminal_x.Hooks.Approvals.Invariant.{Inv}
use terminal_x.Hooks.Server.{handle_claude, handle_status_line, permission_end, Outcome}
use terminal_x.Hooks.Server.Codex.{handle_codex_hook, handle_codex_notify}
use terminal_x.Hooks.Server.Inputs.{Library, Hook, ClaudeInput}
use terminal_x.Hooks.Server.Calls.{Event, Response, Reply, Body, Step}
use terminal_x.Hooks.Server.Told.{Agrees}
use terminal_x.Hooks.Server.Told.Claude.{handle_claude-Agrees, handle_status_line-Agrees}
use terminal_x.Hooks.Server.Told.Codex.{handle_codex_hook-Agrees, handle_codex_notify-Agrees}

-- `token` is empty while none is set; `session` is Lookup, `none` for nil.
pub record Server : Type 0 where
  pub token : List ℕ
  pub session : Option (ℕ → Option ApprovalMode)
  pub timeout : Option ℕ
  pub library : Library

pub data Route : Type 0 where
  claude : Hook → Body ClaudeInput → Route
  status_line : Body (Option ℕ × Option ℕ) → Route
  codex_notify : Body (String × String) → Route
  codex : Hook → Body ClaudeInput → Route

-- The header, the path's sid, and the rest.
pub record Call : Type 0 where
  pub authorization : List ℕ
  pub sid : List ℕ
  pub route : Route

-- `GET /healthz` needs no token.
pub data Request : Type 0 where
  health : Request
  hook : Call → Request

pub same_text : List ℕ → List ℕ → Bool
same_text [] [] = true
same_text [] (_ ∷ _) = false
same_text (_ ∷ _) [] = false
same_text (c ∷ s) (d ∷ t) = nat_beq c d && same_text s t

-- `strings.TrimPrefix`; `none` without the prefix
after_prefix : List ℕ → List ℕ → Option (List ℕ)
after_prefix [] s = some s
after_prefix (_ ∷ _) [] = none
after_prefix (p ∷ ps) (c ∷ s) = let rest = after_prefix ps s in if nat_beq p c then rest else none

unfoldable pub trim_prefix : List ℕ → List ℕ → List ℕ
unfolding after_prefix
trim_prefix s p = elim (after_prefix p s) [ none ↦ s | some rest ↦ rest ]

unfoldable pub authorized : Server → Call → Bool
unfolding same_text
authorized v r =
    not (same_text v.token []) && same_text (trim_prefix r.authorization (codes "Bearer ")) v.token

-- `strconv.ParseUint(s, 10, 32)`: the value of the digits after `n`.
digits : ℕ → List ℕ → Option ℕ
digits n [] = some n
digits n (c ∷ s) =
    let rest = digits (n * 10 + (c - b'0')) s in if leb b'0' c && leb c b'9' then rest else none

unfoldable pub parse_sid : List ℕ → Option ℕ
unfolding digits
parse_sid [] = none
parse_sid (c ∷ s) = elim (digits 0 (c ∷ s)) [
  | none ↦ none
  | some n ↦ if ltb n (2 ^ 32) then some n else none
]

abbrev or_notify : ApprovalMode → ApprovalMode
or_notify ApprovalMode.unset = ApprovalMode.notify
or_notify m = m

unfoldable pub mode_of : Option (ℕ → Option ApprovalMode) → ℕ → Option ApprovalMode
mode_of none sid = some ApprovalMode.notify
mode_of (some session) sid = elim (session sid) [ none ↦ none | some m ↦ some (or_notify m) ]

abbrev refuses : Response → Store → Reply × Step
refuses r s = (Reply.answers r, ([], s))

unfoldable pub routed : Server → ℕ → ApprovalMode → Route → ℕ → Store → Reply × Step
routed v sid mode (claude h body) now s = handle_claude v.library v.timeout sid mode h body now s
routed v sid mode (status_line body) now s = handle_status_line sid body s
routed v sid mode (codex_notify body) now s = handle_codex_notify sid body s
routed v sid mode (codex h body) now s = handle_codex_hook v.library sid mode h body now s

unfoldable pub guarded : Server → Call → ℕ → Store → Reply × Step
guarded v r now s =
    if authorized v r
    then elim (parse_sid r.sid) [
      | none ↦ refuses Response.bad_request s
      | some sid ↦ elim (mode_of v.session sid) [
        | none ↦ refuses Response.not_found s
        | some mode ↦ routed v sid mode r.route now s
      ]
    ]
    else refuses Response.unauthorized s

unfoldable pub serve : Server → Request → ℕ → Store → Reply × Step
serve v health now s = (Reply.answers Response.healthy, ([], s))
serve v (hook r) now s = guarded v r now s

routed-Agrees :
    (v : Server) (sid : ℕ) (mode : ApprovalMode) (r : Route) (now : ℕ) (s : Store)
    → Inv s
    → Agrees (routed v sid mode r now s).1.0 (routed v sid mode r now s).1.1
unfolding routed
routed-Agrees v sid mode (claude h body) now s i =
    handle_claude-Agrees v.library v.timeout sid mode h body now s i
routed-Agrees v sid mode (status_line body) now s i = handle_status_line-Agrees sid body s i
routed-Agrees v sid mode (codex_notify body) now s i = handle_codex_notify-Agrees sid body s i
routed-Agrees v sid mode (codex h body) now s i =
    handle_codex_hook-Agrees v.library sid mode h body now s i

guarded-Agrees :
    (v : Server) (r : Call) (now : ℕ) (s : Store)
    → Inv s
    → Agrees (guarded v r now s).1.0 (guarded v r now s).1.1
unfolding guarded
guarded-Agrees v r now s i = elim (Bool-cases (authorized v r)) [
  | inr e ↦ rw e (record { kept = i; tells = tt })
  | inl e ↦ rw e (elim (Option-cases (parse_sid r.sid)) [
    | inl n ↦ rw n (record { kept = i; tells = tt })
    | inr (sid, p) ↦ rw p (elim (Option-cases (mode_of v.session sid)) [
      | inl n ↦ rw n (record { kept = i; tells = tt })
      | inr (mode, m) ↦ rw m (routed-Agrees v sid mode r.route now s i)
    ])
  ])
]

-- On every request, in a store that keeps its invariant, the endpoint keeps the invariant, every approval
-- that it announces is stored as announced and pending, and every approval whose end it tells is
-- stored as told and settled.
pub serve-Agrees :
    (v : Server) (r : Request) (now : ℕ) (s : Store)
    → Inv s
    → Agrees (serve v r now s).1.0 (serve v r now s).1.1
unfolding serve
serve-Agrees v health now s i = record { kept = i; tells = tt }
serve-Agrees v (hook r) now s i = guarded-Agrees v r now s i
