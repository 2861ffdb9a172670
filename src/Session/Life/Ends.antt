-- ===== src/Session/Life/Ends.antt =====
-- internal/session/session.go: the end of a process in `waitLoop` and `reattach`, and `KillResume`, `Close` and
-- `Suspend`.
use terminal_x.Common.{
  ℕ, suc, ◌*◌, ◌^◌, ℤ, negsuc, Bool, true, false, not, ◌&&◌, ◌||◌, String, Option, none, some, ltb,
  nat_beq, if◌then◌else◌, string_key, ◌==◌,
}
use terminal_x.Proto.Messages.{SessionState, NeedKind, Source, Confidence, Tool, Resumable}
use terminal_x.Session.Life.{Session, Result, Error}

abbrev name_or : String → String → String
name_or name fallback = if name == "" then fallback else name

unfoldable pub resumable : Session → Resumable
resumable s = record {
  tool = s.info.tool;
  cwd = s.info.cwd;
  name = elim s.info.tool [
    | Tool.claude ↦ name_or s.info.name s.tool_session_id
    | Tool.codex ↦ name_or s.tool_session_id "last"
    | _ ↦ ""
  ];
}

abbrev pub same : Option ℕ → ℕ → Bool
same none p = false
same (some q) p = nat_beq q p

-- `waitLoop`, first: the end of this process is not an end of the session.
unfoldable pub superseded : Session → ℕ → Bool
superseded s p = not (same s.cur p) || (s.killing || s.closed)

-- `waitLoop`, last, if not superseded: what OnExit is called with, and the state.
unfoldable pub exit : Session → ℤ → (ℤ × Resumable) × Session
exit s code =
    let r = resumable s in
    (
      (code, r),
      record s {
        info = record s.info {
          state = SessionState.exited;
          pty_alive = false;
          exit_code = some code;
          kind = NeedKind.unset;
          resumable = some r;
        };
      },
    )

abbrev pub fast_death : ℕ
fast_death = 5 * 10 ^ 9

-- `reattach`, first: whether it gives up, after the client lived for `lived`.
unfoldable pub count_reattach : Session → ℕ → Bool × Session
count_reattach s lived =
    let n = if ltb lived fast_death then suc s.fast_reattaches else 0 in
    (ltb 3 n, record s { fast_reattaches = n })

unfoldable pub reattached : Session → ℕ → Session
reattached s p = record s {
  cur = some p;
  info = record s.info { pty_alive = true; state = SessionState.running };
}

unfoldable pub lose : Session → (ℤ × Resumable) × Session
lose s =
    let r = resumable s in
    (
      (negsuc 0, r),
      record s {
        info = record s.info {
          state = SessionState.failed;
          pty_alive = false;
          exit_code = none;
          kind = NeedKind.unset;
          resumable = some r;
        };
      },
    )

-- `KillResume` up to the kill: the generation to stop, if it is alive.
unfoldable pub begin_kill : Session → Result (Option ℕ) × Session
begin_kill s =
    if s.closed
    then (Result.err Error.exited, s)
    else if s.killing
    then (Result.err Error.in_progress, s)
    else (Result.ok (if s.info.pty_alive then s.cur else none), record s { killing = true })

-- `KillResume` after `spawn`.
unfoldable pub end_kill : Session → Option ℕ → Result ℕ × Session
end_kill s none = (
  Result.err Error.respawn_failed,
  record s {
    killing = false;
    cur = none;
    info = record s.info { pty_alive = false; state = SessionState.failed };
  },
)
end_kill s (some p) = (
  Result.ok p,
  record s {
    killing = false;
    cur = some p;
    tool_exited = false;
    info = record s.info {
      pty_alive = true;
      state = SessionState.running;
      kind = NeedKind.unset;
      source = Source.none;
      confidence = Confidence.low;
      exit_code = none;
      resumable = none;
    };
  },
)

-- `Close` under the mutex: the generation to terminate.
unfoldable pub close : Session → Option ℕ × Session
close s = if s.closed then (none, s) else (
  if s.info.pty_alive then s.cur else none,
  record s { closed = true; info = record s.info { pty_alive = false } },
)

-- `Suspend` under the mutex; without tmux it is `Close`.
unfoldable pub suspend : Session → Option ℕ × Session
unfolding close
suspend s =
    let (p, s') = close s in
    (p, if s.persist && not s.closed then record s' { suspended = true } else s')
