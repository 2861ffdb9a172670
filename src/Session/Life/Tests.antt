-- ===== src/Session/Life/Tests.antt =====
-- A session that starts, and the properties at it.
use terminal_x.Common.{
  ℕ, ◌≡◌, refl, true, false, none, some, [], ◌∷◌, if◌then◌else◌, nat_beq, arith,
}
use terminal_x.Proto.Messages.{SessionState, NeedKind, Source, Confidence, Tool, ApprovalMode}
use terminal_x.Session.Cmdline.{ShellKind}
use terminal_x.Session.Life.{Session, Result, Error, current, alive}
use terminal_x.Session.Life.Ends.{begin_kill, end_kill, close}
use terminal_x.Session.Life.Start.{Host}
use terminal_x.Session.Life.Steps.{World, Phase, Step, Started, Later, now, later}
use terminal_x.Session.Life.Exits.{Sound, Later-Sound, attempts, attempts_bounded}
use terminal_x.Session.Life.Closed.{closed_refuses}

abbrev pub host : Host
host = record {
  random = 9;
  is_dir = λ d. true;
  default_cwd = "/home";
  shell_of = λ s. some ("bash", ShellKind.other "bash");
  tmux_available = true;
  tmux_has = true;
  tmux_capture = 1 ∷ 2 ∷ 3 ∷ [];
  spawned = some 0;
}

abbrev pub session : Session
session = record {
  info = record {
    sid = 7;
    device_id = "";
    name = "n";
    tool = Tool.shell;
    shell = "bash";
    cwd = "/home";
    preset = "";
    permission_mode = "";
    approval_mode = ApprovalMode.notify;
    state = SessionState.running;
    kind = NeedKind.unset;
    source = Source.none;
    confidence = Confidence.low;
    started_at = 5;
    last_output_at = 5;
    cols = 120;
    rows = 40;
    seq = 0;
    cost_usd = none;
    context_pct = none;
    exit_code = none;
    resumable = none;
    pty_alive = true;
  };
  cur = some 0;
  last_output = 5;
  last_structured = 0;
  attached = 0;
  heur = record { candidate_since = 0; suspect_at = 0; unknown_at = 0 };
  tool_session_id = "";
  tool_exited = false;
  killing = false;
  closed = false;
  suspended = false;
  persist = true;
  fast_reattaches = 0;
}

abbrev world : World
world = record {
  session = session;
  phase = λ p. if nat_beq p 0 then Phase.running else Phase.unborn;
  spawning = none;
}

world-Started : Started world 0
world-Started = record { current = refl; alive = refl; state = refl; quiet = refl }

abbrev killing : World
killing = record world { session = (begin_kill session).1 }

abbrev closing : World
closing = record world { session = (close killing.session).1 }

killed_closed : Later world closing
killed_closed =
    later world killing closing (later world world killing (now world) (Step.begins_kill world))
      (Step.closes killing)

Later-Sound_example :
    Sound closing.session
    × (alive closing.session ≡ true → (q : ℕ) × (current closing.session ≡ Result.ok q))
Later-Sound_example = Later-Sound world closing 0 world-Started killed_closed

abbrev closed : World
closed = record killing { session = (close killing.session).1 }

abbrev revived : Session
revived = (end_kill closed.session (some 1)).1

-- A restart that a closing overtakes still makes a process, and the closed session has it.
revived_closed : (revived.closed ≡ true) × (revived.info.pty_alive ≡ true) × (revived.cur ≡ some 1)
unfolding end_kill close begin_kill
revived_closed = (refl, refl, refl)

closed_refuses_example :
    (current closed.session ≡ Result.err Error.exited)
    × (begin_kill closed.session ≡ (Result.err Error.exited, closed.session))
    × (close closed.session ≡ (none, closed.session))
closed_refuses_example = closed_refuses killing closed (now closed)

attempts_bounded_example : attempts session (1 ∷ 2 ∷ 3 ∷ 4 ∷ 5 ∷ []) ≡ 3
attempts_bounded_example =
    attempts_bounded session (1 ∷ 2 ∷ 3 ∷ 4 ∷ 5 ∷ [])
      (omega arith, (omega arith, (omega arith, (omega arith, (omega arith, tt)))))
