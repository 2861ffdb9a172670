-- ===== src/Agent/Tests.antt =====
-- An agent with one session and one approval, and the properties at it.
use terminal_x.Common.{
  ◌≡◌, refl, pos, true, false, none, some, List, [], ◌∷◌, ◌++◌, All, drop, arith, nat_key,
  string_key,
}
use terminal_x.Common.Maps.{lookup}
use terminal_x.Proto.Messages.{Resumable, Tool, ApprovalMode}
use terminal_x.Proto.Envelope.{Msg, MsgType, OpenRequest, blank}
use terminal_x.Proto.Frame as frame
use terminal_x.Proto.Frame.{Frame, frame_snapshot, frame_ack, frame_eof, max_payload, parse_eof}
use terminal_x.Proto.Frame.Chunks.{IsChunking, payloads}
use terminal_x.Hooks.Approvals.{get}
use terminal_x.Hooks.Approvals.Invariant.{Inv}
use terminal_x.Hooks.Approvals.Tests.{request, one, one-Inv}
use terminal_x.Hooks.Server.Tests.{endpoint, asks}
use terminal_x.Session.Life.Tests.{session, host}
use terminal_x.Session.Output.{replay}
use terminal_x.Session.Output.Tests.{output, sent as delivered, output-Flowing}
use terminal_x.Agent.{
  Agent, Live, Effect, handle_attach, snapshot, frames, outputs, forget_session, on_exit,
}
use terminal_x.Agent.Attaching.{sent, handle_attach_lem}
use terminal_x.Agent.Consoles.{watch, watch-attach}
use terminal_x.Agent.Sessions.{
  Dropped, Honest, hooked, forget_session-Dropped, hooked-Honest, on_exit-Dropped,
}
use terminal_x.Agent.Presets.{Resolver, Env, resolve, built_in}
use terminal_x.Agent.Persist.{Meta, Dirs}
use terminal_x.Agent.Opening.{Setup, Opens, open_session, open_session-Opens}

abbrev live : Live
live = record { session = session; output = output }

abbrev agent : Agent
agent = record {
  device_id = "d";
  sessions = (7, live) ∷ [];
  pty_keys = [];
  acks = (7, 3) ∷ [];
  store = one;
  hello_id = "h";
  hello_ok = true;
}

known : lookup 7 agent.sessions ≡ some live
unfolding lookup
known = refl

asked : get agent.store "k1" ≡ some request
unfolding get lookup
asked = refl

abbrev attach : Msg
attach = record (blank MsgType.session_attach) { sid = 7; last_seq = 3 }

handle_attach_lem_example :
    let (_, r, _) = replay output 3 in
    (payloads (sent (handle_attach attach agent).0)
      ≡ output.pending ++ drop 3 (delivered ++ output.pending))
    × IsChunking max_payload frame_snapshot 7 6 0
        (drop 3 (delivered ++ output.pending))
        (snapshot 7 r)
    × ((handle_attach attach agent).0 ≡ outputs 7 (replay output 3).0 ++ frames (snapshot 7 r))
handle_attach_lem_example =
    handle_attach_lem attach agent live delivered known output-Flowing (omega arith) (omega arith)
      (omega arith)

watch-attach_example :
    (watch true (sent (handle_attach attach agent).0) ≡ (4 ∷ 5 ∷ 6 ∷ [], false))
    × (watch false (sent (handle_attach attach agent).0) ≡ (5 ∷ 6 ∷ [], false))
watch-attach_example =
    watch-attach attach agent live delivered known output-Flowing (omega arith) (omega arith)
      (omega arith)

forget_session-Dropped_example :
    ((forget_session 7 9 agent).0 ≡ true)
    × (lookup 7 (forget_session 7 9 agent).1.1.sessions ≡ none)
    × Dropped 7 "close" 9 "k1" request agent (forget_session 7 9 agent).1
forget_session-Dropped_example =
    forget_session-Dropped 7 9 agent live 7 "k1" request one-Inv known asked

hooked-Honest_example :
    Inv (hooked endpoint asks 9 agent).1.1.store
    × All (Honest (hooked endpoint asks 9 agent).1.1.store) (hooked endpoint asks 9 agent).1.0
hooked-Honest_example = hooked-Honest endpoint asks 9 agent one-Inv

abbrev again : Resumable
again = record { tool = Tool.shell; name = ""; cwd = "/" }

on_exit-Dropped_example :
    ((f : Frame) × (m : Msg) × (told : List Effect) × ((on_exit 7 (pos 130) again 9 agent).0
        ≡ Effect.sends_frame f ∷ Effect.sends m ∷ told)
      × (f.type ≡ frame_eof)
      × (f.sid ≡ 7)
      × (parse_eof f.payload ≡ frame.Result.ok (pos 130))
      × (m.t ≡ MsgType.session_exited)
      × (m.sid ≡ 7)
      × (m.code ≡ some (pos 130))
      × (m.resumable ≡ some again))
    × Dropped 7 "exit" 9 "k1" request agent (on_exit 7 (pos 130) again 9 agent)
on_exit-Dropped_example =
    on_exit-Dropped 7 (pos 130) again 9 "k1" request agent (omega arith) one-Inv asked

abbrev acks : Frame
acks = record { type = frame_ack; flags = 0; sid = 7; seq = 5; payload = [] }

abbrev resolver : Resolver
resolver = record {
  minimax_api_key = "key";
  minimax_base_url = "";
  relay_station_base_url = "";
  relay_station_api_key = "";
  custom = [];
}

abbrev minimax : Env
minimax =
    ("ANTHROPIC_BASE_URL", "https://api.minimax.io/anthropic")
    ∷ ("ANTHROPIC_AUTH_TOKEN", "key")
    ∷ []

resolves : resolve (λ s. s) resolver "minimax" ≡ some minimax
unfolding resolve built_in lookup
resolves = refl

abbrev setup : Setup
setup = record {
  resolver = resolver;
  trim = λ s. s;
  exe = "tx-agent";
  hook_token = "secret";
  port = "4100";
  decimal = λ n. "8";
  settings_path = λ sid. some "settings.json";
  default_shell = "bash";
  persist = false;
  tmux_conf = "";
}

abbrev opens : OpenRequest
opens = record {
  shell = "";
  cwd = "";
  tool = Tool.claude;
  name = "n";
  preset = "minimax";
  permission_mode = "";
  approval_mode = ApprovalMode.unset;
  resume = "";
  cols = 0;
  rows = 0;
  extra = [];
}

open_session-Opens_example : Opens agent (open_session setup opens (7 ∷ 8 ∷ []) host 9 agent)
open_session-Opens_example = open_session-Opens setup opens (7 ∷ 8 ∷ []) host 9 agent

abbrev described : Meta
described = record {
  sid = 7;
  name = "work";
  tool = Tool.claude;
  shell = "";
  cwd = "";
  preset = "";
  approval_mode = ApprovalMode.unset;
  permission_mode = "";
  extra = [];
  settings_path = "";
  codex_notify = [];
  tool_session_id = "c1";
  started_at = 3;
  cols = 80;
  rows = 24;
}

-- tmux has session 7 of the two that were left.
abbrev dirs : Dirs
dirs = (7, some described) ∷ (8, none) ∷ []

abbrev starting : Agent
starting = record agent { sessions = [] }
