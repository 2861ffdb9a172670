-- ===== src/Proto/Messages.antt =====
-- internal/proto/messages.go: the types of the control plane that the agent and the relay keep state
-- in. A Go string type with known values has a constructor for each of them, one for the empty string
-- where the code tests for it, and `other` for every other text. A time is a number, 0 Go's zero
-- time; a float64 is only stored, so it is its bit pattern.
use terminal_x.Common.{ℕ, ℤ, Bool, true, false, String, Option, List}

pub data SessionState : Type 0 where
  unset running idle needs_input failed exited quota_wait unknown : SessionState
  other : String → SessionState

pub data NeedKind : Type 0 where
  unset permission question : NeedKind
  other : String → NeedKind

pub data Source : Type 0 where
  unset hook hooks_json notify status_line pty none : Source
  other : String → Source

pub data Confidence : Type 0 where
  unset high low : Confidence
  other : String → Confidence

pub data ApprovalMode : Type 0 where
  unset notify remote_first : ApprovalMode
  other : String → ApprovalMode

-- A, B and C
pub data ApprovalLevel : Type 0 where
  hook keys suspect : ApprovalLevel
  other : String → ApprovalLevel

pub data ApprovalStatus : Type 0 where
  unset pending allowed denied closed_local fallback : ApprovalStatus
  other : String → ApprovalStatus

pub data Tool : Type 0 where
  unset claude codex grok shell : Tool
  other : String → Tool

abbrev pub is_pending : ApprovalStatus → Bool
is_pending ApprovalStatus.pending = true
is_pending _ = false

abbrev pub is_hook : ApprovalLevel → Bool
is_hook ApprovalLevel.hook = true
is_hook _ = false

pub record Resumable : Type 0 where
  pub tool : Tool
  pub name : String
  pub cwd : String

pub record SessionInfo : Type 0 where
  pub sid : ℕ
  pub device_id : String
  pub name : String
  pub tool : Tool
  pub shell : String
  pub cwd : String
  pub preset : String
  pub permission_mode : String
  pub approval_mode : ApprovalMode
  pub state : SessionState
  pub kind : NeedKind
  pub source : Source
  pub confidence : Confidence
  pub started_at : ℕ
  pub last_output_at : ℕ
  pub cols : ℕ
  pub rows : ℕ
  pub seq : ℕ
  pub cost_usd : Option ℕ
  pub context_pct : Option ℕ
  pub exit_code : Option ℤ
  pub resumable : Option Resumable
  pub pty_alive : Bool

pub record Approval : Type 0 where
  pub key : String
  pub sid : ℕ
  pub device_id : String
  pub agent : String
  pub tool : String
  pub summary : String
  pub input : String
  pub cwd : String
  pub level : ApprovalLevel
  pub mode : ApprovalMode
  pub created_at : ℕ
  pub hook_timeout_at : Option ℕ
  pub status : ApprovalStatus
  pub decided_by : String
  pub decided_at : Option ℕ

pub record DeviceInfo : Type 0 where
  pub id : String
  pub name : String
  pub os : String
  pub agent_version : String
  pub online : Bool
  pub last_seen : ℕ
  pub rtt_ms : ℕ
  pub fingerprint : String
  pub power : String

pub record SessionHealth : Type 0 where
  pub sid : ℕ
  pub pty_alive : Bool
  pub last_output_at : ℕ
  pub seq : ℕ

pub record Heartbeat : Type 0 where
  pub seq : ℕ
  pub sent_at : ℕ
  pub power : String
  pub sessions : List SessionHealth
