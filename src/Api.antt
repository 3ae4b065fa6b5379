-- ===== src/Api.antt =====
-- The records and enumerations that the web app shares with the API
-- (packages/api-client/src/generated/types.gen.ts), as far as the modelled parts read them. A
-- field of type `string | null` is an `Option String`; a time is the ISO text that the API sent.
-- Some of these values come out of a message by a cast that checks nothing (`as RunStatus`): the
-- constructor `foreign` holds a value that such a cast let through.
use step_by_step.Common.{ℕ, Bool, List, Option, String, Dictionary, Unknown, ℤ}

pub data RunStatus : Type 0 where
  queued running waiting_for_human succeeded failed cancelled : RunStatus
  foreign : Option Unknown → RunStatus

pub data BatchRowStatus : Type 0 where
  queued running succeeded failed skipped cancelled : BatchRowStatus

pub data StepResultStatus : Type 0 where
  passed failed skipped : StepResultStatus
  foreign : Option Unknown → StepResultStatus

pub data RunControlKind : Type 0 where
  automation waiting human verifying : RunControlKind
  foreign : Option Unknown → RunControlKind

pub data LogLevel : Type 0 where
  debug info warning error : LogLevel
  foreign : String → LogLevel

pub data FailureReason : Type 0 where
  step_failed auth_challenge takeover_timeout takeover_abandoned run_timeout : FailureReason
  worker_lost missing_secret startup_failed : FailureReason
  foreign : String → FailureReason

pub data ArtifactKind : Type 0 where
  screenshot download trace : ArtifactKind

pub data RunTrigger : Type 0 where
  manual schedule batch test : RunTrigger

-- `secret?: boolean`, and ids that may be missing or null.
pub record Variable : Type 0 where
  pub name : String
  pub secret : Option Bool
  pub secret_id : Option String
  pub secret_name : Option String

pub record AttemptRecord : Type 0 where
  pub id : String
  pub status : RunStatus
  pub failure_reason : Option String
  pub queued_at : String
  pub started_at : Option String
  pub ended_at : Option String

pub record BatchRowRecord : Type 0 where
  pub index : ℕ
  pub variables : Dictionary Unknown
  pub status : BatchRowStatus
  pub latest_run_id : Option String
  pub runs : List AttemptRecord

pub record BatchRecord : Type 0 where
  pub id : String
  pub name : String
  pub workflow_id : String
  pub created_at : String
  pub cancelled_at : Option String

pub record BatchStats : Type 0 where
  pub queued : ℕ
  pub running : ℕ
  pub succeeded : ℕ
  pub failed : ℕ
  pub skipped : ℕ
  pub cancelled : ℕ

pub record ControlIntervalRecord : Type 0 where
  pub id : String
  pub kind : RunControlKind
  pub started_at : String
  pub ended_at : Option String

pub record RunRecord : Type 0 where
  pub id : String
  pub workflow_id : String
  pub version_number : Option ℕ
  pub draft_snapshot : Option (Dictionary Unknown)
  pub is_test : Bool
  pub trigger : RunTrigger
  pub status : RunStatus
  pub failure_reason : Option FailureReason
  pub failure_detail : Option String
  pub variables : Dictionary Unknown
  pub timeout_ms : ℕ
  pub worker_id : Option String
  pub worker_vnc_endpoint : Option String
  pub heartbeat_at : Option String
  pub cancel_requested_at : Option String
  pub pause_requested_at : Option String
  pub takeover_deadline_at : Option String
  pub auto_handback_disabled : Bool
  pub queued_at : String
  pub started_at : Option String
  pub ended_at : Option String
  pub automation_ms : ℕ

pub record StepResultRecord : Type 0 where
  pub id : String
  pub step_id : String
  pub position : ℤ
  pub status : StepResultStatus
  pub started_at : Option String
  pub ended_at : Option String
  pub matched_candidate_rank : Option ℤ
  pub candidate_count : Option ℤ
  pub completed_by_human : Bool
  pub error_code : Option String
  pub error_message : Option String
  pub diagnostics : Option (Dictionary Unknown)
  pub extracted_value : Option Unknown

pub record LogLine : Type 0 where
  pub seq : ℤ
  pub step_id : Option String
  pub level : LogLevel
  pub text : String
  pub at : String

pub record ArtifactRecord : Type 0 where
  pub id : String
  pub step_id : Option String
  pub kind : ArtifactKind
  pub content_type : String
  pub size_bytes : ℕ
  pub index : ℕ
  pub created_at : String
  pub filename : String

pub data AuthStateConsentScope : Type 0 where
  organization personal : AuthStateConsentScope

-- The consent that was given is only ever compared with null.
pub record AuthStateCandidateRecord : Type 0 where
  pub domain : String
  pub consent : Option String

pub record RunDetail : Type 0 where
  pub run : RunRecord
  pub step_results : List StepResultRecord
  pub control_intervals : List ControlIntervalRecord
  pub artifacts : List ArtifactRecord
  pub batch_row : Option (Dictionary Unknown)
  pub auth_state_candidates : List AuthStateCandidateRecord

pub record BatchDetail : Type 0 where
  pub batch : BatchRecord
  pub rows : List BatchRowRecord
  pub stats : BatchStats
  pub eta_seconds : Option ℕ
