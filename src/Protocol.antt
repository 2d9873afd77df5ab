-- ===== src/Protocol.antt =====
-- lib/protocol.ts: the messages of an agent, after parsing. Topics are Protocol/Topics.antt.
use zenstier.Prelude.{ℕ, String, Bool, Option}
use zenstier.Prelude.Int.{ℤ}
use zenstier.Fleet.{OutputStream, Facts, Metrics}

-- A payload: empty, refused by the schema, or parsed.
pub data Raw {ℓ} (P : Type ℓ) : Type ℓ where
  empty : Raw P
  invalid : Raw P
  parsed : P → Raw P

pub record StatusPayload : Type 0 where
  pub is_up : Bool
  pub session_id : Option String
  pub facts : Facts
  pub metrics : Option Metrics

pub data ResultStatus : Type 0 where
  queued running completed failed timeout canceled rejected : ResultStatus

pub data ResultKind : Type 0 where
  accepted chunk result : ResultKind

pub record ResultPayload : Type 0 where
  pub id : ℕ
  pub kind : ResultKind
  pub status : Option ResultStatus
  pub exit_code : Option ℤ
  pub stdout : Option String
  pub stderr : Option String
  pub truncated : Option Bool
  pub started_at : Option ℕ
  pub finished_at : Option ℕ
  pub duration_ms : Option ℕ
  pub error : Option String
  pub seq : Option ℕ
  pub stream : Option OutputStream
  pub text : Option String
