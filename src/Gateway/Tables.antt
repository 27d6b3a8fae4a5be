-- ===== src/Gateway/Tables.antt =====
-- What core/tools/gateway.py answers, and what it works with.
use elite_reasoning_mcp.Prelude.{String, Option, List, ◌⊎◌}
use elite_reasoning_mcp.Verification.{VerificationStatus}
use elite_reasoning_mcp.Workflow.{NewEvidence, Payload, Run, Step, Store}
use elite_reasoning_mcp.Continuity.{ContinuationDirective}
use elite_reasoning_mcp.GitDiff.{Git}
use elite_reasoning_mcp.Gate.{Outcome}
use elite_reasoning_mcp.Command.{Launch}
use elite_reasoning_mcp.Verifiers.{Server, VerifierRequest, Answer}

pub record Gateway : Type 0 where
  pub server : Server
  pub artifact_hex : String → String → String → Payload → String
  pub other_checks : VerifierRequest → Answer

pub data GatewayError : Type 0 where
  validation_error : String → GatewayError
  raised : String → GatewayError

-- `VerifyResult` of core/api/schemas.py; one evidence record is made for each check.
pub record VerifyResult : Type 0 where
  pub check : String
  pub verification_status : VerificationStatus
  pub evidence : NewEvidence
  pub outcome : Option Outcome
  pub limitations : List String
  pub continuation : Option ContinuationDirective

pub record WorkflowReply : Type 0 where
  pub run : Run
  pub steps : List Step
  pub continuation : ContinuationDirective

pub record Verified : Type 0 where
  pub reply : GatewayError ⊎ VerifyResult
  pub store : Store
  pub launched : List Launch
  pub git : Git
