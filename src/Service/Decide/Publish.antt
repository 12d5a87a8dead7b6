-- ===== src/Service/Decide/Publish.antt =====
-- `submit_decision` and `checkpoint` of src/approvo/service.py and the log.
use approvo.Base.{String, Option}
use approvo.Json.{Fields}
use approvo.Service.Monad.{Service, State}
use approvo.Service.Append.{sha}
use approvo.Service.Append.Log.{IsSound}
use approvo.Service.Submit.Keeps.{
  Kept, Keeps, bind, appends, lifts, reads-Keeps, now-Keeps, pure-Keeps, submit-Keeps,
}
use approvo.Service.Decide.{Signer, submit_decision, publish_checkpoint}

module _ (service : Service) where
  submit_decision-Keeps :
      (request_id approver_id verdict : String) (signer : Option Signer) (comment key : String)
      (authn : Option Fields)
      → Keeps service
          (submit_decision service request_id approver_id verdict signer comment key authn)
  unfolding submit_decision
  submit_decision-Keeps request_id approver_id verdict signer comment key authn =
      bind service (reads-Keeps service _) λ request. bind service (now-Keeps service) λ decided_at.
        bind service (lifts service)
          λ context. bind service (lifts service) λ envelope. submit-Keeps service envelope

  publish_checkpoint-Keeps :
      (log_signer : Option Signer) → Keeps service (publish_checkpoint service log_signer)
  unfolding publish_checkpoint
  publish_checkpoint-Keeps log_signer = bind service (reads-Keeps service _) λ leaves.
      bind service (reads-Keeps service _) λ previous. bind service (now-Keeps service) λ at_time.
        bind service (lifts service) λ cp.
          bind service (lifts service)
            λ payload. bind service (appends service _) λ entry. pure-Keeps service

  -- Publishing a checkpoint on a log that is a chain and indexed leaves such a log with every old entry in its place, whether the call
  -- returns or raises and whatever other callers append at its attempts.
  pub publish_checkpoint-IsSound :
      (log_signer : Option Signer) (s : State)
      → IsSound (sha service) s.events
      → Kept service s (publish_checkpoint service log_signer s)
  publish_checkpoint-IsSound log_signer s p = (publish_checkpoint-Keeps log_signer).kept s p

  -- Submitting a decision through `submit_decision`, with or without a signer, on a log that is a chain and indexed leaves such a log with
  -- every old entry in its place, whether the call returns or raises and whatever other callers append at its attempts.
  pub submit_decision-IsSound :
      (request_id approver_id verdict : String) (signer : Option Signer) (comment key : String)
      (authn : Option Fields) (s : State)
      → IsSound (sha service) s.events
      → Kept service s
          (submit_decision service request_id approver_id verdict signer comment key authn s)
  submit_decision-IsSound request_id approver_id verdict signer comment key authn s p =
      (submit_decision-Keeps request_id approver_id verdict signer comment key authn).kept s p
