-- ===== src/Runtime/AuditChain.antt =====
-- eyeflow-server/src/runtime/crypto-audit-chain.service.ts. `JSON.stringify` and what the code calls
-- of node's crypto module are the fields of `Cryptography`; identifiers and the clock enter as
-- arguments, and an input or output is given as its JSON text.
pub mod Chains
mod Examples
use eyeflow.Common.{
  ℕ, zero, suc, String, Bool, true, false, not, Option, none, some, List, [], ◌∷◌, ◌++◌, length,
  last?, drop, ◌-◌, map, or_else, if◌then◌else◌,
}
use eyeflow.Common.Eq.{◌==◌, string_equality}
use eyeflow.Runtime.OfflineBuffer.{OfflineBuffer, enqueue_audit_event, is_buffering}

pub record AuditEventInput (D : Type 0) : Type 0 where
  pub workflow_id : String
  pub workflow_version : Option ℕ
  pub instruction_id : Option String
  pub event_type : String
  pub input : Option String
  pub output : Option String
  pub duration_ms : Option ℕ
  pub details : Option D

-- An event without its own hash, signature and key: what the hash is taken of.
pub record AuditBody (D : Type 0) : Type 0 where
  pub event_id : String
  pub timestamp : String
  pub node_id : String
  pub workflow_id : String
  pub workflow_version : Option ℕ
  pub instruction_id : Option String
  pub event_type : String
  pub input_hash : String
  pub output_hash : String
  pub duration_ms : ℕ
  pub details : Option D
  pub previous_event_hash : String

pub record AuditChainEvent (D : Type 0) : Type 0 where
  pub body : AuditBody D
  pub self_hash : String
  pub signature : String
  pub public_key_pem : String

pub data ChainError : Type 0 where
  self_hash_mismatch signature_invalid link_broken : ChainError

pub record ChainVerificationResult : Type 0 where
  pub valid : Bool
  pub checked_count : ℕ
  pub first_broken_at : Option ℕ
  pub error : Option ChainError

-- `sha256` is the hexadecimal digest of `createHash`. `create_sign algorithm message private_key` is the
-- hexadecimal signature that `createSign`, `update` and `sign` give, and `create_verify algorithm message
-- public_key signature` the answer of `createVerify`, `update` and `verify`; `none` is an exception.
pub record Cryptography (D : Type 0) : Type 0 where
  pub stringify_body : AuditBody D → String
  pub stringify_event : AuditChainEvent D → String
  pub sha256 : String → String
  pub create_sign : String → String → String → Option String
  pub create_verify : String → String → String → String → Option Bool

-- `H` names the export handlers, `exported` is what they were called with, and `V` is the type of
-- the values in the offline buffer.
pub record AuditChain (D V H : Type 0) : Type 0 where
  pub chain : List (AuditChainEvent D)
  pub node_id : String
  pub private_key_pem : String
  pub public_key_pem : String
  pub export_handlers : List H
  pub exported : List (H × AuditChainEvent D)
  pub offline_buffer : Option (OfflineBuffer V)

-- `'0'.repeat(64)`
abbrev pub genesis : String
genesis = "0000000000000000000000000000000000000000000000000000000000000000"

module _ {D : Type 0} (crypto : Cryptography D) where
  unfoldable pub previous_hash : List (AuditChainEvent D) → String
  previous_hash chain = elim (last? chain) [
    | none ↦ genesis
    | some event ↦ crypto.sha256 (crypto.stringify_event event)
  ]

  -- `_sign`: if SHA256 throws, the second attempt may throw as well.
  unfoldable pub sign : String → String → Option String
  sign private_key_pem message = elim (crypto.create_sign "SHA256" message private_key_pem) [
    | some signature ↦ some signature
    | none ↦ crypto.create_sign "ed25519" message private_key_pem
  ]

  unfoldable pub make_body :
      {V H : Type 0} → String → String → AuditEventInput D → AuditChain D V H → AuditBody D
  unfolding previous_hash
  make_body event_id timestamp input s = record {
    event_id = event_id;
    timestamp = timestamp;
    node_id = s.node_id;
    workflow_id = input.workflow_id;
    workflow_version = input.workflow_version;
    instruction_id = input.instruction_id;
    event_type = input.event_type;
    input_hash = crypto.sha256 (or_else input.input "null");
    output_hash = crypto.sha256 (or_else input.output "null");
    duration_ms = or_else input.duration_ms 0;
    details = input.details;
    previous_event_hash = previous_hash s.chain;
  }

  -- The event that `append` makes of a body and its signature.
  abbrev pub seal : String → AuditBody D → String → AuditChainEvent D
  seal public_key_pem body signature = record {
    body = body;
    self_hash = crypto.sha256 (crypto.stringify_body body);
    signature = signature;
    public_key_pem = public_key_pem;
  }

  -- `as_payload` is the cast of the event; the buffer gets its own id and timestamp.
  unfoldable pub buffer_event :
      {V : Type 0}
      → (String → V)
      → (AuditChainEvent D → List (String × V))
      → ℕ
      → String
      → String
      → AuditChainEvent D
      → Option (OfflineBuffer V)
      → Option (OfflineBuffer V)
  buffer_event text as_payload max_queue_size id timestamp event none = none
  buffer_event text as_payload max_queue_size id timestamp event (some b) =
      if is_buffering b
      then some (
          enqueue_audit_event text max_queue_size id timestamp event.body.workflow_id
            event.body.event_type (as_payload event) b)
      else some b

  -- What `append` does with the event once it is signed.
  unfoldable pub push_event :
      {V H : Type 0}
      → (String → V)
      → (AuditChainEvent D → List (String × V))
      → ℕ
      → String
      → String
      → AuditChainEvent D
      → AuditChain D V H
      → AuditChain D V H
  unfolding buffer_event
  push_event text as_payload max_queue_size buffer_id timestamp event s = record s {
    chain = s.chain ++ event ∷ [];
    offline_buffer =
        buffer_event text as_payload max_queue_size buffer_id timestamp event s.offline_buffer;
    exported = s.exported ++ map (λ h. (h, event)) s.export_handlers;
  }

  -- An exception of `_sign` leaves `append`.
  unfoldable pub append :
      {V H : Type 0}
      → (String → V)
      → (AuditChainEvent D → List (String × V))
      → ℕ
      → String
      → String
      → String
      → AuditEventInput D
      → AuditChain D V H
      → AuditChain D V H × Option (AuditChainEvent D)
  unfolding make_body sign push_event
  append text as_payload max_queue_size event_id buffer_id timestamp input s =
      let body = make_body event_id timestamp input s in
      elim (sign s.private_key_pem (crypto.sha256 (crypto.stringify_body body))) [
        | none ↦ (s, none)
        | some signature ↦
            let event = seal s.public_key_pem body signature in
            (push_event text as_payload max_queue_size buffer_id timestamp event s, some event)
      ]

  -- An exception of the verifier is caught.
  unfoldable pub verify_by : String → String → String → Bool
  verify_by message signature public_key_pem =
      elim (crypto.create_verify "ed25519" message public_key_pem signature) [
        | none ↦ false
        | some accepted ↦ accepted
      ]

  -- `_verify`: a key that is empty accepts every signature.
  unfoldable pub verify_signature : String → String → String → Bool
  unfolding verify_by
  verify_signature message signature public_key_pem =
      if public_key_pem == "" then true else verify_by message signature public_key_pem

  -- The third test, on the event before if there is one.
  unfoldable pub is_linked : Option (AuditChainEvent D) → AuditChainEvent D → Bool
  is_linked none event = true
  is_linked (some previous) event =
      event.body.previous_event_hash == crypto.sha256 (crypto.stringify_event previous)

  abbrev pub broken : ℕ → ChainError → ChainVerificationResult
  broken i e = record {
    valid = false;
    checked_count = suc i;
    first_broken_at = some i;
    error = some e;
  }

  -- The loop from position `i` on, where `previous` is the event at `i - 1`.
  unfoldable pub verify_from :
      ℕ → Option (AuditChainEvent D) → List (AuditChainEvent D) → ChainVerificationResult
  unfolding verify_signature is_linked
  verify_from i previous [] = record {
    valid = true;
    checked_count = i;
    first_broken_at = none;
    error = none;
  }
  verify_from i previous (event ∷ events) =
      let rest = verify_from (suc i) (some event) events in
      if crypto.sha256 (crypto.stringify_body event.body) == event.self_hash
      then (if verify_signature event.self_hash event.signature event.public_key_pem
          then (if is_linked previous event then rest else broken i link_broken)
          else broken i signature_invalid)
      else broken i self_hash_mismatch

  unfoldable pub verify_chain : List (AuditChainEvent D) → ChainVerificationResult
  unfolding verify_from
  verify_chain events = verify_from 0 none events

-- `last ? chain.slice(-last) : [...chain]`
unfoldable pub get_chain : {D V H : Type 0} → Option ℕ → AuditChain D V H → List (AuditChainEvent D)
get_chain none s = s.chain
get_chain (some zero) s = s.chain
get_chain (some (suc n)) s = drop (length s.chain - suc n) s.chain

unfoldable pub on_audit_event : {D V H : Type 0} → H → AuditChain D V H → AuditChain D V H
on_audit_event handler s = record s { export_handlers = s.export_handlers ++ handler ∷ [] }
