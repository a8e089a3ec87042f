-- ===== src/Runtime/AuditChain/Examples.antt =====
-- A short chain (eyeflow-server/src/runtime/crypto-audit-chain.service.ts).
use Prim.Native.String
use eyeflow.Common.{
  ℕ, ◌≡◌, ◌↔◌, ◌≢◌, refl, String, if◌then◌else◌, true, false, none, some, [], ◌∷◌, ◌++◌,
}
use eyeflow.Common.Eq.{◌==◌, string_equality}
use eyeflow.Runtime.OfflineBuffer.{notify_connected, start}
use eyeflow.Runtime.AuditChain.{
  AuditChainEvent, AuditEventInput, AuditChain, Cryptography, make_body, seal, append, verify_chain,
}
use eyeflow.Runtime.AuditChain.Chains.{
  IsChain, verify_chain_iff, Appended, append-Appended, append-rejected, verify_chain-segment,
}

-- Texts for digests; a signature is the signed text. SHA256 signs with no key of this kind.
abbrev toy : Cryptography ℕ
toy = record {
  stringify_body = λ b. String.◌++◌ b.event_id b.previous_event_hash;
  stringify_event = λ e. e.self_hash;
  sha256 = λ text. String.◌++◌ "#" text;
  create_sign = λ algorithm text key. if algorithm == "ed25519" then some text else none;
  create_verify = λ algorithm text key signature. some (text == signature);
}

-- Without the algorithm `ed25519`.
abbrev plain : Cryptography ℕ
plain = record toy {
  create_sign = λ algorithm text key. if algorithm == "SHA256" then some text else none;
  create_verify = λ algorithm text key signature.
      if algorithm == "SHA256" then some (text == signature) else none;
}

abbrev input : AuditEventInput ℕ
input = record {
  workflow_id = "w";
  workflow_version = none;
  instruction_id = none;
  event_type = "LLM_CALL";
  input = none;
  output = some "1";
  duration_ms = none;
  details = none;
}

abbrev empty_chain : AuditChain ℕ ℕ ℕ
empty_chain = record {
  chain = [];
  node_id = "central-nestjs";
  private_key_pem = "private";
  public_key_pem = "public";
  export_handlers = 1 ∷ 2 ∷ [];
  exported = [];
  offline_buffer = some (notify_connected false (start none)).0;
}

abbrev add : String → AuditChain ℕ ℕ ℕ → AuditChain ℕ ℕ ℕ
add id s = (append toy (λ t. 0) (λ e. ("eventId", 1) ∷ []) 10 id "buf" "now" input s).0

abbrev three_events : AuditChain ℕ ℕ ℕ
three_events = add "c" (add "b" (add "a" empty_chain))

empty_valid : (verify_chain toy empty_chain.chain).valid ≡ true
unfolding verify_chain
empty_valid = refl

first-Appended :
    Appended toy empty_chain
      (append toy (λ t. 0) (λ e. ("eventId", 1) ∷ []) 10 "a" "buf" "now" input empty_chain)
first-Appended =
    append-Appended toy (λ t. 0) (λ e. ("eventId", 1) ∷ []) 10 "a" "buf" "now" input empty_chain
      empty_valid

empty_valid_plain : (verify_chain plain empty_chain.chain).valid ≡ true
unfolding verify_chain
empty_valid_plain = refl

plain_unknown :
    (message key signature : String) → plain.create_verify "ed25519" message key signature ≡ none
plain_unknown message key signature = refl

has_key : empty_chain.public_key_pem ≢ ""
has_key e = let same = (string_equality.test_iff empty_chain.public_key_pem "").1 e in cc

-- The first event that such a service signs.
abbrev first_event : AuditChainEvent ℕ
first_event =
    seal plain "public" (make_body plain "a" "now" input empty_chain)
      (plain.sha256 (plain.stringify_body (make_body plain "a" "now" input empty_chain)))

first_signed :
    (append plain (λ t. 0) (λ e. ("eventId", 1) ∷ []) 10 "a" "buf" "now" input empty_chain).1
    ≡ some first_event
unfolding append
first_signed = refl

first_rejected :
    (verify_chain plain
      (append plain
        (λ t. 0)
        (λ e. ("eventId", 1) ∷ [])
        10
        "a"
        "buf"
        "now"
        input
        empty_chain).0.chain).valid
    ≡ false
first_rejected =
    append-rejected plain (λ t. 0) (λ e. ("eventId", 1) ∷ []) 10 "a" "buf" "now" input empty_chain
      plain_unknown has_key empty_valid_plain first_event first_signed

three_valid : (verify_chain toy three_events.chain).valid ≡ true
unfolding verify_chain append
three_valid = refl

three_meaning :
    ((verify_chain toy three_events.chain).valid ≡ true) ↔ IsChain toy three_events.chain
three_meaning = verify_chain_iff toy three_events.chain

abbrev event : String → String → AuditChainEvent ℕ
event id previous =
    let self_hash = String.◌++◌ "#" (String.◌++◌ id previous) in
    record {
      body = record {
        event_id = id;
        timestamp = "now";
        node_id = "n";
        workflow_id = "w";
        workflow_version = none;
        instruction_id = none;
        event_type = "LLM_CALL";
        input_hash = "";
        output_hash = "";
        duration_ms = 0;
        details = none;
        previous_event_hash = previous;
      };
      self_hash = self_hash;
      signature = self_hash;
      public_key_pem = "public";
    }

events_valid :
    (verify_chain toy
      ((event "a" "0" ∷ []) ++ (event "b" "##a0" ∷ []) ++ (event "c" "##b##a0" ∷ []))).valid
    ≡ true
unfolding verify_chain
events_valid = refl

middle_valid : (verify_chain toy (event "b" "##a0" ∷ [])).valid ≡ true
middle_valid =
    verify_chain-segment toy (event "a" "0" ∷ []) (event "b" "##a0" ∷ []) (event "c" "##b##a0" ∷ [])
      events_valid

-- An event taken out of the middle is noticed.
gap_found : (verify_chain toy (event "a" "0" ∷ event "c" "##b##a0" ∷ [])).first_broken_at ≡ some 1
unfolding verify_chain
gap_found = refl
