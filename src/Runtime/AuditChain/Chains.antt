-- ===== src/Runtime/AuditChain/Chains.antt =====
-- Which lists of events `verifyChain` accepts
-- (eyeflow-server/src/runtime/crypto-audit-chain.service.ts).
use eyeflow.Common.{
  ℕ, suc, ◌≡◌, ◌↔◌, ◌≢◌, refl, ap, ◌∙◌, ◌⊎◌, inl, inr, String, true, false, Option, none, some,
  List, [], ◌∷◌, ◌++◌, arith, Option-cases,
}
use eyeflow.Common.Eq.{string_equality}
use eyeflow.Runtime.AuditChain.{
  AuditChainEvent, AuditBody, AuditEventInput, AuditChain, Cryptography, previous_hash, sign,
  make_body, seal, push_event, append, verify_by, verify_signature, is_linked, verify_from,
  verify_chain,
}

module _ {D : Type 0} (crypto : Cryptography D) where
  -- The event's hash is that of its body, and node's verifier accepts its signature under its key if
  -- it has one.
  pub IsGenuine : AuditChainEvent D → Type 0
  IsGenuine e =
      (crypto.sha256 (crypto.stringify_body e.body) ≡ e.self_hash)
      × ((e.public_key_pem ≡ "")
          ⊎ (crypto.create_verify "ed25519" e.self_hash e.public_key_pem e.signature ≡ some true))

  -- The first event of the list, if any, names the digest of `e`.
  pub Precedes : AuditChainEvent D → List (AuditChainEvent D) → Type 0
  Precedes e [] = Unit
  Precedes e (f ∷ fs) = f.body.previous_event_hash ≡ crypto.sha256 (crypto.stringify_event e)

  -- Every event is genuine and names the digest of the event before it; the first may name any.
  pub IsChain : List (AuditChainEvent D) → Type 0
  unfolding IsGenuine Precedes
  IsChain [] = Unit
  IsChain (e ∷ es) = IsGenuine e × (Precedes e es × IsChain es)

  verify_by_iff :
      (message signature key : String)
      → (verify_by crypto message signature key ≡ true)
        ↔ (crypto.create_verify "ed25519" message key signature ≡ some true)
  unfolding verify_by
  verify_by_iff message signature key =
      elim (Option-cases (crypto.create_verify "ed25519" message key signature)) [
        | inl thrown ↦ (
          λ h. absurd (let clash = rw (thrown, verify_by) at h in cc),
          λ k. rw (k, verify_by) refl,
        )
        | inr (answer, e) ↦ (λ h. e ∙ ap some (rw (e, verify_by) at h), λ k. rw (k, verify_by) refl)
      ]

  verify_signature_iff :
      (message signature key : String)
      → (verify_signature crypto message signature key ≡ true)
        ↔ ((key ≡ "") ⊎ (crypto.create_verify "ed25519" message key signature ≡ some true))
  unfolding verify_signature
  verify_signature_iff message signature key =
      let by = verify_by_iff message signature key in
      let test = string_equality.test_iff key "" in ground arith

  verify_from_iff :
      (i : ℕ) (previous : AuditChainEvent D) (es : List (AuditChainEvent D))
      → ((verify_from crypto i (some previous) es).valid ≡ true)
        ↔ (Precedes previous es × IsChain es)
  unfolding verify_from is_linked Precedes IsChain IsGenuine
  verify_from_iff i previous [] = (λ h. (tt, tt), λ h. refl)
  verify_from_iff i previous (e ∷ es) =
      let ih = verify_from_iff (suc i) e es in
      let v = verify_signature_iff e.self_hash e.signature e.public_key_pem in
      let a = string_equality.test_iff (crypto.sha256 (crypto.stringify_body e.body)) e.self_hash in
      let b =
        string_equality.test_iff e.body.previous_event_hash
          (crypto.sha256 (crypto.stringify_event previous)) in
      ground arith

  -- `verifyChain` answers `valid` exactly for the lists in which every event's hash is the digest of
  -- its body, its signature verifies or its key is empty, and every event but the first names the
  -- digest of the event before it.
  pub verify_chain_iff :
      (events : List (AuditChainEvent D))
      → ((verify_chain crypto events).valid ≡ true) ↔ IsChain events
  unfolding verify_chain verify_from is_linked IsChain IsGenuine
  verify_chain_iff [] = (λ h. tt, λ h. refl)
  verify_chain_iff (e ∷ es) =
      let rest = verify_from_iff 1 e es in
      let v = verify_signature_iff e.self_hash e.signature e.public_key_pem in
      let a = string_equality.test_iff (crypto.sha256 (crypto.stringify_body e.body)) e.self_hash in
      ground arith

  IsChain-snoc :
      (es : List (AuditChainEvent D)) (e : AuditChainEvent D)
      → IsChain es
      → IsGenuine e
      → e.body.previous_event_hash ≡ previous_hash crypto es
      → IsChain (es ++ e ∷ [])
  unfolding IsChain Precedes previous_hash
  IsChain-snoc [] e c g link = (g, (tt, tt))
  IsChain-snoc (x ∷ []) e c g link = (c.0, (link, (g, (tt, tt))))
  IsChain-snoc (x ∷ y ∷ es) e c g link = (c.0, (c.1.0, IsChain-snoc (y ∷ es) e c.1.1 g link))

  -- What `append` leaves of a chain that `verifyChain` accepts.
  pub Appended :
      {V H : Type 0} → AuditChain D V H → AuditChain D V H × Option (AuditChainEvent D) → Type 0
  Appended s (after, none) = after ≡ s
  Appended s (after, some event) = ((verify_chain crypto after.chain).valid ≡ true) ↔ (
      (s.public_key_pem ≡ "")
      ⊎ (crypto.create_verify "ed25519" event.self_hash s.public_key_pem event.signature
          ≡ some true))

  IsChain-last :
      (es : List (AuditChainEvent D)) (e : AuditChainEvent D) → IsChain (es ++ e ∷ []) → IsGenuine e
  unfolding IsChain
  IsChain-last [] e c = c.0
  IsChain-last (x ∷ es) e c = IsChain-last es e c.1.1

  IsChain-middle :
      (older middle newer : List (AuditChainEvent D))
      → IsChain (older ++ middle ++ newer)
      → IsChain middle
  unfolding IsChain Precedes
  IsChain-middle (x ∷ older) middle newer c = IsChain-middle older middle newer c.1.1
  IsChain-middle [] [] newer c = tt
  IsChain-middle [] (m ∷ []) newer c = (c.0, (tt, tt))
  IsChain-middle [] (m ∷ n ∷ middle) newer c =
      (c.0, (c.1.0, IsChain-middle [] (n ∷ middle) newer c.1.1))

seal_iff :
    {D : Type 0} (crypto : Cryptography D) (key : String) (body : AuditBody D) (signature : String)
    (chain : List (AuditChainEvent D))
    → (verify_chain crypto chain).valid ≡ true
    → body.previous_event_hash ≡ previous_hash crypto chain
    → ((verify_chain crypto (chain ++ seal crypto key body signature ∷ [])).valid ≡ true) ↔ (
        (key ≡ "")
        ⊎ (crypto.create_verify "ed25519" (crypto.sha256 (crypto.stringify_body body)) key signature
            ≡ some true))
seal_iff crypto key body signature chain h link =
    let e = seal crypto key body signature in
    let chains = verify_chain_iff crypto (chain ++ e ∷ []) in
    let before = (verify_chain_iff crypto chain).0 h in
    (
      λ valid. (unfold IsGenuine in (IsChain-last crypto chain e (chains.0 valid)).1),
      λ accepted.
          chains.1 (IsChain-snoc crypto chain e before (unfold IsGenuine in (refl, accepted)) link),
    )

Appended-rejected :
    {D V H : Type 0} (crypto : Cryptography D) (s : AuditChain D V H)
    (result : AuditChain D V H × Option (AuditChainEvent D))
    → ((message key signature : String)
        → crypto.create_verify "ed25519" message key signature ≡ none)
    → s.public_key_pem ≢ ""
    → (event : AuditChainEvent D) → Appended crypto s result
    → result.1 ≡ some event
    → (verify_chain crypto result.0.chain).valid ≡ false
unfolding Appended
Appended-rejected crypto s (after, none) unknown key event a e = absurd (cc)
Appended-rejected crypto s (after, some made) unknown key event a e =
    let thrown = unknown made.self_hash s.public_key_pem made.signature in ground arith

-- From a chain that `verifyChain` accepts: if `append` throws, nothing has changed; otherwise the
-- chain with the new event is accepted exactly if the service has no public key or node's verifier
-- accepts the event's signature under that key.
pub append-Appended :
    {D V H : Type 0} (crypto : Cryptography D) (text : String → V)
    (as_payload : AuditChainEvent D → List (String × V)) (max_queue_size : ℕ)
    (event_id buffer_id timestamp : String) (input : AuditEventInput D) (s : AuditChain D V H)
    → (verify_chain crypto s.chain).valid ≡ true
    → Appended crypto s
        (append crypto text as_payload max_queue_size event_id buffer_id timestamp input s)
unfolding append push_event Appended
append-Appended crypto text as_payload max_queue_size event_id buffer_id timestamp input s h =
    let body = make_body crypto event_id timestamp input s in
    let digest = crypto.sha256 (crypto.stringify_body body) in
    elim (Option-cases (sign crypto s.private_key_pem digest)) [
      | inl thrown ↦ rw (thrown, append) refl
      | inr (signature, e) ↦
          rw (e, append)
            (seal_iff crypto s.public_key_pem body signature s.chain h (unfold make_body in refl))
    ]

-- Where node has no algorithm of the name `ed25519`, so that its verifier throws, a service with a
-- public key breaks its own chain by the first event that it signs.
pub append-rejected :
    {D V H : Type 0} (crypto : Cryptography D) (text : String → V)
    (as_payload : AuditChainEvent D → List (String × V)) (max_queue_size : ℕ)
    (event_id buffer_id timestamp : String) (input : AuditEventInput D) (s : AuditChain D V H)
    → ((message key signature : String)
        → crypto.create_verify "ed25519" message key signature ≡ none)
    → s.public_key_pem ≢ ""
    → (verify_chain crypto s.chain).valid ≡ true
    → (event : AuditChainEvent D)
    → (append crypto text as_payload max_queue_size event_id buffer_id timestamp input s).1
      ≡ some event
    → (verify_chain crypto
        (append crypto text as_payload max_queue_size event_id buffer_id timestamp input
          s).0.chain).valid
      ≡ false
append-rejected crypto text as_payload max_queue_size event_id buffer_id timestamp input s unknown
      key h event e =
    Appended-rejected crypto s _ unknown key event
      (append-Appended crypto text as_payload max_queue_size event_id buffer_id timestamp input s h)
      e

-- A deletion at either end goes unnoticed: of a chain that `verifyChain` accepts it accepts every
-- segment, with any number of the oldest and of the newest events missing.
pub verify_chain-segment :
    {D : Type 0} (crypto : Cryptography D) (older middle newer : List (AuditChainEvent D))
    → (verify_chain crypto (older ++ middle ++ newer)).valid ≡ true
    → (verify_chain crypto middle).valid ≡ true
verify_chain-segment crypto older middle newer h = (verify_chain_iff crypto middle).1 (
    IsChain-middle crypto older middle newer
      ((verify_chain_iff crypto (older ++ middle ++ newer)).0 h))
