-- ===== src/Approval/Authority/Tickets.antt =====
-- A ticket and its check: what is issued is accepted until it expires, and for one context only.
use subagent_bridge.Prelude.{
  ℕ, ◌+◌, ◌≤◌, String, true, false, ◌&&◌, ◌≡◌, ◌≢◌, ◌⊎◌, inl, inr, sym, ap, ◌∙◌, List, ltb, leb,
  arith, eq_iff, ==→eq, ==_refl, Bool-cases, ◌==◌, if◌then◌else◌,
}
use subagent_bridge.Prelude.Exec.{ok}
use subagent_bridge.Prelude.Text.{is_blank, text_length}
use subagent_bridge.Approval.Crypto.{Crypto}
use subagent_bridge.Approval.Broker.{is_ascii}
use subagent_bridge.Approval.Authority.{
  granted, denied, TrustedApprovalAuthority, Ticket, new_ticket, compute_action_resource,
  ticket_payload, issue_execution_ticket, verify_ticket_binding, ticket_expired,
}
use subagent_bridge.Approval.Authority.Consumes.{issue_cases}

-- The digests of `hexdigest`: 64 ASCII characters.
abbrev pub IsHex : Crypto → Type 0
IsHex crypto =
    (key message : String)
    → (text_length (crypto.hmac key message) ≡ 64) × (is_ascii (crypto.hmac key message) ≡ true)

-- `json.dumps` writes different arguments differently.
abbrev pub IsInjective : Crypto → Type 0
IsInjective crypto =
    (c d : List String) (p q t u : String)
    → crypto.dumps c p t ≡ crypto.dumps d q u
    → (c ≡ d) × (p ≡ q) × (t ≡ u)

abbrev pub IsCollision : Crypto → String → String → Type 0
IsCollision crypto m n = (m ≢ n) × (crypto.sha256 m ≡ crypto.sha256 n)

-- The same worker, task, command and workspace.
abbrev pub IsContext :
    String → String → String → String → List String → List String → String → String → Type 0
IsContext worker worker' task task' command command' path path' =
    (worker ≡ worker') × (task ≡ task') × (command ≡ command') × (path ≡ path')

module _ (crypto : Crypto) where
  -- An issued ticket, and what its issue rests on.
  issued-is_new :
      (id worker task : String) (command : List String) (path secret : String)
      (ttl now issued_at : ℕ) (s : TrustedApprovalAuthority) (ticket : Ticket)
      → (issue_execution_ticket crypto id worker task command path secret ttl now issued_at s).0
        ≡ ok (granted ticket)
      → (ticket
          ≡ new_ticket crypto id worker task
              (compute_action_resource crypto command path task)
              (issued_at + ttl)
              secret)
        × ((ltb 0 ttl && leb ttl 60000) ≡ true)
        × (is_blank id ≡ false)
  issued-is_new id worker task command path secret ttl now issued_at s ticket e =
      elim (issue_cases crypto id worker task command path secret ttl now issued_at s) [
        | inl refused ↦ absurd (ground (arith, refused.answer, e))
        | inr (answer, fine, c) ↦ (cc, fine, c.named)
      ]

  verify_new :
      (id worker task : String) (command : List String) (path secret : String) (expiry t : ℕ)
      → IsHex crypto
      → is_blank id ≡ false
      → leb expiry (t + 60000) ≡ true
      → verify_ticket_binding crypto
          (new_ticket crypto id worker task
            (compute_action_resource crypto command path task)
            expiry
            secret)
          secret
          worker
          task
          command
          path
          t
        ≡ (if ltb t expiry then granted tt else denied ticket_expired)
  unfolding verify_ticket_binding
  verify_new id worker task command path secret expiry t hex named within =
      let resource = compute_action_resource crypto command path task in
      let payload = ticket_payload crypto id worker task resource expiry in
      let digest = crypto.hmac secret payload in
      rw
        (
          named,
          ==_refl worker,
          ==_refl task,
          (hex secret payload).0,
          (hex secret payload).1,
          within,
          ==_refl resource,
          ==_refl digest,
        )
        (ground arith)

  -- A ticket that was issued is accepted by the check in the worker from its issue until its
  -- deadline, and from the deadline on it is refused as expired, provided digests are 64 ASCII
  -- characters.
  pub issued_ticket_is_valid :
      (id worker task : String) (command : List String) (path secret : String)
      (ttl now issued_at t : ℕ) (s : TrustedApprovalAuthority) (ticket : Ticket)
      → IsHex crypto
      → (issue_execution_ticket crypto id worker task command path secret ttl now issued_at s).0
        ≡ ok (granted ticket)
      → issued_at ≤ t
      → verify_ticket_binding crypto ticket secret worker task command path t
        ≡ (if ltb t (issued_at + ttl) then granted tt else denied ticket_expired)
  issued_ticket_is_valid id worker task command path secret ttl now issued_at t s ticket hex e
        later =
      let new = issued-is_new id worker task command path secret ttl now issued_at s ticket e in
      rw new.0 (
        verify_new id worker task command path secret (issued_at + ttl) t hex new.2
          (ground (arith, new.1)))

  -- What the check compares, when it accepts.
  verify-binds :
      (ticket : Ticket) (worker task : String) (command : List String) (path secret : String)
      (t : ℕ)
      → verify_ticket_binding crypto ticket secret worker task command path t ≡ granted tt
      → (ticket.worker_id ≡ worker)
        × (ticket.task_id ≡ task)
        × (ticket.resource ≡ compute_action_resource crypto command path task)
  unfolding verify_ticket_binding
  verify-binds ticket worker task command path secret t e =
      let resource = compute_action_resource crypto command path task in
      (
        ==→eq ticket.worker_id worker (ground arith),
        ==→eq ticket.task_id task (ground arith),
        ==→eq ticket.resource resource (ground arith),
      )

  -- A ticket is for one context: if the check accepts an issued ticket, under whatever secret and
  -- at whatever time, then for the worker, task, command and workspace of its issue, unless two
  -- different texts have the same SHA-256. `json.dumps` is taken to be injective.
  pub accepted-IsContext :
      (id worker worker' task task' : String) (command command' : List String)
      (path path' secret secret' : String) (ttl now issued_at t : ℕ) (s : TrustedApprovalAuthority)
      (ticket : Ticket)
      → IsInjective crypto
      → (issue_execution_ticket crypto id worker task command path secret ttl now issued_at s).0
        ≡ ok (granted ticket)
      → verify_ticket_binding crypto ticket secret' worker' task' command' path' t ≡ granted tt
      → IsContext worker worker' task task' command command' path path'
        ⊎ IsCollision crypto (crypto.dumps command path task) (crypto.dumps command' path' task')
  unfolding compute_action_resource
  accepted-IsContext id worker worker' task task' command command' path path' secret secret' ttl now
        issued_at t s ticket injective e v =
      let new = (issued-is_new id worker task command path secret ttl now issued_at s ticket e).0 in
      let bound = verify-binds ticket worker' task' command' path' secret' t v in
      let here = crypto.dumps command path task in
      let there = crypto.dumps command' path' task' in
      let digests : crypto.sha256 here ≡ crypto.sha256 there =
        ap (λ x. x.resource) (sym new) ∙ bound.2 in
      elim (Bool-cases (here == there)) [
        | inl same ↦
            let parts = injective command command' path path' task task' (==→eq here there same) in
            inl (ap (λ x. x.worker_id) (sym new) ∙ bound.0, parts.2, parts.0, parts.1)
        | inr other ↦ inr (ground (arith, eq_iff here there), digests)
      ]
