-- ===== src/Approval/Crypto.antt =====
-- What the approval package takes from Python's hashlib, hmac and json: digests as hexadecimal
-- text, and the texts that are hashed. Times are milliseconds, the precision of a ticket's expiry.
use subagent_bridge.Prelude.{ℕ, String, List}

pub record Crypto : Type 0 where
  -- sha256(text.encode()).hexdigest()
  pub sha256 : String → String
  -- hmac.new(secret.encode(), text.encode(), sha256).hexdigest()
  pub hmac : String → String → String
  -- json.dumps of {"command", "workspace_path", "task_id"} with sorted keys
  pub dumps : List String → String → String → String
  -- f"{expiry:.3f}"
  pub show_time : ℕ → String
