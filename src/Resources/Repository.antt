-- ===== src/Resources/Repository.antt =====
-- The trait `ResourceRepository` of icn-economics/src/lib.rs, over the state of an implementation.
-- `anyhow` errors are their texts.
use icn_v.Base.{ℕ, String, List, Result}
use icn_v.Resources.Types.{ScopedResourceToken, Clock}

pub record ResourceRepository (S : Type 0) : Type 0 where
  pub record_usage : Clock → String → ScopedResourceToken → S → Result (Unit {0}) String × S
  pub get_usage : String → String → String → S → Result ℕ String
  pub get_usage_history : String → String → String → ℕ → S → Result (List (ℕ × ℕ)) String
