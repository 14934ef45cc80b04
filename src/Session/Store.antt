-- ===== src/Session/Store.antt =====
-- internal/session/store.go: StoredSession and the Store interface.
use copilot_sdkapi.Base.{ℕ, String, Option}
use copilot_sdkapi.Errors.{GoError, Result}
use copilot_sdkapi.Session.Spec.{Spec}

-- time.Time, in nanoseconds since its zero value.
abbrev pub Time : Type 0
Time = ℕ

pub record StoredSession : Type 0 where
  pub session_id : String
  pub spec : Spec
  pub created_at : Time
  pub updated_at : Time

-- A store over a state of its own; a nil error is `none`.
pub record Store (S : Type 0) : Type 0 where
  pub load : String → S → Result (Option StoredSession)
  pub save : String → StoredSession → S → S × Option GoError
  pub delete : String → S → S × Option GoError
