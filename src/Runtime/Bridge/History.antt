-- ===== src/Runtime/Bridge/History.antt =====
-- Histories of the bridge: its critical sections in any order, as the goroutines interleave them.
use copilot_sdkapi.Base.{ℕ, String, Option, List, [], ◌∷◌}
use copilot_sdkapi.Errors.{GoError}
use copilot_sdkapi.Json.{Value}
use copilot_sdkapi.Runtime.Types.{
  PendingResponse, PermissionRequestSummary, UserInputRequestSummary,
}
use copilot_sdkapi.Runtime.Bridge.Defs.{
  Bridge, new_bridge, register_tool, register_user_input, register_permission, resolve,
  forget_request, cancel_all, receive,
}
use copilot_sdkapi.Runtime.Bridge.Waiting.{take_permission, take_user_input}
use copilot_sdkapi.Runtime.Bridge.Taking.{
  take_permission-IsWellFormed, take_user_input-IsWellFormed,
}
use copilot_sdkapi.Runtime.Bridge.Invariant.{IsWellFormed, new_bridge-IsWellFormed}
use copilot_sdkapi.Runtime.Bridge.Preserved.{
  register_tool-IsWellFormed, register_user_input-IsWellFormed, register_permission-IsWellFormed,
  resolve-IsWellFormed, forget_request-IsWellFormed, cancel_all-IsWellFormed, receive-IsWellFormed,
}

pub data Operation : Type 0 where
  registers_tool : (id call name : String) → Value → Operation
  registers_user_input : String → Option UserInputRequestSummary → Operation
  registers_permission : (id call : String) → Option PermissionRequestSummary → Operation
  resolves : PendingResponse → Operation
  forgets : String → Operation
  cancels : GoError → Operation
  receives : ℕ → Operation
  takes_permission takes_user_input : Operation

unfoldable pub step : Operation → Bridge → Bridge
step (registers_tool id call name arguments) b = register_tool id call name arguments b
step (registers_user_input id summary) b = register_user_input id summary b
step (registers_permission id call summary) b = register_permission id call summary b
step (resolves response) b = (resolve response b).0
step (forgets id) b = forget_request id b
step (cancels e) b = cancel_all e b
step (receives n) b = (receive n b).0
step takes_permission b = (take_permission b).0
step takes_user_input b = (take_user_input b).0

unfoldable pub run : List Operation → Bridge → Bridge
run [] b = b
run (o ∷ os) b = run os (step o b)

pub step-IsWellFormed : (o : Operation) (b : Bridge) → IsWellFormed b → IsWellFormed (step o b)
unfolding step
step-IsWellFormed (registers_tool id call name arguments) b w =
    register_tool-IsWellFormed id call name arguments b w
step-IsWellFormed (registers_user_input id summary) b w =
    register_user_input-IsWellFormed id summary b w
step-IsWellFormed (registers_permission id call summary) b w =
    register_permission-IsWellFormed id call summary b w
step-IsWellFormed (resolves response) b w = resolve-IsWellFormed response b w
step-IsWellFormed (forgets id) b w = forget_request-IsWellFormed id b w
step-IsWellFormed (cancels e) b w = cancel_all-IsWellFormed e b w
step-IsWellFormed (receives n) b w = receive-IsWellFormed n b w
step-IsWellFormed takes_permission b w = take_permission-IsWellFormed b w
step-IsWellFormed takes_user_input b w = take_user_input-IsWellFormed b w

run_from-IsWellFormed :
    (os : List Operation) (b : Bridge) → IsWellFormed b → IsWellFormed (run os b)
unfolding run
run_from-IsWellFormed [] b w = w
run_from-IsWellFormed (o ∷ os) b w = run_from-IsWellFormed os (step o b) (step-IsWellFormed o b w)

-- After any history of a new bridge: no two pending requests share a channel, every entry stands
-- under its own id, and each queue lists pending requests of its kind, each once.
pub run-IsWellFormed : (os : List Operation) → IsWellFormed (run os new_bridge)
run-IsWellFormed os = run_from-IsWellFormed os new_bridge new_bridge-IsWellFormed
