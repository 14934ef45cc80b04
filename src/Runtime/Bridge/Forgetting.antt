-- ===== src/Runtime/Bridge/Forgetting.antt =====
-- forgetRequest drops a request without answering it. A callback that already waits on the channel
-- of a forgotten request is never answered: no later operation reaches that channel.
use copilot_sdkapi.Runtime.Bridge.Stranded.{IsStranded, run-IsStranded}
use copilot_sdkapi.Base.{
  String, ◌≡◌, ◌≢◌, false, none, some, List, lookup, lookup-delete, arith, eq_iff, ◌==◌,
}
use copilot_sdkapi.Strings.{trim_space}
use copilot_sdkapi.Runtime.Bridge.Preserved.{forget_request-IsWellFormed}
use copilot_sdkapi.Runtime.Bridge.Defs.{Bridge, PendingResolution, forget_request}
use copilot_sdkapi.Runtime.Bridge.Invariant.{IsWellFormed}
use copilot_sdkapi.Runtime.Bridge.History.{Operation, run}

forget_request-IsStranded_self :
    (id : String) (p : PendingResolution) (b : Bridge)
    → IsWellFormed b
    → trim_space id ≡ id
    → lookup id b.pending_by_request ≡ some p
    → b.boxes p.box ≡ none
    → IsStranded p.box (forget_request id b)
unfolding forget_request
forget_request-IsStranded_self id p b w trimmed found empty =
    let (named, blank, made) = w.registry.sound id p found in
    rw (trimmed, not_blank blank, found)
      (record {
        made = made;
        empty = empty;
        orphan = λ j q listed same.
            let gone : j ≡ id =
              w.registry.apart j id q p (ground (arith, lookup-delete id j b.pending_by_request))
                found same in
            ground (arith, lookup-delete id j b.pending_by_request, eq_iff id j);
      })
  where
    not_blank : id ≢ "" → (id == "") ≡ false
    not_blank h = ground (arith, eq_iff id "")

-- In a well-formed bridge, if a pending request is forgotten under its trimmed id while its channel
-- is empty, the channel stays empty whatever operations follow, cancelAll included: a callback that
-- waits on it never returns.
pub forget_strands :
    (id : String) (p : PendingResolution) (b : Bridge) (os : List Operation)
    → IsWellFormed b
    → trim_space id ≡ id
    → lookup id b.pending_by_request ≡ some p
    → b.boxes p.box ≡ none
    → (run os (forget_request id b)).boxes p.box ≡ none
forget_strands id p b os w trimmed found empty =
    (run-IsStranded p.box os (forget_request id b) (forget_request-IsWellFormed id b w)
      (forget_request-IsStranded_self id p b w trimmed found empty)).empty
