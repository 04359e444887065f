-- ===== src/Security/Tests.antt =====
-- The properties of the checks at concrete calls.
use agent_workbench.Base.{
  ◌+◌, ◌-◌, ◌*◌, ◌≤◌, ◌≡◌, ◌↔◌, refl, true, ◌||◌, some, List, [], ◌∷◌, all, arith,
}
use agent_workbench.Base.Action.{returned, raised}
use agent_workbench.Base.Dict.{lookup, insert}
use agent_workbench.Security.Authorization.{
  Identity, not_found_for_isolation, has, require_scopes, check_resource_access,
}
use agent_workbench.Security.Authorization.Isolation.{
  check_resource_access-isolated, require_scopes-returned,
}
use agent_workbench.Security.RateLimiter.{RateLimiter, take_token, refill, allow}
use agent_workbench.Security.RateLimiter.Window.{
  Call, allowed_calls, Monotone, last_time, allowed_calls-window,
}

abbrev alice : Identity
alice = record {
  tenant_id = "tenant_a";
  user_id = "alice";
  scopes = "case.read" ∷ "case.approve" ∷ [];
}

check_resource_access-isolated_example :
    check_resource_access alice (some "tenant_b") ("case.read" ∷ []) (some "alice") true
    ≡ raised not_found_for_isolation
check_resource_access-isolated_example =
    check_resource_access-isolated alice "tenant_b" ("case.read" ∷ []) (some "alice") true refl

require_scopes-returned_example :
    (require_scopes alice ("case.read" ∷ []) ≡ returned tt)
    ↔ ((has alice.scopes "*" || all (has alice.scopes) ("case.read" ∷ [])) ≡ true)
require_scopes-returned_example = require_scopes-returned alice ("case.read" ∷ [])

-- Two tokens, one refilled per second, times in tenths of a second.
abbrev limiter : RateLimiter
limiter = record { capacity = 20; rate = 1; unit = 10; buckets = [] }

-- Alice's bucket was last filled at 0: after a long time it is no more than full.
abbrev used_limiter : RateLimiter
used_limiter = record limiter { buckets = ("alice", record { tokens = 0; updated = 0 }) ∷ [] }

abbrev later_calls : List Call
later_calls =
    record { key = "bob"; now = 101 }
    ∷ record { key = "alice"; now = 102 }
    ∷ record { key = "alice"; now = 103 }
    ∷ record { key = "alice"; now = 115 }
    ∷ []

-- Of alice's calls at 100, 102, 103 and 115, three are allowed.
allowed_calls-window_example : 3 * 10 ≤ 20 + (115 - 100) * 1
unfolding allowed_calls allow take_token refill lookup insert Monotone last_time
allowed_calls-window_example =
    allowed_calls-window "alice" used_limiter 100 later_calls
      (omega arith, (omega arith, (omega arith, (omega arith, tt))))
