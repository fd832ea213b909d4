-- ===== src/CallbackAgent/Tests.antt =====
-- The callback thread of quelay-agent/src/callback.rs on concrete commands.
use quelay.Common.{ℕ, Bool, true, none, some, List, [], ◌∷◌}
use quelay.Domain.Callback.{link_failed}
use quelay.CallbackAgent.{CallbackCmd, ping, stream_started, stream_failed}

abbrev Cmd : Type 0
Cmd = CallbackCmd ℕ ℕ ℕ ℕ

-- Two streams start; the call for the end of the second fails; a third is not heard of.
abbrev before : List (Cmd × Bool)
before =
    (stream_started 1 (record { size_bytes = none; attrs = 0 }) 4000, true)
    ∷ (ping, true)
    ∷ (stream_started 2 (record { size_bytes = some 10; attrs = 0 }) 4001, true)
    ∷ []

abbrev after : List (Cmd × Bool)
after = (stream_started 3 (record { size_bytes = none; attrs = 0 }) 4002, true) ∷ []

abbrev lost : Cmd
lost = stream_failed 2 link_failed 0
