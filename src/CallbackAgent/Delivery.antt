-- ===== src/CallbackAgent/Delivery.antt =====
-- Which events reach the client (quelay-agent/src/callback.rs).
use quelay.Common.{ℕ, ◌≡◌, Bool, true, Option, none, some, List, [], ◌∷◌, ◌++◌, map}
use quelay.Mapping.{UuidText}
use quelay.CallbackAgent.{
  CallbackCmd, register, ping, stream_started, stream_progress, stream_done, stream_failed,
  link_status, queue_status, Call, CallbackAgent, call_of,
}

-- On a connection.
abbrev pub on {ℓ} : {C : Type ℓ} → ℕ → List C → List (ℕ × C)
on id cs = map (λ c. (id, c)) cs

abbrev list_of {ℓ} : {C : Type ℓ} → Option C → List C
list_of none = []
list_of (some c) = c ∷ []

module _ (u : UuidText) {Endpoint Attrs Float Message : Type 0} where
  abbrev IsEvent : CallbackCmd Endpoint Attrs Float Message × Bool → Type 0
  IsEvent (register endpoint, success) = ⊥
  IsEvent (ping, success) = Unit
  IsEvent (stream_started uuid info port, success) = Unit
  IsEvent (stream_progress uuid bytes percent, success) = Unit
  IsEvent (stream_done uuid bytes wire, success) = Unit
  IsEvent (stream_failed uuid code why, success) = Unit
  IsEvent (link_status state, success) = Unit
  IsEvent (queue_status status, success) = Unit

  abbrev Succeeds : CallbackCmd Endpoint Attrs Float Message × Bool → Type 0
  Succeeds (cmd, success) = success ≡ true

  -- The calls of a list of commands.
  unfoldable pub calls :
      List (CallbackCmd Endpoint Attrs Float Message × Bool) → List (Call u Attrs Float Message)
  unfolding call_of
  calls [] = []
  calls ((cmd, success) ∷ rest) = list_of (call_of u cmd) ++ calls rest
