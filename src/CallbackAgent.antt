-- ===== src/CallbackAgent.antt =====
-- quelay-agent/src/callback.rs: the thread that owns the connection to the client's callback service.
-- A connection is its number; whether a connect, a ping or a call succeeds comes with the command.
pub mod Delivery
pub mod Tests
use mathlib.Core.Option
use quelay.Common.{ℕ, suc, Bool, true, false, Option, none, some, List, [], ◌∷◌, ◌++◌}
use quelay.Common.Int.{ℤ, pos, u64_as_i64}
use quelay.Domain.Session.{StreamInfo, QueueStatus, LinkState}
use quelay.Domain.Callback.{FailReason}
use quelay.Mapping.{
  WireStreamInfo, stream_info_to_wire, WireProgressInfo, WireLinkState, link_state_to_wire,
  UuidText, WireQueueStatus, queue_status_to_wire,
}

module _ (Endpoint Attrs Float Message : Type 0) where
  pub data CallbackCmd : Type 0 where
    register : Endpoint → CallbackCmd
    ping : CallbackCmd
    stream_started : ℕ → StreamInfo Attrs → ℕ → CallbackCmd
    stream_progress : ℕ → ℕ → Option Float → CallbackCmd
    stream_done : ℕ → ℕ → ℕ → CallbackCmd
    stream_failed : ℕ → FailReason → Message → CallbackCmd
    link_status : LinkState → CallbackCmd
    queue_status : QueueStatus → CallbackCmd

module _ (u : UuidText) (Attrs Float Message : Type 0) where
  open u use {Text}

  -- The calls of the callback service; a port is an `i32`.
  pub data Call : Type 0 where
    started : Text → WireStreamInfo Attrs → ℕ → Call
    progress : Text → WireProgressInfo Float → Call
    done : Text → ℤ → ℤ → Call
    failed : Text → FailReason → Message → Call
    link_status_update : WireLinkState → Call
    queue_status_update : WireQueueStatus Text → Call

-- The live connection, and how many there have been.
pub record CallbackAgent : Type 0 where
  pub client : Option ℕ
  pub connections : ℕ

unfoldable pub new : CallbackAgent
new = record { client = none; connections = 0 }

-- `Register`: the old connection is dropped first.
unfoldable pub connect : Bool → CallbackAgent → CallbackAgent
connect true a = record { client = some a.connections; connections = suc a.connections }
connect false a = record a { client = none }

unfoldable pub on_ping : Bool → CallbackAgent → CallbackAgent
on_ping true a = a
on_ping false a = record a { client = none }

-- `fire`: the calls that arrive, each with its connection. An error marks the client dead.
unfoldable pub fire : {C : Type 0} → Bool → C → CallbackAgent → CallbackAgent × List (ℕ × C)
fire call_ok c a = elim a.client [
  | none ↦ (a, [])
  | some id ↦ elim call_ok [ true ↦ (a, (id, c) ∷ []) | false ↦ (record a { client = none }, []) ]
]

module _ (u : UuidText) {Endpoint Attrs Float Message : Type 0} where
  open u use {to_string}

  -- The closure that `fire` is given, for the commands that call the client.
  unfoldable pub call_of :
      CallbackCmd Endpoint Attrs Float Message → Option (Call u Attrs Float Message)
  unfolding stream_info_to_wire link_state_to_wire queue_status_to_wire
  call_of (register endpoint) = none
  call_of ping = none
  call_of (stream_started uuid info port) =
      some (started (to_string uuid) (stream_info_to_wire info) port)
  call_of (stream_progress uuid bytes percent) = some (
      progress (to_string uuid) (record {
        bytes_transferred = some (u64_as_i64 bytes);
        size_bytes = none;
        percent_done = percent;
      }))
  call_of (stream_done uuid bytes bytes_wire) =
      some (done (to_string uuid) (u64_as_i64 bytes) (u64_as_i64 bytes_wire))
  call_of (stream_failed uuid code reason) = some (failed (to_string uuid) code reason)
  call_of (link_status state) = some (link_status_update (link_state_to_wire state))
  call_of (queue_status status) = some (queue_status_update (queue_status_to_wire u status))

  -- One pass of the loop of `run`.
  unfoldable pub on_cmd :
      CallbackCmd Endpoint Attrs Float Message
      → Bool
      → CallbackAgent
      → CallbackAgent × List (ℕ × Call u Attrs Float Message)
  unfolding call_of fire connect on_ping
  on_cmd (register endpoint) success a = (connect success a, [])
  on_cmd ping success a = (on_ping success a, [])
  on_cmd cmd success a = elim (call_of cmd) [ none ↦ (a, []) | some c ↦ fire success c a ]

  unfoldable pub run :
      List (CallbackCmd Endpoint Attrs Float Message × Bool)
      → CallbackAgent
      → CallbackAgent × List (ℕ × Call u Attrs Float Message)
  unfolding on_cmd
  run [] a = (a, [])
  run ((cmd, success) ∷ rest) a =
      let (a', sent) = on_cmd cmd success a in
      let (a'', later) = run rest a' in (a'', sent ++ later)
