-- ===== src/Session/Modes/Handshake.antt =====
-- internal/session/modes.go: connectAndInitialize and what it calls, with ValidateNegotiation of
-- internal/mcp/protocol.go. What the transport answers is the argument `Server`.
use mcpdrill.Prelude.{
  ℕ, ◌+◌, ◌++◌, List, [], ◌∷◌, Bool, true, false, not, ◌||◌, Option, none, some, if◌then◌else◌, Str,
  str_eq, codes,
}
use mcpdrill.Prelude.Hex.{to_hex}

abbrev pub default_protocol_version : Str
default_protocol_version = codes "2025-11-25"

abbrev pub supported_protocol_versions : List Str
supported_protocol_versions = codes "2025-11-25" ∷ codes "2025-03-26" ∷ codes "2024-11-05" ∷ []

unfoldable pub is_one_of : List Str → Str → Bool
is_one_of [] v = false
is_one_of (x ∷ xs) v = str_eq x v || is_one_of xs v

unfoldable pub is_supported : Str → Bool
unfolding is_one_of
is_supported version = is_one_of supported_protocol_versions version

-- Whether the version is accepted. A policy of another name is strict.
unfoldable pub validate_negotiation : Str → Str → Str → Bool
unfolding is_supported
validate_negotiation requested returned policy =
    if str_eq policy (codes "supported")
    then is_supported returned
    else if str_eq policy (codes "none")
    then true
    else str_eq returned requested

abbrev pub or_default : Str → Str → Str
or_default d [] = d
or_default d (c ∷ s) = c ∷ s

-- `version` is none if the result of the server cannot be parsed.
unfoldable pub validate_protocol_version : Str → Str → Option Str → Bool
unfolding validate_negotiation
validate_protocol_version protocol_version policy version =
    if str_eq policy (codes "none") then true else elim version [
      | none ↦ false
      | some returned ↦
          validate_negotiation (or_default default_protocol_version protocol_version) returned
            (or_default (codes "strict") policy)
    ]

-- What the server answers to `initialize`: an error, or an outcome, which may be of failure.
pub data InitAnswer : Type 0 where
  broken : InitAnswer
  refused_init : InitAnswer
  accepted : Option Str → InitAnswer

pub record Server : Type 0 where
  pub connects : Bool
  pub initialize : InitAnswer
  pub takes_initialized : Bool
  pub session_id : Str

pub data Stage : Type 0 where
  connect : Stage
  initialize_stage : Stage
  version_negotiation : Stage
  send_initialized : Stage

-- The id of the session, or where it failed and whether a connection was closed again.
pub data Handshake : Type 0 where
  connected : Str → Handshake
  failed_at : Stage → Bool → Handshake

unfoldable pub generate_session_id : ℕ → Str
unfolding to_hex
generate_session_id n = codes "ses_" ++ to_hex n

-- The second number is the counter of sessions, which moves if the server names no id.
abbrev pub with_id : Str → ℕ → Handshake × ℕ
with_id [] counter = (connected (generate_session_id (counter + 1)), counter + 1)
with_id (c ∷ s) counter = (connected (c ∷ s), counter)

unfoldable pub connect_and_initialize : Str → Str → Server → ℕ → Handshake × ℕ
unfolding validate_protocol_version generate_session_id
connect_and_initialize protocol_version policy w counter =
    if not w.connects then (failed_at connect false, counter) else elim (w.initialize) [
      | broken ↦ (failed_at initialize_stage true, counter)
      | refused_init ↦ (failed_at initialize_stage true, counter)
      | accepted version ↦
          if not (validate_protocol_version protocol_version policy version)
          then (failed_at version_negotiation true, counter)
          else if not w.takes_initialized
          then (failed_at send_initialized true, counter)
          else with_id w.session_id counter
    ]
