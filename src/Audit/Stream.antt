-- ===== src/Audit/Stream.antt =====
-- governance/audit.py: `configure`, over the loggers of the standard library: a logger passes a
-- line of its level or above to its handlers, and to the root's where it propagates.
use governed_mcp_server.Common.{
  ◌≡◌, refl, ℕ, String, Bool, false, Option, none, some, List, [], ◌∷◌, ◌++◌, leb, if◌then◌else◌,
}
use governed_mcp_server.Audit.{Level, warning, info}

-- How a handler writes a record: as the message alone, or in a format of its own.
pub data Format : Type 0 where
  message_only : Format
  formatted : String → Format

pub record Handler : Type 0 where
  pub stream : String
  pub format : Format

pub record Logger : Type 0 where
  pub handlers : List Handler
  pub propagate : Bool
  pub level : ℕ

abbrev pub level_number : Level → ℕ
level_number info = 20
level_number warning = 30

-- `stream or sys.stdout`
abbrev pub stream_or : Option String → String
stream_or none = "stdout"
stream_or (some stream) = stream

unfoldable pub configure : Option String → Logger → Logger
configure stream logger = record {
  handlers = record { stream = stream_or stream; format = message_only } ∷ [];
  propagate = false;
  level = level_number info;
}

-- The handlers that a line of this level reaches.
abbrev pub reached : (root : List Handler) → Logger → Level → List Handler
reached root logger level =
    if leb logger.level (level_number level)
    then (if logger.propagate then logger.handlers ++ root else logger.handlers)
    else []

-- Once configured, a line of either level reaches the one stream, unformatted, and no handler of
-- the application's, whatever handlers there were.
configure-reached :
    (stream : Option String) (root : List Handler) (logger : Logger) (level : Level)
    → reached root (configure stream logger) level
      ≡ record { stream = stream_or stream; format = message_only } ∷ []
unfolding configure
configure-reached stream root logger info = refl
configure-reached stream root logger warning = refl
