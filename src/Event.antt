-- ===== src/Event.antt =====
-- internal/event: the wire envelope. The timestamp is left out (nothing modelled reads it), and a
-- payload stays the raw JSON text that the envelope carries.
use nomad_dev.Base.{Text, lit}

pub record Envelope : Type 0 where
  pub id : Text
  pub typ : Text
  pub correlation_id : Text
  pub payload : Text

-- Stream names of command.chunk payloads.
abbrev pub stream_stdout : Text
stream_stdout = lit "stdout"

abbrev pub stream_stderr : Text
stream_stderr = lit "stderr"
