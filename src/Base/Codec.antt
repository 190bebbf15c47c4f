-- ===== src/Base/Codec.antt =====
-- Protobuf's serialisation of one message type: SerializeAsString and ParseFromString.
use daichod.Base.Text.{Bytes}
use mathlib.Core.Path.{◌≡◌}
use mathlib.Core.Option.{Option, some}

-- `parse-serialize` is what protobuf documents: what was serialised parses to an equal message.
pub record Codec (A : Type 0) : Type 0 where
  pub serialize : A → Bytes
  pub parse : Bytes → Option A
  pub parse-serialize : (a : A) → parse (serialize a) ≡ some a
