-- ===== src/Common/ByteSize/Examples.antt =====
-- backend/common/src/byte_size.rs, on concrete input: "20kB".
use substrate_telemetry.Prelude.{text_key}
use substrate_telemetry.Prelude.HashMap
