-- ===== src/Version.antt =====
-- crates/geserdesk-proto/src/version.rs: protocol versions and their negotiation.
pub mod Agreement
use geser_desk.Prelude.{ℕ, Bool, not, ◌==◌, if◌then◌else◌, min}

pub record Version : Type 0 where
  pub major : ℕ
  pub minor : ℕ

abbrev pub protocol_version : Version
protocol_version = record { major = 4; minor = 0 }

pub record VersionError : Type 0 where
  pub local : Version
  pub remote : Version

-- `Result<Version, VersionError>`
pub data Negotiated : Type 0 where
  ok : Version → Negotiated
  err : VersionError → Negotiated

unfoldable pub is_compatible_with : Version → Version → Bool
is_compatible_with v other = v.major == other.major

unfoldable pub negotiate : Version → Version → Negotiated
negotiate v other =
    if not (v.major == other.major)
    then err (record { local = v; remote = other })
    else ok (record { major = v.major; minor = min v.minor other.minor })
