-- ===== src/Severity.antt =====
-- include/sub0log/severity.hpp: the severity ladder.
use sub0log.Common.{ℕ, Bool, leb}

-- `enum class Severity : std::uint8_t`
pub data Severity : Type 0 where
  trace debug info warning error unclassified fatal : Severity

abbrev pub severity_code : Severity → ℕ
severity_code trace = 0
severity_code debug = 1
severity_code info = 2
severity_code warning = 3
severity_code error = 4
severity_code unclassified = 5
severity_code fatal = 6

-- `atLeast`: is `value` severe enough for `threshold`?
unfoldable pub at_least : Severity → Severity → Bool
at_least value threshold = leb (severity_code threshold) (severity_code value)

-- `atLeast` of a byte that was cast to a `Severity`, which may be none of the enumerators.
unfoldable pub byte_at_least : ℕ → Severity → Bool
byte_at_least value threshold = leb (severity_code threshold) value
