-- ===== src/Server/Verdict.antt =====
-- crates/conflux-server/src/round_verdict.rs: which rounds the server says that the cited
-- requirement held in.
use conflux_fl.Base.{Bool, true, false, Option, none, some}
use conflux_fl.Config.{RoundLogDetail, quiet, changes, every}

-- `last` is the verdict behind the mutex: whether the requirement was satisfied.
pub record RoundVerdict : Type 0 where
  pub last : Option Bool

unfoldable pub default : RoundVerdict
default = record { last = none }

unfoldable pub satisfied : RoundVerdict → Option Bool
satisfied v = v.last

-- `previous != Some(Verdict { satisfied: true })`
abbrev pub differs : Option Bool → Bool
differs none = true
differs (some true) = false
differs (some false) = true

abbrev pub says : RoundLogDetail → Option Bool → Bool
says quiet previous = false
says changes previous = differs previous
says every previous = true

-- The new state, and whether a line was logged. The line's text is left out.
unfoldable pub record_satisfied : RoundLogDetail → RoundVerdict → RoundVerdict × Bool
record_satisfied detail v = (record v { last = some true }, says detail v.last)
