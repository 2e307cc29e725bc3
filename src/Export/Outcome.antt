-- ===== src/Export/Outcome.antt =====
-- src/export/bridge.rs: how a connection ends.
use zenoh_bridge_tcp.Prelude.{Bool, true, false, ◌||◌, Option, some, none, if◌then◌else◌}

-- How one direction ended.
pub data DirectionEnd : Type 0 where
  eof reset error : DirectionEnd

-- How a whole connection ended.
pub data ConnectionOutcome : Type 0 where
  completed reset failed : ConnectionOutcome

-- `None | Some(Error)`: a direction that did not join, or failed.
abbrev pub is_failure : Option DirectionEnd → Bool
is_failure none = true
is_failure (some DirectionEnd.eof) = false
is_failure (some DirectionEnd.reset) = false
is_failure (some DirectionEnd.error) = true

abbrev pub is_reset : Option DirectionEnd → Bool
is_reset (some DirectionEnd.reset) = true
is_reset _ = false

unfoldable pub fold_outcome : Option DirectionEnd → Option DirectionEnd → ConnectionOutcome
fold_outcome b2z z2b =
    if is_failure b2z || is_failure z2b
    then failed
    else if is_reset b2z || is_reset z2b
    then ConnectionOutcome.reset
    else completed
