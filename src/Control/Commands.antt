-- ===== src/Control/Commands.antt =====
-- The lines that the control connection understands.
use podbay_camera_firmware.Prelude.{Bool, false, ◌&&◌, ◌||◌, List, [], ◌∷◌, if◌then◌else◌}
use podbay_camera_firmware.Text.{Text, codes, eq_ignore_ascii_case}

pub data Command : Type 0 where
  ping focus_get focus_status exposure_get unknown : Command
  focus_set focus_step exposure_set exposure_step : Text → Command
  roi_set : List Text → Command

-- `word.eq_ignore_ascii_case("...")`
unfoldable pub is_ping : Text → Bool
is_ping word = eq_ignore_ascii_case word (codes "PING")

unfoldable pub is_focus : Text → Bool
is_focus word = eq_ignore_ascii_case word (codes "FOCUS")

unfoldable pub is_exposure : Text → Bool
is_exposure word = eq_ignore_ascii_case word (codes "EXPOSURE")

unfoldable pub is_roi : Text → Bool
is_roi word = eq_ignore_ascii_case word (codes "ROI")

unfoldable pub is_get : Text → Bool
is_get word = eq_ignore_ascii_case word (codes "GET")

unfoldable pub is_status : Text → Bool
is_status word = eq_ignore_ascii_case word (codes "STATUS")

unfoldable pub is_set : Text → Bool
is_set word = eq_ignore_ascii_case word (codes "SET")

unfoldable pub is_step : Text → Bool
is_step word = eq_ignore_ascii_case word (codes "STEP")

-- A change of the focus or of the rectangles, whatever follows.
unfoldable pub is_mutation : List Text → Bool
is_mutation (first ∷ second ∷ rest) =
    (is_focus first && (is_set second || is_step second)) || (is_roi first && is_set second)
is_mutation (first ∷ []) = false
is_mutation [] = false

-- The arms of the `match` on the fields.
unfoldable pub parse_command : List Text → Command
parse_command (first ∷ []) = if is_ping first then ping else unknown
parse_command (first ∷ second ∷ []) =
    if is_focus first && is_get second
    then focus_get
    else if is_focus first && is_status second
    then focus_status
    else if is_exposure first && is_get second
    then exposure_get
    else unknown
parse_command (first ∷ second ∷ value ∷ []) =
    if is_focus first && is_set second
    then focus_set value
    else if is_focus first && is_step second
    then focus_step value
    else if is_exposure first && is_set second
    then exposure_set value
    else if is_exposure first && is_step second
    then exposure_step value
    else unknown
parse_command (first ∷ second ∷ lx ∷ ly ∷ rx ∷ ry ∷ width ∷ height ∷ []) =
    if is_roi first && is_set second
    then roi_set (lx ∷ ly ∷ rx ∷ ry ∷ width ∷ height ∷ [])
    else unknown
parse_command _ = unknown
