-- ===== src/Raw10/Tracking.antt =====
-- `downsample_raw10_tracking_context`.
use podbay_camera_firmware.Prelude.{
  ℕ, ◌+◌, ◌*◌, ◌/◌, ◌%◌, ◌≤◌, ◌<◌, ◌≡◌, false, ◌||◌, List, arith, ltb,
}
use podbay_camera_firmware.Raw10.{
  tracking_coordinate, downsample_raw10_tracking_context_bytes, is_bad_context,
}
use native.Mathlib.Nat.{div-add-mod}
use podbay_camera_firmware.Raw10.Cells.{HasFrame, StaysInside, Samples, grid-Samples}

-- A context thumbnail whose size divides the frame's, with at least two source pixels for each of its
-- own in each direction.
pub record IsContext (width height output_width output_height : ℕ) : Type 0 where
  pub some_width : 0 < output_width
  pub some_height : 0 < output_height
  pub divides_width : width % output_width ≡ 0
  pub divides_height : height % output_height ≡ 0
  pub shrinks_width : 2 ≤ width / output_width
  pub shrinks_height : 2 ≤ height / output_height

-- The cell of an output pixel starts at an even coordinate, at most one before its box of the scale's
-- size, and ends inside that box.
pub tracking_coordinate_bounds :
    (scale k : ℕ)
    → 2 ≤ scale
    → (tracking_coordinate scale k % 2 ≡ 0)
      × (k * scale ≤ tracking_coordinate scale k + 1)
      × (tracking_coordinate scale k + 2 ≤ (k + 1) * scale)
unfolding tracking_coordinate
tracking_coordinate_bounds scale k h = omega arith

tracking_inside :
    (size outputs : ℕ)
    → 0 < outputs
    → size % outputs ≡ 0
    → 2 ≤ size / outputs
    → StaysInside (tracking_coordinate (size / outputs)) outputs size
tracking_inside size outputs o d h k p =
    let (_, _, last) = tracking_coordinate_bounds (size / outputs) k h in
    let total = div-add-mod size outputs in grind arith

is_bad_context_complete :
    (width height output_width output_height : ℕ)
    → IsContext width height output_width output_height
    → is_bad_context width height output_width output_height ≡ false
unfolding is_bad_context
is_bad_context_complete width height ow oh c = ground arith

-- A context thumbnail of a frame that holds all its pixels, whose size divides the frame's by two at
-- least in each direction, succeeds, and each of its pixels is the average of the 2x2 cell at the
-- tracking coordinates.
pub downsample_tracking-Samples :
    (bytes : List ℕ) (stride width height output_width output_height : ℕ)
    → HasFrame bytes stride width height
    → IsContext width height output_width output_height
    → (output : List ℕ) × Samples bytes stride
        (tracking_coordinate (width / output_width))
        (tracking_coordinate (height / output_height))
        output_width
        output_height
        (downsample_raw10_tracking_context_bytes bytes stride width height output_width
          output_height)
        output
unfolding downsample_raw10_tracking_context_bytes
downsample_tracking-Samples bytes stride width height ow oh frame c =
    let fx = tracking_coordinate (width / ow) in
    let fy = tracking_coordinate (height / oh) in
    let accepted = is_bad_context_complete width height ow oh c in
    let wide : (ltb (width / ow) 2 || ltb (height / oh) 2) ≡ false =
      let w = c.shrinks_width in let h = c.shrinks_height in ground arith in
    let in_x = tracking_inside width ow c.some_width c.divides_width c.shrinks_width in
    let in_y = tracking_inside height oh c.some_height c.divides_height c.shrinks_height in
    rw (accepted, wide) (_, grid-Samples bytes stride width height frame fx fy ow oh in_x in_y)
