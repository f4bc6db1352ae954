-- ===== src/Arguments/Fields.antt =====
-- Where the value of each option goes.
use podbay_camera_firmware.Prelude.{ℕ, u8_max, u16_max, u32_max, Result, ok, ◌>>=◌}
use Prim.Native.String.{String}
use podbay_camera_firmware.Config.{Config}
use podbay_camera_firmware.Arguments.{
  Setting, listen, vcm_control, tile, origin, settle, timeout, frame_length, coarse, gain,
  sensor_resolution, sensor_fps, sensor_binning, u64_max, parse_size, parse_pair, parse,
}

-- The value of an option: a text, a number, or two.
pub data Value : Type 0 where
  address : String → Value
  number : ℕ → Value
  numbers : ℕ → ℕ → Value

-- What the text of an option means.
unfoldable pub reading : Setting → String → Result Value
reading listen text = ok (address text)
reading vcm_control text = ok (address text)
reading tile text = do size ← parse_size text; ok (numbers size.0 size.1)
reading origin text = do pair ← parse_pair text; ok (numbers pair.0 pair.1)
reading settle text = do n ← parse u32_max text; ok (number n)
reading timeout text = do n ← parse u64_max text; ok (number n)
reading frame_length text = do n ← parse u16_max text; ok (number n)
reading coarse text = do n ← parse u16_max text; ok (number n)
reading gain text = do n ← parse u16_max text; ok (number n)
reading sensor_resolution text = do n ← parse u8_max text; ok (number n)
reading sensor_fps text = do n ← parse u32_max text; ok (number n)
reading sensor_binning text = do n ← parse u32_max text; ok (number n)

-- Where the configuration keeps it.
unfoldable pub field : Setting → Config → Value
field listen c = address c.listen
field vcm_control c = address c.vcm_control
field tile c = numbers c.tile_width c.tile_height
field origin c = numbers c.initial_x c.initial_y
field settle c = number c.settle_frames
field timeout c = number c.frame_timeout
field frame_length c = number c.frame_length
field coarse c = number c.coarse
field gain c = number c.gain
field sensor_resolution c = number c.sensor_resolution
field sensor_fps c = number c.sensor_fps
field sensor_binning c = number c.sensor_binning

-- The place of an option in the list of them.
unfoldable pub place : Setting → ℕ
place listen = 0
place vcm_control = 1
place tile = 2
place origin = 3
place settle = 4
place timeout = 5
place frame_length = 6
place coarse = 7
place gain = 8
place sensor_resolution = 9
place sensor_fps = 10
place sensor_binning = 11
