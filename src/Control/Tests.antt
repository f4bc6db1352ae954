-- ===== src/Control/Tests.antt =====
-- The theorems on the control connection, at concrete lines.
use podbay_camera_firmware.Prelude.{◌≡◌, [], ◌∷◌, arith, ok}
use podbay_camera_firmware.Device.{I2c}
use podbay_camera_firmware.Device.Runs.{Keeps}
use podbay_camera_firmware.Text.{codes}
use podbay_camera_firmware.Config.{SensorMode}
use podbay_camera_firmware.Telemetry.Window.{new}
use podbay_camera_firmware.Vcm.{I2cRdwr, new_vcm}
use podbay_camera_firmware.Control.{Control}
use podbay_camera_firmware.Control.Server.{start_control}
use podbay_camera_firmware.Control.Handlers.{serve_line}
use podbay_camera_firmware.Control.Exposures.{Exposing, serve_line-IsExposing}
use podbay_camera_firmware.Control.Regions.{RegionsAfter, serve_line_binned}
use podbay_camera_firmware.Control.Replaced.{serve_line-RegionsAfter}

abbrev lens : I2cRdwr
lens = record { State = Unit {0}; transact = λ messages s. (ok (1 ∷ []), s) }

abbrev bus : I2c
bus = record { State = Unit {0}; send = λ bytes s. (ok tt, s); receive = λ s. (ok 0, s) }

abbrev fine_mode : SensorMode
fine_mode = record {
  sensor_x = 0;
  sensor_y = 1200;
  mode_width = 8000;
  mode_height = 576;
  mode_binning = 1;
  output_width = 8000;
  output_height = 576;
}

abbrev binned_mode : SensorMode
binned_mode = record fine_mode {
  mode_height = 4800;
  mode_binning = 4;
  output_width = 2000;
  output_height = 1200;
}

abbrev control : Control
control = start_control fine_mode 0 (new 0) new_vcm

serve_line-IsExposing_example :
    Keeps (Exposing lens bus) (serve_line lens bus 0 0 fine_mode (codes "EXPOSURE STEP -9000\n"))
serve_line-IsExposing_example =
    serve_line-IsExposing lens bus 0 0 fine_mode (codes "EXPOSURE STEP -9000\n")

serve_line_binned_example :
    ((serve_line lens bus 0 0 binned_mode (codes "focus set 300\n") (control, (tt, tt))).1.0.vcm
      ≡ control.vcm)
    × ((serve_line lens bus 0 0 binned_mode
          (codes "focus set 300\n")
          (control, (tt, tt))).1.0.live_eye_roi
        ≡ control.live_eye_roi)
serve_line_binned_example =
    serve_line_binned lens bus 0 0 binned_mode (codes "focus set 300\n") (control, (tt, tt))
      (omega arith)

serve_line-RegionsAfter_example :
    RegionsAfter fine_mode control.live_eye_roi
      (serve_line lens bus 0 0 fine_mode
        (codes "ROI SET 100 1300 4100 1300 256 256\n")
        (control, (tt, tt))).1.0.live_eye_roi
serve_line-RegionsAfter_example =
    serve_line-RegionsAfter lens bus 0 0 fine_mode (codes "ROI SET 100 1300 4100 1300 256 256\n")
      (control, (tt, tt))
