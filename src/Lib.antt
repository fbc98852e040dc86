-- ===== src/Lib.antt =====
-- The setup program of the DF10CH Atmolight controller (df10ch_setup_pkg): a Python program that
-- drives the controller over USB, keeps its configuration in the controller's EEPROM and updates
-- the firmware of its two microcontrollers.
--
-- Parts:
-- - Prelude, Result, Exec, Decimal: shared helpers; Result has the failures that Python raises,
--   Exec is state passing with such a result, Decimal is `format` and `int` of natural numbers.
-- - Protocol: the constants of df10ch_setup_pkg/device_drv.py, CM_CODE to CM_BIT, PORT_NAME_MAP and
--   GetCommErrMsg.
-- - Areas: AREA_NAMES, AreaName, AreaCode and their kin of the same file.
-- - Usb: the calls of python-libusb1 that the driver makes, as a record of functions on a state of
--   the device. They are a parameter: nothing is assumed of what they answer, but where a theorem
--   names a hypothesis.
-- - Controller: class DF10CHController. Controller has the transfers, Controller.Payload the coding
--   of data, Controller.Requests the methods.
-- - Dummy: class dummyController, its store (a list of pickled devices in a file, the field
--   `saved` of World) and loadDummyDevices.
-- - Ctrl: the interface that a configuration uses; Hardware and Dummy.Methods fill it.
-- - Config: class ControllerConfig. Config.Decode is what `read` makes of the EEPROM's bytes,
--   Config.Encode what `write` makes of a configuration, Config.Methods the methods.
--   Config.RoundTrip goes through both: the requested channels as data, what the encoder makes of
--   each output, and what the decoder finds again.
-- - Firmware: df10ch_setup_pkg/firmware.py, the pages of a firmware image and the loader of hex
--   files.
-- - Update: the flash procedure of firmwareUpdate (df10ch_setup_pkg/device_dlg.py).
-- - Screen: the geometry of configAreas (df10ch_setup_pkg/areas_dlg.py), Screen.Canvas its items,
--   Screen.View how the areas are colored and selected, Screen.Weight the image of the edge
--   weighting, and Screen.Cached how that image is kept and shown.
-- - Devices: FindDevices and ReleaseDevices of df10ch_setup_pkg/device_drv.py on a bus that is a
--   parameter, Devices.Asked what its devices answer; Devices.Loading is LoadConfigs. A controller
--   is named by its place in the list, since a configuration refers to it.
-- - Layout: the values of the layout sheet (df10ch_setup_pkg/layout_dlg.py), taken from its entries or
--   from the configurations, and stored in them; Layout.Window has its buttons together with the image
--   of the edge weighting.
-- - DeviceDialog: the device sheet (df10ch_setup_pkg/device_dlg.py). DeviceDialog.Setup stores and
--   restores, DeviceDialog.Scan looks for controllers, DeviceDialog.Status has the status and the
--   echo test, DeviceDialog.Choice the checks before a firmware update, DeviceDialog.Flashing
--   the update around the flash procedure, and DeviceDialog.Handlers what the buttons call. What
--   the user answers is a list of answers.
-- - MapDialog: the channel mapping sheet (df10ch_setup_pkg/map_dlg.py); the calls on the controllers
--   are a parameter. MapDialog.Fill fills the sheet and edits groups of outputs, and
--   MapDialog.Buttons has its color buttons.
-- - WhiteCal, Brightness: the white calibration and the brightness sheet
--   (df10ch_setup_pkg/white_cal_dlg.py, df10ch_setup_pkg/bright_dlg.py); WhiteCal.Adjust selects an
--   area and stores what the controls say, and WhiteCal.Shown does so together with the areas on the
--   screen. The floats of Python are a
--   parameter, the record Floats; nothing is assumed of what they give.
-- - Main: the sheets of the main window (df10ch_setup_pkg/setup_dlg.py) and the start of the program
--   (df10ch_setup.py).
-- - Tests: the theorems at concrete inputs.
--
-- Conventions: an exception is a failure of Result; a bytearray takes numbers below 256; numbers of
-- the source that are never negative are ℕ, the others ℤ. The loops of the transfers count the
-- attempts that are left, which is the source's own variable `retry`. Printing a number has one more
-- than the number as fuel, which is more than it has digits (parse-print in Decimal). The order in
-- which a dict yields its keys is not modelled: a channel map is a list of pairs.
--
-- Not modelled: the widgets of the Tkinter dialogs and their labels, the arithmetic of
-- floats, the options of the main program and the creation of its windows, the interactive
-- self test of device_drv.py, pages below the address 0 (a hex file whose address has a minus sign
-- gets such pages), the vendored python-libusb1, the firmware in C, and the packaging scripts.
pub mod Prelude
pub mod Result
pub mod Exec
pub mod Decimal
pub mod Protocol
pub mod Areas
pub mod Usb
pub mod Controller
pub mod Ctrl
pub mod Hardware
pub mod Dummy
pub mod Config
pub mod Firmware
pub mod Update
pub mod Screen
pub mod Devices
pub mod Layout
pub mod DeviceDialog
pub mod MapDialog
pub mod WhiteCal
pub mod Brightness
pub mod Main
pub mod Tests
