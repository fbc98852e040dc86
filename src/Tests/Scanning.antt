-- ===== src/Tests/Scanning.antt =====
-- Searching the bus, loading the configurations, and the loop of the device sheet.
use df10ch_atmolight_control.Prelude.{
  ℕ, zero, suc, ◌≡◌, refl, List, [], ◌∷◌, true, false, none, All,
}
use df10ch_atmolight_control.Result.{ok, device_error, pipe}
use df10ch_atmolight_control.Exec.{Exec, pure, raise}
use df10ch_atmolight_control.Decimal.{codes}
use df10ch_atmolight_control.Usb.{Reply, done, failed}
use df10ch_atmolight_control.Controller.{Controller}
use df10ch_atmolight_control.Dummy.{World}
use df10ch_atmolight_control.Dummy.Methods.{dummy_ctrl}
use df10ch_atmolight_control.Devices.{
  Bus, Host, usb_devices, vendor_id, product_id, vendor_name, device_name, search_bus,
}
use df10ch_atmolight_control.Devices.Found.{FoundOn, search_bus-finds}
use df10ch_atmolight_control.Devices.Loading.{load_configs}
use df10ch_atmolight_control.Devices.Listed.{AllListed}
use df10ch_atmolight_control.Devices.Placed.{IsPlaced, visited, load_configs-IsPlaced}
use df10ch_atmolight_control.Layout.{empty_layout}
use df10ch_atmolight_control.DeviceDialog.{Dialog}
use df10ch_atmolight_control.DeviceDialog.Scan.{scan_loop, Ends, scan_loop-Ends}
use df10ch_atmolight_control.Tests.Device.{Memory, memory_usb}
use df10ch_atmolight_control.Tests.Simulated.{world}

abbrev answer : {A : Type 0} → A → ℕ → Reply A
answer a zero = done a
answer a (suc v) = failed pipe

-- A bus on which the device 0 is a controller and every other one fails.
abbrev one_device : Bus (Unit {0}) ℕ Memory
one_device = record {
  open_context = λ b. (true, b);
  get_device_list = λ b. (done (0 ∷ 1 ∷ []), b);
  get_vendor_id = λ v b. (answer vendor_id v, b);
  get_product_id = λ v b. (answer product_id v, b);
  get_manufacturer = λ v b. (answer vendor_name v, b);
  get_product = λ v b. (answer device_name v, b);
  get_serial_number = λ v b. (answer (codes "AP") v, b);
  open_device = λ v b. (answer (0, 7 ∷ []) v, b);
  set_configuration = λ n d. (done tt, d);
  claim_interface = λ n d. (done tt, d);
  get_bus_number = λ v. 1;
  get_device_address = λ v. 2;
  get_bcd_device = λ v. 0x0101;
}

abbrev host : Host (Unit {0}) Memory
host = record {
  bus = tt;
  usb_context = true;
  device_list = usb_devices [];
  simulated_controllers = 0;
  dummy_serial = [];
  saved_dummies = none;
}

search_bus-finds_example :
    (cs : List (Controller Memory)) × ((search_bus one_device memory_usb host).0 ≡ ok tt)
    × ((search_bus one_device memory_usb host).1.device_list ≡ usb_devices cs)
    × FoundOn one_device memory_usb (0 ∷ 1 ∷ []) tt cs
search_bus-finds_example = search_bus-finds one_device memory_usb host (0 ∷ 1 ∷ []) tt refl

load_configs-IsPlaced_example :
    let (r, map, cs) = load_configs dummy_ctrl (pure tt) (world ∷ world ∷ []) in
    All (IsPlaced dummy_ctrl (world ∷ world ∷ []) cs) map
    × ((k : ℕ) × (cs ≡ visited dummy_ctrl k (world ∷ world ∷ [])))
    × AllListed dummy_ctrl (world ∷ world ∷ []) r map
load_configs-IsPlaced_example = load_configs-IsPlaced dummy_ctrl (pure tt) (world ∷ world ∷ [])

abbrev dialog : Dialog World
dialog = record {
  device_list = [];
  config_map = [];
  half_read = [];
  layout = empty_layout;
  selected_config = none;
  selected_device_idx = none;
  echo_test_running = false;
  errors = [];
}

-- The search fails, the user retries twice, then cancels.
abbrev failing : Exec (List World) (Unit {0})
failing = raise device_error

scan_loop-Ends_example :
    Ends dummy_ctrl failing (scan_loop dummy_ctrl failing (true ∷ true ∷ false ∷ []) dialog)
scan_loop-Ends_example = scan_loop-Ends dummy_ctrl failing (true ∷ true ∷ false ∷ []) dialog tt
