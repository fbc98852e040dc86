-- ===== src/Tests.antt =====
-- Tests of the definitions, and the theorems at concrete inputs.
mod Device
mod Codes
mod Transfers
mod Simulated
mod Flash
mod Settings
mod Update
mod Screen
mod Sheet
mod Written
mod Shown
mod Sheets
mod Dialogs
mod Scanning
mod Sliders
