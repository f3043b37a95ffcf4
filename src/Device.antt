-- ===== src/Device.antt =====
-- custom_components/wago_879/wago_879_api/device.py: the meter behind one Modbus unit, and the
-- module that carries it.
pub mod Meter
pub mod Module
pub mod Write
mod Examples
