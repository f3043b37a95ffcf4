-- ===== src/Lib.antt =====
-- The WAGO 879 energy meter integration (custom_components/wago_879), modelled and verified.
--
-- The integration reads a meter over Modbus, through the 879-9000 module that carries it, and
-- offers the module's own settings for change. Its parts, and the files that model them:
--
-- - wago_879_api/registers.py: the register maps. Registers.antt has the fields and the two
--   functions over them, Registers/Maps.antt the maps, a class of the source each.
-- - wago_879_api/addresses.py: Addresses.antt. Python's `ipaddress`, as far as the program uses
--   it, is Ipv4.antt; an address is a number below 2 ^ 32.
-- - wago_879_api/device.py: `WagoMeter` is Device/Meter.antt, and `WagoModule.async_write` with
--   `_encode` and `WRITABLE_FIELDS` is Device/Write.antt. The package modbus_connection is not in
--   the repository: a unit is a parameter (Modbus.antt), an operation of which returns the state
--   of the link beside its answer, and what a component decodes to is a parameter too. The write
--   lock makes one call of `async_write` one step.
-- - module_settings.py: ModuleSettings.antt has the checks of single values and of the network,
--   ModuleSettings/Accept.antt `_settings` and `module_settings`. A `_Refused` is a raise of
--   `refused`; an exception that no handler catches is a constructor of its own. A form's values
--   are Python.antt; every finite float is a whole number over a power of two there, and how
--   Python reads and prints floats as text is a parameter.
-- - coordinator.py: Coordinator.antt. What the base class of Home Assistant does with a result is
--   a parameter, with its documented behaviour as `BaseClass`.
-- - wago_879_api/device.py's `WagoModule.async_read` is Device/Module.antt.
-- - entity_descriptions.py: Entities.antt.
-- - logging_policy.py: Logs.antt. `redact` is a parameter of the definitions that call it.
-- - __init__.py and const.py: Entry.antt has the settings of an entry and their migration,
--   Entry/Setup.antt `async_setup_entry` and `_async_module`, with the names of sensor.py. What
--   the setup calls in Home Assistant, in migration.py and in entity_id_rename.py is the parameter
--   `Home`, every call of which works on a state. What Python reads in a text as a whole number
--   is a parameter.
-- - sensor.py: Sensors.antt, with `coordinator_for` of coordinator.py.
-- - config_flow.py: Flow.antt has `_as_integers`, `normalised_host`, `_entry_of` and
--   `async_move_entry`, which Flow/Moving.antt runs on the state of Home Assistant. Flow/Probes.antt
--   is what the flows ask over the link, Flow/Following.antt the steps of a module that the search
--   found, with the meters that are remembered, and Flow/Adding.antt the steps by hand.
--   Options.antt is the page of the module settings: an entry is read before and after the write,
--   and what others do to Home Assistant in between is a function, `meanwhile`. The other two pages
--   are in Options/Intervals.antt.
-- - migration.py: Adoption.antt. Home Assistant's registry of entities and its states are the
--   parameter `Registry`, with the documented behaviour as `IsRegistry` in Adoption/Laws.antt.
-- - entity_id_rename.py: Renames.antt. `slugify` and the registry are parameters.
-- - .github/scripts/mutate.py: Mutations.antt, with one job. The tree of files and pytest are the
--   parameter `Machine`.
-- - wago_879_api/discovery.py: Discovery.antt. The datagrams that arrive are a list.
--
-- Text is the list of its code points where the program walks it, and a `String` where it is only
-- a key. Numbers are natural numbers, words of a register included; a dictionary is an association
-- list. No function needs fuel but the printers of numbers, in Base/Hex.antt and
-- Device/Module.antt, whose fuel is the number that they print.
--
-- Left out are logging but its masks and its filter, the selectors of the forms, what Home
-- Assistant does with entities, the socket of the search, diagnostics, the other scripts under
-- .github, the parallel run of mutate.py, and the tests.
pub mod Base
pub mod Ipv4
pub mod Python
pub mod Addresses
pub mod Adoption
pub mod Registers
pub mod ModuleSettings
pub mod Modbus
pub mod Device
pub mod Coordinator
pub mod Discovery
pub mod Entities
pub mod Entry
pub mod Flow
pub mod Logs
pub mod Mutations
pub mod Options
pub mod Renames
pub mod Sensors
