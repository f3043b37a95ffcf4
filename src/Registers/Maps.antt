-- ===== src/Registers/Maps.antt =====
-- The maps themselves, each the class of its name.
use ha_wago.Base.{[], ◌∷◌}
use ha_wago.Registers.{
  Kind, Field, Component, field_at, float_field, number_field, ipv4_field, hostname_words,
  serial_words,
}

abbrev pub identity : Component
identity =
    field_at "serial_number" Kind.raw 0x4000 2
    ∷ field_at "meter_code" Kind.raw 0x4002 1
    ∷ number_field "modbus_id" 0x4003
    ∷ float_field "protocol_version" 0x4005
    ∷ float_field "software_version" 0x4007
    ∷ float_field "hardware_version" 0x4009
    ∷ number_field "meter_amperes" 0x400B
    ∷ number_field "combination_code" 0x400F
    ∷ number_field "ct_ratio_primary" 0x401F
    ∷ number_field "ct_ratio_secondary" 0x4020
    ∷ number_field "data_type" 0x4026
    ∷ []

abbrev pub status : Component
status =
    number_field "power_down_counter" 0x4016
    ∷ number_field "current_quadrant" 0x4017
    ∷ number_field "quadrant_l1" 0x4018
    ∷ number_field "quadrant_l2" 0x4019
    ∷ number_field "quadrant_l3" 0x401A
    ∷ []

abbrev pub measurements : Component
measurements =
    float_field "voltage_avg" 0x5000
    ∷ float_field "voltage_l1" 0x5002
    ∷ float_field "voltage_l2" 0x5004
    ∷ float_field "voltage_l3" 0x5006
    ∷ float_field "frequency" 0x5008
    ∷ float_field "current_avg" 0x500A
    ∷ float_field "current_l1" 0x500C
    ∷ float_field "current_l2" 0x500E
    ∷ float_field "current_l3" 0x5010
    ∷ float_field "active_power_total" 0x5012
    ∷ float_field "active_power_l1" 0x5014
    ∷ float_field "active_power_l2" 0x5016
    ∷ float_field "active_power_l3" 0x5018
    ∷ float_field "reactive_power_total" 0x501A
    ∷ float_field "reactive_power_l1" 0x501C
    ∷ float_field "reactive_power_l2" 0x501E
    ∷ float_field "reactive_power_l3" 0x5020
    ∷ float_field "apparent_power_total" 0x5022
    ∷ float_field "apparent_power_l1" 0x5024
    ∷ float_field "apparent_power_l2" 0x5026
    ∷ float_field "apparent_power_l3" 0x5028
    ∷ float_field "power_factor_total" 0x502A
    ∷ float_field "power_factor_l1" 0x502C
    ∷ float_field "power_factor_l2" 0x502E
    ∷ float_field "power_factor_l3" 0x5030
    ∷ float_field "voltage_l1_l2" 0x5032
    ∷ float_field "voltage_l1_l3" 0x5034
    ∷ float_field "voltage_l2_l3" 0x5036
    ∷ []

abbrev pub energy : Component
energy =
    float_field "active_energy_total" 0x6000
    ∷ float_field "active_energy_total_t1" 0x6002
    ∷ float_field "active_energy_total_t2" 0x6004
    ∷ float_field "active_energy_total_l1" 0x6006
    ∷ float_field "active_energy_total_l2" 0x6008
    ∷ float_field "active_energy_total_l3" 0x600A
    ∷ float_field "active_energy_import" 0x600C
    ∷ float_field "active_energy_import_t1" 0x600E
    ∷ float_field "active_energy_import_t2" 0x6010
    ∷ float_field "active_energy_import_l1" 0x6012
    ∷ float_field "active_energy_import_l2" 0x6014
    ∷ float_field "active_energy_import_l3" 0x6016
    ∷ float_field "active_energy_export" 0x6018
    ∷ float_field "active_energy_export_t1" 0x601A
    ∷ float_field "active_energy_export_t2" 0x601C
    ∷ float_field "active_energy_export_l1" 0x601E
    ∷ float_field "active_energy_export_l2" 0x6020
    ∷ float_field "active_energy_export_l3" 0x6022
    ∷ float_field "reactive_energy_total" 0x6024
    ∷ float_field "reactive_energy_total_t1" 0x6026
    ∷ float_field "reactive_energy_total_t2" 0x6028
    ∷ float_field "reactive_energy_total_l1" 0x602A
    ∷ float_field "reactive_energy_total_l2" 0x602C
    ∷ float_field "reactive_energy_total_l3" 0x602E
    ∷ float_field "reactive_energy_import" 0x6030
    ∷ float_field "reactive_energy_import_t1" 0x6032
    ∷ float_field "reactive_energy_import_t2" 0x6034
    ∷ float_field "reactive_energy_import_l1" 0x6036
    ∷ float_field "reactive_energy_import_l2" 0x6038
    ∷ float_field "reactive_energy_import_l3" 0x603A
    ∷ float_field "reactive_energy_export" 0x603C
    ∷ float_field "reactive_energy_export_t1" 0x603E
    ∷ float_field "reactive_energy_export_t2" 0x6040
    ∷ float_field "reactive_energy_export_l1" 0x6042
    ∷ float_field "reactive_energy_export_l2" 0x6044
    ∷ float_field "reactive_energy_export_l3" 0x6046
    ∷ number_field "tariff" 0x6048
    ∷ float_field "day_energy" 0x6049
    ∷ float_field "active_energy_total_t3" 0x604B
    ∷ float_field "active_energy_total_t4" 0x604D
    ∷ float_field "active_energy_import_t3" 0x604F
    ∷ float_field "active_energy_import_t4" 0x6051
    ∷ float_field "active_energy_export_t3" 0x6053
    ∷ float_field "active_energy_export_t4" 0x6055
    ∷ float_field "reactive_energy_total_t3" 0x6057
    ∷ float_field "reactive_energy_total_t4" 0x6059
    ∷ float_field "reactive_energy_import_t3" 0x605B
    ∷ float_field "reactive_energy_import_t4" 0x605D
    ∷ float_field "reactive_energy_export_t3" 0x605F
    ∷ float_field "reactive_energy_export_t4" 0x6061
    ∷ float_field "reactive_energy_q1" 0x6063
    ∷ float_field "reactive_energy_q1_t1" 0x6065
    ∷ float_field "reactive_energy_q1_t2" 0x6067
    ∷ float_field "reactive_energy_q1_t3" 0x6069
    ∷ float_field "reactive_energy_q1_t4" 0x606B
    ∷ float_field "reactive_energy_q2" 0x606D
    ∷ float_field "reactive_energy_q2_t1" 0x606F
    ∷ float_field "reactive_energy_q2_t2" 0x6071
    ∷ float_field "reactive_energy_q2_t3" 0x6073
    ∷ float_field "reactive_energy_q2_t4" 0x6075
    ∷ float_field "reactive_energy_q3" 0x6077
    ∷ float_field "reactive_energy_q3_t1" 0x6079
    ∷ float_field "reactive_energy_q3_t2" 0x607B
    ∷ float_field "reactive_energy_q3_t3" 0x607D
    ∷ float_field "reactive_energy_q3_t4" 0x607F
    ∷ float_field "reactive_energy_q4" 0x6081
    ∷ float_field "reactive_energy_q4_t1" 0x6083
    ∷ float_field "reactive_energy_q4_t2" 0x6085
    ∷ float_field "reactive_energy_q4_t3" 0x6087
    ∷ float_field "reactive_energy_q4_t4" 0x6089
    ∷ float_field "day_energy_l1" 0x608B
    ∷ float_field "day_energy_l2" 0x608D
    ∷ float_field "day_energy_l3" 0x608F
    ∷ []

-- The module's fields that a user may change.
abbrev pub timeout_field : Field
timeout_field = number_field "timeout" 0x0003

abbrev pub ip_address_field : Field
ip_address_field = ipv4_field "ip_address" 0x0064

abbrev pub netmask_field : Field
netmask_field = ipv4_field "netmask" 0x0066

abbrev pub gateway_field : Field
gateway_field = ipv4_field "gateway" 0x0068

abbrev pub dhcp_field : Field
dhcp_field = number_field "dhcp" 0x006A

abbrev pub dns_server_1_field : Field
dns_server_1_field = ipv4_field "dns_server_1" 0x006B

abbrev pub dns_server_2_field : Field
dns_server_2_field = ipv4_field "dns_server_2" 0x006D

abbrev pub ntp_server_1_field : Field
ntp_server_1_field = ipv4_field "ntp_server_1" 0x006F

abbrev pub ntp_server_2_field : Field
ntp_server_2_field = ipv4_field "ntp_server_2" 0x0071

abbrev pub hostname_field : Field
hostname_field = field_at "hostname" Kind.string 0x0073 hostname_words

abbrev pub ntp_field : Field
ntp_field = number_field "ntp" 0x0083

abbrev pub module_settings : Component
module_settings =
    number_field "baud_rate_code" 0x0000
    ∷ number_field "parity_code" 0x0001
    ∷ number_field "port_code" 0x0002
    ∷ timeout_field
    ∷ []

abbrev pub module_network : Component
module_network =
    ip_address_field ∷ netmask_field ∷ gateway_field ∷ dhcp_field ∷ dns_server_1_field
    ∷ dns_server_2_field ∷ ntp_server_1_field ∷ ntp_server_2_field ∷ hostname_field ∷ ntp_field ∷ []

abbrev pub module_version : Component
module_version =
    number_field "device_type" 0x0400
    ∷ number_field "firmware_major" 0x0403
    ∷ number_field "firmware_minor" 0x0404
    ∷ number_field "firmware_build" 0x0405
    ∷ number_field "bootloader_build" 0x0406
    ∷ field_at "serial_number" Kind.raw 0x0408 serial_words
    ∷ number_field "bootloader_major" 0x040B
    ∷ number_field "bootloader_minor" 0x040C
    ∷ []
