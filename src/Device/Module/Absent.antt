-- ===== src/Device/Module/Absent.antt =====
-- When the read of the module says that there is none, and what an answer carries.
use ha_wago.Base.{
  ℕ, ◌≡◌, ◌≢◌, ◌↔◌, ◌⊎◌, inl, inr, refl, true, false, none, some, arith, Bool-cases, Option-cases,
}
use ha_wago.Base.Outcome.{Outcome, ok, raise, Outcome-cases}
use ha_wago.Base.Hex.{hex, hex_value, hex_value-hex}
use ha_wago.Modbus.{
  ModbusError, illegal_function, illegal_data_address, gateway_path_unavailable, gateway_target,
  connection_lost, timed_out, device_busy, device_failure,
}
use ha_wago.Device.Module.{
  Version, Serial, Network, Report, ModuleUnit, ReadError, no_module_answers, report, is_module,
  some_report, read_blocks, async_read,
}

some_report-eq-some :
    (r : Outcome ReadError Report) (m : Report) → some_report r ≡ ok (some m) → r ≡ ok m
unfolding some_report
some_report-eq-some (ok r) m h = ground arith
some_report-eq-some (raise e) m h = cc

some_report-not_none : (r : Outcome ReadError Report) → ¬ (some_report r ≡ ok none)
unfolding some_report
some_report-not_none (ok r) h = ground arith
some_report-not_none (raise e) h = cc

is_module-330 : (v : Version) → is_module v ≡ true → v.device_type ≡ some 330
unfolding is_module
is_module-330 v h = ground arith

is_module_iff : (v : Version) → (is_module v ≡ false) ↔ (v.device_type ≢ some 330)
unfolding is_module
is_module_iff v = (
  (λ b h. absurd (ground (arith, b, h))),
  λ other. elim (Bool-cases (is_module v)) [
    | inl b ↦ absurd (other (is_module-330 v b))
    | inr b ↦ b
  ],
)

no_module_answers_iff :
    (e : ModbusError)
    → (no_module_answers e ≡ true) ↔ (
        (e ≡ illegal_function)
        ⊎ (e ≡ illegal_data_address)
        ⊎ (e ≡ gateway_path_unavailable)
        ⊎ (e ≡ gateway_target))
unfolding no_module_answers
no_module_answers_iff illegal_function = ((λ h. inl refl), (λ h. refl))
no_module_answers_iff illegal_data_address = ((λ h. inr (inl refl)), (λ h. refl))
no_module_answers_iff gateway_path_unavailable = ((λ h. inr (inr (inl refl))), (λ h. refl))
no_module_answers_iff gateway_target = ((λ h. inr (inr (inr refl))), (λ h. refl))
no_module_answers_iff connection_lost = ground arith
no_module_answers_iff timed_out = ground arith
no_module_answers_iff device_busy = ground arith
no_module_answers_iff device_failure = ground arith

-- The version read was refused in one of the four ways, or answered by another device.
abbrev SaysNone : {S : Type 0} → ModuleUnit S → S → Type 0
SaysNone unit s =
    ((e : ModbusError) × ((unit.update_version s).0 ≡ raise e)
      × ((e ≡ illegal_function)
          ⊎ (e ≡ illegal_data_address)
          ⊎ (e ≡ gateway_path_unavailable)
          ⊎ (e ≡ gateway_target)))
    ⊎ ((v : Version) × ((unit.update_version s).0 ≡ ok v) × (v.device_type ≢ some 330))

report_serial :
    (v : Version) (a : Serial) (b : Network) (m : Report)
    → report v a b ≡ ok m
    → (n : ℕ) × (v.serial_number ≡ some n) × (hex_value 0 m.serial_number ≡ n)
unfolding report
report_serial v a b m h = elim (Option-cases v.serial_number) [
  | inl e ↦ absurd (ground arith)
  | inr (n, e) ↦
      let same : m.serial_number ≡ hex 12 n = ground arith in (n, e, rw same (hex_value-hex 12 n))
]

read_blocks-some :
    {S : Type 0} (unit : ModuleUnit S) (v : Version) (t : S) (m : Report)
    → (read_blocks unit v t).0 ≡ ok (some m)
    → (n : ℕ) × (v.serial_number ≡ some n) × (hex_value 0 m.serial_number ≡ n)
unfolding read_blocks
read_blocks-some unit v t m h = elim (Outcome-cases (unit.update_settings t).0) [
  | inl (a, ea) ↦ elim (Outcome-cases (unit.update_network (unit.update_settings t).1).0) [
    | inl (b, eb) ↦ report_serial v a b m (some_report-eq-some (report v a b) m (ground arith))
    | inr (err, eb) ↦ absurd (ground arith)
  ]
  | inr (err, ea) ↦ absurd (ground arith)
]

module _ {S : Type 0} (unit : ModuleUnit S) (s : S) where
  read_blocks-not_none : (v : Version) (t : S) → ¬ ((read_blocks unit v t).0 ≡ ok none)
  unfolding read_blocks
  read_blocks-not_none v t h =
      ground (arith, λ (r : Outcome ReadError Report). some_report-not_none r)

  -- The read says that there is no module exactly if the version read was refused as an illegal
  -- function, as an illegal address, or by a gateway without a path or without an answering
  -- target, or if it was answered with a device type that is not 330.
  pub async_read-none : ((async_read unit s).0 ≡ ok none) ↔ (
      ((e : ModbusError) × ((unit.update_version s).0 ≡ raise e)
        × ((e ≡ illegal_function)
            ⊎ (e ≡ illegal_data_address)
            ⊎ (e ≡ gateway_path_unavailable)
            ⊎ (e ≡ gateway_target)))
      ⊎ ((v : Version) × ((unit.update_version s).0 ≡ ok v) × (v.device_type ≢ some 330)))
  unfolding async_read
  async_read-none = (forward, backward)
    where
      forward : (async_read unit s).0 ≡ ok none → SaysNone unit s
      forward h = elim (Outcome-cases (unit.update_version s).0) [
        | inl (v, e) ↦ elim (Bool-cases (is_module v)) [
          | inl b ↦ absurd (read_blocks-not_none v (unit.update_version s).1 (ground arith))
          | inr b ↦ inr (v, e, (is_module_iff v).0 b)
        ]
        | inr (err, e) ↦ inl (err, e, (no_module_answers_iff err).0 (ground arith))
      ]

      backward : SaysNone unit s → (async_read unit s).0 ≡ ok none
      backward (inl (e, h, which)) = let b = (no_module_answers_iff e).1 which in ground arith
      backward (inr (v, h, other)) = let b = (is_module_iff v).1 other in ground arith

  -- An answer comes from a device that named itself an 879-9000, and the hexadecimal serial
  -- number that it carries stands for the number that was read.
  pub async_read-some :
      (m : Report)
      → (async_read unit s).0 ≡ ok (some m)
      → (v : Version) × (n : ℕ) × ((unit.update_version s).0 ≡ ok v)
        × (v.device_type ≡ some 330)
        × (v.serial_number ≡ some n)
        × (hex_value 0 m.serial_number ≡ n)
  unfolding async_read
  async_read-some m h = elim (Outcome-cases (unit.update_version s).0) [
    | inl (v, e) ↦ elim (Bool-cases (is_module v)) [
      | inl b ↦
          let (n, en, hn) = read_blocks-some unit v (unit.update_version s).1 m (ground arith) in
          (v, n, e, is_module-330 v b, en, hn)
      | inr b ↦ absurd (ground arith)
    ]
    | inr (err, e) ↦ absurd (ground arith)
  ]
