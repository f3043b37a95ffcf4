-- ===== src/Logs.antt =====
-- custom_components/wago_879/logging_policy.py: what may be said about a meter, and how loudly.
pub mod Mask
use ha_wago.Base.{
  ℕ, ◌-◌, Bool, true, false, ◌&&◌, ◌||◌, List, [], ◌∷◌, ◌++◌, ◌==◌, leb, if◌then◌else◌,
}
use ha_wago.Base.Text.{Text, codes}
use ha_wago.Base.Lists.{length, drop}

abbrev pub identifier_tail_length : ℕ
identifier_tail_length = 4

abbrev pub mask_prefix : Text
mask_prefix = codes "..."

-- `identifier[-4:]`
unfoldable pub identifier_tail : Text → Text
identifier_tail identifier = drop (length identifier - identifier_tail_length) identifier

unfoldable pub mask : Text → Text
unfolding identifier_tail
mask identifier =
    if leb (length identifier) identifier_tail_length
    then mask_prefix
    else mask_prefix ++ identifier_tail identifier

abbrev level_info : ℕ
level_info = 20

abbrev level_error : ℕ
level_error = 40

-- An argument of a log record: a `DeviceUnreachable` or anything else.
pub data Argument : Type 0 where
  device_unreachable other_argument : Argument

pub record LogRecord : Type 0 where
  pub levelno : ℕ
  pub levelname : Text
  pub args : List Argument

unfoldable pub any_unreachable : List Argument → Bool
any_unreachable [] = false
any_unreachable (device_unreachable ∷ args) = true
any_unreachable (other_argument ∷ args) = any_unreachable args

-- `OfflineIsNotAnError.filter`: whether the record is written, and the record after it.
unfoldable pub filter : LogRecord → Bool × LogRecord
unfolding any_unreachable
filter r =
    if r.levelno == level_error && any_unreachable r.args
    then (true, record r { levelno = level_info; levelname = codes "INFO" })
    else (true, r)
