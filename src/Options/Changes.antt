-- ===== src/Options/Changes.antt =====
-- The changes that a page sends to `async_write`, in the order of the dictionary of settings.
use ha_wago.Base.{ℕ, Bool, not, List, [], ◌∷◌, if◌then◌else◌}
use ha_wago.Base.Int.{ℤ, pos, negsuc, int_eq}
use ha_wago.Device.Write as Write
use ha_wago.Device.Write.{Change}
use ha_wago.ModuleSettings.{Settings}
use ha_wago.ModuleSettings.Accept.{differs, bool_differs}

-- `int` of a timeout. One below zero is neither reported by the module nor accepted.
abbrev pub timeout_word : ℤ → ℕ
timeout_word (pos n) = n
timeout_word (negsuc n) = 0

-- `dict(settings)`
abbrev pub all_changes : Settings → List Change
all_changes s =
    Write.dhcp s.dhcp
    ∷ Write.ntp s.ntp
    ∷ Write.ip_address s.ip_address
    ∷ Write.gateway s.gateway
    ∷ Write.dns_server_1 s.dns_server_1
    ∷ Write.dns_server_2 s.dns_server_2
    ∷ Write.ntp_server_1 s.ntp_server_1
    ∷ Write.ntp_server_2 s.ntp_server_2
    ∷ Write.netmask s.netmask
    ∷ Write.hostname s.hostname
    ∷ Write.timeout (timeout_word s.timeout)
    ∷ []

-- Whether each setting differs from what the module reported, in the same order.
abbrev pub changed : Settings → Settings → List Bool
changed current s =
    bool_differs current.dhcp s.dhcp
    ∷ bool_differs current.ntp s.ntp
    ∷ differs current.ip_address s.ip_address
    ∷ differs current.gateway s.gateway
    ∷ differs current.dns_server_1 s.dns_server_1
    ∷ differs current.dns_server_2 s.dns_server_2
    ∷ differs current.ntp_server_1 s.ntp_server_1
    ∷ differs current.ntp_server_2 s.ntp_server_2
    ∷ differs current.netmask s.netmask
    ∷ differs current.hostname s.hostname
    ∷ not (int_eq current.timeout s.timeout)
    ∷ []

-- The changes whose test holds.
unfoldable pub select : List Bool → List Change → List Change
select (b ∷ bs) (c ∷ cs) = let rest = select bs cs in if b then c ∷ rest else rest
select [] cs = []
select (b ∷ bs) [] = []

-- `{key: value for key, value in settings.items() if current[key] != value}`
unfoldable pub changes_of : Settings → Settings → List Change
unfolding select
changes_of current s = select (changed current s) (all_changes s)
