-- ===== src/Flow/Moving.antt =====
-- The config entries of Home Assistant, and moving one: `async_move_entry` on their state.
use ha_wago.Base.{Bool, true, false, Option, none, some, if◌then◌else◌}
use ha_wago.Base.Text.{Text}
use ha_wago.Base.Outcome.{ok, raise}
use ha_wago.Base.Dict.{Dict, lookup}
use ha_wago.Ipv4.{parse}
use ha_wago.Entry.{Stored, string}
use ha_wago.Flow.{FlowEntry, async_move_entry}

-- `async_get_entry`, `async_update_entry` and `async_schedule_reload`.
pub record Entries (H : Type 0) : Type 0 where
  pub get_entry : Text → H → Option FlowEntry
  pub update_entry : FlowEntry → H → H
  pub schedule_reload : Text → H → H

-- `_is_address`, given which texts Python's `ip_address` reads as an address of IPv6.
unfoldable pub is_address : (Text → Bool) → Text → Bool
is_address is_ipv6 host = elim (parse host) [ some a ↦ true | none ↦ is_ipv6 host ]

-- `seen["host"]`. A host is always stored as a text.
unfoldable pub host_in : Dict Stored → Option Text
host_in seen = elim (lookup "host" seen) [ some (string t) ↦ some t | other ↦ none ]

module _ {H : Type 0} (entries : Entries H) where
  -- Whether the entry was moved, and the state after it. The entry has the host of `seen` where
  -- the title is looked up, so the exception of a missing host does not occur.
  unfoldable pub move_entry : Text → (seen changes : Dict Stored) → H → Bool × H
  move_entry entry_id seen changes h =
      elim (async_move_entry (entries.get_entry entry_id h) seen changes) [
        | raise e ↦ (false, h)
        | ok none ↦ (false, h)
        | ok (some (entry, scheduled)) ↦
            let h' = entries.update_entry entry h in
            (true, if scheduled then entries.schedule_reload entry_id h' else h')
      ]
