-- ===== src/Discovery/Examples.antt =====
-- A reply of the module A1B2C3D4E5F6 at 192.168.1.30.
use ha_wago.Base.{ℕ, ◌≡◌, ◌↔◌, some, List, [], ◌∷◌, arith}
use ha_wago.Base.Text.{Text, codes}
use ha_wago.Discovery.{FoundModule, parse_reply, browse_result}
use ha_wago.Discovery.Replies.{IsReply, parse_reply_iff}
use ha_wago.Discovery.Search.{find_module, newest, IsDistinct, browse_result_lem}

abbrev reply : List ℕ
reply =
    0
    ∷ 48
    ∷ 222
    ∷ 1
    ∷ 2
    ∷ 3
    ∷ 0
    ∷ 0
    ∷ 0
    ∷ 0
    ∷ 0
    ∷ 0
    ∷ 192
    ∷ 168
    ∷ 1
    ∷ 30
    ∷ 255
    ∷ 255
    ∷ 255
    ∷ 0
    ∷ codes "A1B2C3D4E5F6"

abbrev found : FoundModule
found = record { serial_number = codes "A1B2C3D4E5F6"; host = codes "192.168.1.30" }

parse_reply_iff_example : (parse_reply reply ≡ some found) ↔ IsReply reply found
parse_reply_iff_example = parse_reply_iff reply found (omega arith)

browse_result_lem_example :
    ((serial : Text) → find_module serial (browse_result (reply ∷ [])) ≡ newest serial (reply ∷ []))
    × IsDistinct (browse_result (reply ∷ []))
browse_result_lem_example = browse_result_lem (reply ∷ [])
