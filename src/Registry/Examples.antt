-- ===== src/Registry/Examples.antt =====
-- The registry with two bots.
use yzj_bot_bridge.Prelude.{◌≡◌, refl, some, List, [], ◌∷◌, trim_space, to_lower}
use yzj_bot_bridge.Bots.{Config, blank_config}
use yzj_bot_bridge.Registry.{resolve, resolve_in, answers_to}

abbrev coder : Config
coder = record blank_config { id = "b1"; role_id = "coder"; name = "Coder"; group = "g1" }

abbrev tester : Config
tester = record blank_config { id = "b2"; role_id = "tester"; name = "Tester"; group = "g2" }

abbrev both : List Config
both = coder ∷ (tester ∷ [])

tester_found : resolve " TESTER" "g2" both ≡ some tester
unfolding resolve resolve_in answers_to to_lower trim_space
tester_found = refl
