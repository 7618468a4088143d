-- ===== src/Tests/Commands.antt =====
-- The commands on concrete inputs.
use yes.Prelude.{◌≡◌, refl, [], ◌∷◌, pos, eq_ℤ}
use yes.Prelude.Assoc.{lookup}
use yes.Prelude.Decimal.{atoi}
use yes.ChatCache.{get_queue, is_active}
use yes.Handlers.{says_with}
use yes.Handlers.Commands.{remove_handler_last}
use yes.Handlers.Controls.{remove_handler}
use yes.Tests.Data.{room, player}

remove_handler_last_example :
    remove_handler room "2" player ≡ (player, says_with "remove_success" (pos 2 ∷ []))
unfolding is_active get_queue lookup atoi
remove_handler_last_example = remove_handler_last room "2" 1 player refl refl refl
