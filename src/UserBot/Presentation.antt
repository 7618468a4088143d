-- ===== src/UserBot/Presentation.antt =====
-- src/vc/ubot/join_presentation.go: a chat's shared screen.
use yes.Prelude.{Bool, true, false, [], ◌∷◌, ◌++◌, Option, none, some, String, ℤ, eq_ℤ}
use yes.Prelude.Assoc.{lookup, insert, remove}
use yes.Database.Utilities.{contains}
use yes.UserBot.{
  Context, Pending, Change, connect, init_presentation, join_presentation_call, leave_presentation,
  stop_presentation, does, Ended, ok, failed, panicked, waiting,
}
use yes.UserBot.Ids.{std_remove}
use yes.UserBot.Connect.{
  JoinAnswer, join_failed, other_updates, joined_with, Mode, stream_connection, rtc_connection,
  other_connection, result_params,
}

-- The answers, and the changes of the connection that the library reports meanwhile.
pub record ScreenAnswers : Type 0 where
  pub mode : Option Mode
  pub initialised : Option String
  pub joined : JoinAnswer
  pub is_connected : Bool
  pub change : Option Change
  pub is_stopped : Bool
  pub left : Bool

-- A pending connection, if the chat has one, joins with or without the screen.
with_presentation : ℤ → Bool → Context → Option Pending → Context
with_presentation chat_id join c none = c
with_presentation chat_id join c (some pending) = record c {
  pending_connections =
      insert chat_id (record pending { presentation = join }) c.pending_connections;
}

-- The channel holds nothing, so that the receive takes what the handler of the change sends; what it takes is not
-- looked at.
shown_after : ℤ → Option Change → Context → Context × Ended
shown_after chat_id none c = (c, waiting)
shown_after chat_id (some Change.other_change) c = (c, waiting)
shown_after chat_id (some change) c =
    (record c { presentations = c.presentations ++ chat_id ∷ [] }, ok)

after_screen_connect : ScreenAnswers → ℤ → Bool → Context → Context × Ended
after_screen_connect a chat_id false c = (c, failed "connect")
after_screen_connect a chat_id true c = shown_after chat_id a.change c

after_screen_join : ScreenAnswers → ℤ → JoinAnswer → Context → Context × Ended
after_screen_join a chat_id join_failed c = (c, failed "join_presentation")
after_screen_join a chat_id other_updates c = (c, panicked)
after_screen_join a chat_id (joined_with updates) c =
    after_screen_connect a chat_id a.is_connected
      (does (connect chat_id (result_params "{\"transport\": null}" updates) true) c)

after_init : ScreenAnswers → ℤ → Option String → Context → Context × Ended
after_init a chat_id none c = (c, failed "init_presentation")
after_init a chat_id (some params) c =
    after_screen_join a chat_id a.joined (does (join_presentation_call chat_id) c)

-- By whether the chat has a presentation already.
begin_screen : ScreenAnswers → ℤ → Bool → Context → Context × Ended
begin_screen a chat_id true c = (c, ok)
begin_screen a chat_id false c = after_init a chat_id a.initialised (
    does (init_presentation chat_id) (record c {
      wait_connect = insert chat_id (record { capacity = 0; held = [] }) c.wait_connect;
    }))

after_leave : Bool → Context → Context × Ended
after_leave false c = (c, failed "leave_presentation")
after_leave true c = (c, ok)

after_stop : ScreenAnswers → ℤ → Bool → Context → Context × Ended
after_stop a chat_id false c = (c, failed "stop_presentation")
after_stop a chat_id true c = after_leave a.left (does (leave_presentation chat_id) c)

end_screen : ScreenAnswers → ℤ → Bool → Context → Context × Ended
end_screen a chat_id false c = (c, ok)
end_screen a chat_id true c = after_stop a chat_id a.is_stopped (
    does (stop_presentation chat_id)
      (record c { presentations = std_remove c.presentations chat_id }))

by_mode : ScreenAnswers → ℤ → Bool → Option Mode → Context → Context × Ended
by_mode a chat_id join none c = (c, failed "connection_mode")
by_mode a chat_id join (some stream_connection) c =
    (with_presentation chat_id join c (lookup chat_id c.pending_connections), ok)
by_mode a chat_id true (some rtc_connection) c =
    begin_screen a chat_id (contains c.presentations chat_id) c
by_mode a chat_id false (some rtc_connection) c =
    end_screen a chat_id (contains c.presentations chat_id) c
by_mode a chat_id join (some other_connection) c = (c, ok)

-- The deferred function, which does not run while the method waits.
forget_wait : ℤ → Context × Ended → Context × Ended
forget_wait chat_id (c, waiting) = (c, waiting)
forget_wait chat_id (c, e) = (record c { wait_connect = remove chat_id c.wait_connect }, e)

unfoldable pub join_presentation : ScreenAnswers → ℤ → Bool → Context → Context × Ended
unfolding with_presentation shown_after after_screen_connect after_screen_join after_init
    begin_screen after_leave after_stop end_screen by_mode forget_wait
join_presentation a chat_id join c = forget_wait chat_id (by_mode a chat_id join a.mode c)
