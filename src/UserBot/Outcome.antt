-- ===== src/UserBot/Outcome.antt =====
-- How connectCall ends for a group, and whether it tells the call library to stop the group's call.
use yes.Prelude.{
  ℕ, suc, if◌then◌else◌, ◌≡◌, refl, ap, ◌∙◌, Bool, ◌&&◌, List, [], Option, none, some, ℤ, negsuc,
  eq_ℤ, arith,
}
use std.Path.{subst}
use yes.Prelude.Assoc.{Assoc, lookup, insert, lookup-insert}
use yes.UserBot.{
  Context, MediaDescription, Change, connected, closed, timed_out, other_change, Ended, ok, failed,
  panicked, waiting,
}
use yes.UserBot.Connect.{Answers, wait_connection, received, connect_group}
use yes.UserBot.Calling.{connect_call, cleaned, begin, connect_chat}
use yes.UserBot.Changes.{first_change, held_of, log-after_changes, held-after_changes}
use yes.UserBot.Stops.{
  is_ok, stops, expected, joins, is_answered, given, is_connect, Both, stops_of, int_eq_self,
  same_input_call, connect_group-Both, wait_connect-connect_group,
}

received-is_ok :
    (o : Option Change)
    → is_ok (received (some (record { capacity = 1; held = held_of o }))) ≡ is_connect o
unfolding received
received-is_ok none = refl
received-is_ok (some connected) = refl
received-is_ok (some closed) = refl
received-is_ok (some timed_out) = refl
received-is_ok (some other_change) = refl

wait_connection-Both :
    (changes : List (ℤ × Change)) (id : ℤ) (r : Context × Ended) (done : Bool) (n : ℕ)
    → lookup id r.0.wait_connect ≡ some (record { capacity = 1; held = [] })
    → Both id r done n
    → Both id (wait_connection changes id r) (done && is_connect (first_change id changes)) n
unfolding wait_connection Both
wait_connection-Both changes id (c, ok) done n fresh both = (
  ap (λ ch. is_ok (received ch)) (held-after_changes id changes c fresh)
      ∙ received-is_ok (first_change id changes)
      ∙ ground (arith, both.0),
  ap (stops_of id) (log-after_changes changes c) ∙ both.1,
)
wait_connection-Both changes id (c, failed error) done n fresh both =
    (ground (arith, both.0), both.1)
wait_connection-Both changes id (c, panicked) done n fresh both = (ground (arith, both.0), both.1)
wait_connection-Both changes id (c, waiting) done n fresh both = (ground (arith, both.0), both.1)

own-insert {ℓ} : {A : Type ℓ} (id : ℤ) (a : A) (m : Assoc ℤ A) → lookup id (insert id a m) ≡ some a
own-insert id a m = ground (arith, lookup-insert id id a m, int_eq_self id)

begun-Both :
    (a : Answers) (n : ℕ) (media : MediaDescription) (c : Context)
    → lookup (negsuc n) c.wait_connect ≡ some (record { capacity = 1; held = [] })
    → let joined = joins a.group (negsuc n) c in
      Both
        (negsuc n)
        (cleaned
          (negsuc n)
          (wait_connection a.changes (negsuc n) (connect_group a.group (negsuc n) media c)))
        ((joined && is_answered a.group) && is_connect (first_change (negsuc n) a.changes))
        (expected (stops (negsuc n) c) joined)
unfolding cleaned Both
begun-Both a n media c fresh =
    let joined = joins a.group (negsuc n) c in
    wait_connection-Both a.changes (negsuc n) (connect_group a.group (negsuc n) media c)
      (joined && is_answered a.group) (expected (stops (negsuc n) c) joined)
      (ap (lookup (negsuc n)) (wait_connect-connect_group a.group (negsuc n) media c) ∙ fresh)
      (connect_group-Both a.group (negsuc n) media c)

-- connectCall for a group ends without an error exactly when the call is created and takes its sources, the group has
-- a call, the join gives updates, the connection and the question for its mode succeed, and the first change of
-- the group's connection that is reported and ends a wait is that it is connected. It tells the call library
-- once to stop the group's call exactly when the join was not reached, and never after a failed join,
-- connection or wait.
pub connect_call_lem :
    (a : Answers) (n : ℕ) (media : MediaDescription) (c : Context)
    → let chat_id = negsuc n in
      let r = connect_call a chat_id media c in
      (is_ok r.1
        ≡ (joins a.group chat_id c && is_answered a.group)
          && is_connect (first_change chat_id a.changes))
      × (stops chat_id r.0
          ≡ (if joins a.group chat_id c then stops chat_id c else suc (stops chat_id c)))
unfolding connect_call cleaned begin connect_chat Both
connect_call_lem a n media c =
    subst
      (λ call.
        let joined = given a.group.created && (a.group.sources_set && given call) in
        Both (negsuc n) (connect_call a (negsuc n) media c)
          ((joined && is_answered a.group) && is_connect (first_change (negsuc n) a.changes))
          (expected (stops (negsuc n) c) joined))
      (same_input_call a.group.full (negsuc n) c (begin (negsuc n) c) refl)
      (begun-Both a n media (begin (negsuc n) c) (own-insert (negsuc n) _ c.wait_connect))
