-- ===== src/UserBot/Cleanup.antt =====
-- When connectCall does not wait forever for its own mutex, and what it then leaves behind.
use yes.Prelude.{
  ◌≡◌, refl, Bool, true, false, List, Option, none, some, ℤ, pos, negsuc, int_eq_iff, eq_ℤ, arith,
}
use yes.Prelude.Assoc.{Assoc, lookup, remove, lookup-remove}
use yes.UserBot.{Context, MediaDescription, Change, Channel, Ended, ok, failed, panicked, waiting}
use yes.UserBot.GroupCalls.{get_input_group_call, stored_call, full_call, fetched_call}
use yes.UserBot.Connect.{
  GroupAnswers, Answers, wait_connection, received, after_changes, connect_group, stopped_with,
  after_mode, after_connect, after_join, after_input_call, after_sources, after_create,
}
use yes.UserBot.Dial.{connect_user}
use yes.UserBot.Unblocked.{is_waiting, is_other_answer, IsUnblocked, dial_with-IsUnblocked}
use yes.UserBot.Calling.{connect_call, cleaned, begin, connect_chat}

connect_group-IsUnblocked :
    (a : GroupAnswers) (id : ℤ) (media : MediaDescription) (c : Context)
    → IsUnblocked (connect_group a id media c)
unfolding connect_group stopped_with after_mode after_connect after_join after_input_call
    after_sources after_create get_input_group_call stored_call full_call fetched_call IsUnblocked
connect_group-IsUnblocked a id media c = ground arith

received-ends : (o : Option Channel) → is_waiting (received o) ≡ false
unfolding received
received-ends none = refl
received-ends (some ch) = ground arith

wait_connection-IsUnblocked :
    (changes : List (ℤ × Change)) (id : ℤ) (r : Context × Ended)
    → IsUnblocked r
    → IsUnblocked (wait_connection changes id r)
unfolding wait_connection IsUnblocked
wait_connection-IsUnblocked changes id (c, ok) h =
    received-ends (lookup id (after_changes changes c).wait_connect)
wait_connection-IsUnblocked changes id (c, failed error) h = h
wait_connection-IsUnblocked changes id (c, panicked) h = h
wait_connection-IsUnblocked changes id (c, waiting) h = h

connect_chat-IsUnblocked :
    (a : Answers) (id : ℤ) (media : MediaDescription) (c : Context)
    → is_other_answer a.phone.confirmed ≡ false
    → IsUnblocked (connect_chat a id media c)
unfolding connect_chat connect_user
connect_chat-IsUnblocked a (pos n) media c usual =
    dial_with-IsUnblocked a.phone (pos n) usual media (lookup (pos n) c.p2p_configs) c refl
connect_chat-IsUnblocked a (negsuc n) media c usual =
    connect_group-IsUnblocked a.group (negsuc n) media c

own-remove {ℓ} : {A : Type ℓ} (id : ℤ) (m : Assoc ℤ A) → lookup id (remove id m) ≡ none
own-remove id m = ground (arith, lookup-remove id id m, int_eq_iff id id)

abbrev pub is_user : ℤ → Bool
is_user (pos n) = true
is_user (negsuc n) = false

-- What is left behind.
Forgets : ℤ → Context × Ended → Type 0
Forgets chat_id r =
    (is_waiting r.1 ≡ false)
    × (lookup chat_id r.0.wait_connect ≡ none)
    × (is_user chat_id ≡ true → lookup chat_id r.0.p2p_configs ≡ none)

cleaned-Forgets :
    (chat_id : ℤ) (r : Context × Ended) → IsUnblocked r → Forgets chat_id (cleaned chat_id r)
unfolding cleaned Forgets IsUnblocked
cleaned-Forgets (pos n) (c, waiting) h = ground (arith, h)
cleaned-Forgets (pos n) (c, ok) h =
    (h, own-remove (pos n) c.wait_connect, λ _. own-remove (pos n) c.p2p_configs)
cleaned-Forgets (pos n) (c, failed error) h =
    (h, own-remove (pos n) c.wait_connect, λ _. own-remove (pos n) c.p2p_configs)
cleaned-Forgets (pos n) (c, panicked) h =
    (h, own-remove (pos n) c.wait_connect, λ _. own-remove (pos n) c.p2p_configs)
cleaned-Forgets (negsuc n) (c, e) h =
    (h, own-remove (negsuc n) c.wait_connect, λ user. ground (arith, user))

-- If Telegram does not answer the confirmation of a call with something else than the call, and only the handlers of
-- updates on phone calls run meanwhile, connectCall does not wait forever for its own mutex. However it then
-- ends, with an error or a panic too, the chat has no channel to wait on, and a chat with one user has no
-- configuration of a call any more.
pub connect_call-forgets :
    (a : Answers) (chat_id : ℤ) (media : MediaDescription) (c : Context)
    → is_other_answer a.phone.confirmed ≡ false
    → let r = connect_call a chat_id media c in
      (is_waiting r.1 ≡ false)
      × (lookup chat_id r.0.wait_connect ≡ none)
      × (is_user chat_id ≡ true → lookup chat_id r.0.p2p_configs ≡ none)
unfolding connect_call Forgets
connect_call-forgets a chat_id media c usual =
    let b = begin chat_id c in
    cleaned-Forgets chat_id (wait_connection a.changes chat_id (connect_chat a chat_id media b)) (
      wait_connection-IsUnblocked a.changes chat_id (connect_chat a chat_id media b)
        (connect_chat-IsUnblocked a chat_id media b usual))
