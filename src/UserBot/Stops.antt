-- ===== src/UserBot/Stops.antt =====
-- How each step of connectCall ends for a group, and how often it tells the call library to stop the group's call.
use yes.Prelude.{
  ℕ, suc, ◌≡◌, refl, ap, ◌∙◌, Bool, true, false, ◌&&◌, List, [], ◌∷◌, ◌++◌, Option, none, some,
  String, ℤ, int_eq, int_eq_iff, str_eq, eq_ℤ, arith, Bool-cases, inl, inr, if◌then◌else◌,
}
use std.Path.{subst}
use yes.UserBot.{
  Context, CallRef, MediaDescription, Change, connected, Command, create_call, stop_call,
  set_sources, join_call, connect, does, Ended, ok,
}
use yes.UserBot.GroupCalls.{FullChat, get_input_group_call, stored_call, full_call, fetched_call}
use yes.UserBot.Connect.{
  JoinAnswer, join_failed, other_updates, joined_with, Mode, stream_connection, rtc_connection,
  other_connection, GroupAnswers, connect_group, stopped_with, after_mode, after_connect,
  after_join, after_input_call, after_sources, after_create, result_params,
}

abbrev pub is_stop : ℤ → Command → Bool
is_stop chat_id (stop_call id) = int_eq id chat_id
is_stop chat_id _ = false

-- How many of the commands are a `Stop` for the chat.
unfoldable pub stops_of : ℤ → List Command → ℕ
stops_of chat_id [] = 0
stops_of chat_id (command ∷ log) =
    let rest = stops_of chat_id log in if is_stop chat_id command then suc rest else rest

abbrev pub stops : ℤ → Context → ℕ
stops chat_id c = stops_of chat_id c.log

abbrev pub is_ok : Ended → Bool
is_ok ok = true
is_ok _ = false

abbrev pub is_joined : JoinAnswer → Bool
is_joined (joined_with updates) = true
is_joined _ = false

abbrev pub given {ℓ} : {A : Type ℓ} → Option A → Bool
given none = false
given (some a) = true

-- Whether connectCall comes to the join of the group's call, and whether the join gives updates and what follows has
-- no error.
abbrev pub joins : GroupAnswers → ℤ → Context → Bool
joins a chat_id c =
    given a.created && (a.sources_set && given (get_input_group_call a.full chat_id c).1)

abbrev pub is_answered : GroupAnswers → Bool
is_answered a = is_joined a.joined && (a.is_connected && given a.mode)

abbrev pub is_connect : Option Change → Bool
is_connect (some connected) = true
is_connect _ = false

stops_of-snoc :
    (chat_id : ℤ) (log : List Command) (command : Command)
    → stops_of chat_id (log ++ command ∷ [])
      ≡ (if is_stop chat_id command then suc (stops_of chat_id log) else stops_of chat_id log)
unfolding stops_of
stops_of-snoc chat_id [] command = refl
stops_of-snoc chat_id (first ∷ log) command = ground (arith, stops_of-snoc chat_id log command)

-- A command that is not a `Stop` for the chat.
stops-does :
    (chat_id : ℤ) (command : Command) (n : ℕ) (c : Context)
    → is_stop chat_id command ≡ false
    → stops chat_id c ≡ n
    → stops chat_id (does command c) ≡ n
stops-does chat_id command n c other h =
    ground (arith, stops_of-snoc chat_id c.log command, other, h)

pub int_eq_self : (id : ℤ) → int_eq id id ≡ true
int_eq_self id = ground (arith, int_eq_iff id id)

stops-stop :
    (id : ℤ) (n : ℕ) (c : Context) → stops id c ≡ n → stops id (does (stop_call id) c) ≡ suc n
stops-stop id n c h = ground (arith, stops_of-snoc id c.log (stop_call id), int_eq_self id, h)

-- The `Stop`s after a step that had n before it: one more, unless the join was reached.
abbrev pub expected : ℕ → Bool → ℕ
expected n reached = if reached then n else suc n

-- How a step ends, and how often the library has then been told to stop the call of the chat.
unfoldable pub Both : ℤ → Context × Ended → Bool → ℕ → Type 0
Both chat_id r done n = (is_ok r.1 ≡ done) × (stops chat_id r.0 ≡ n)

stopped_with-Both :
    (id : ℤ) (error : String) (n : ℕ) (c : Context)
    → stops id c ≡ n
    → Both id (stopped_with id error c) false (suc n)
unfolding stopped_with Both
stopped_with-Both id error n c h = (refl, stops-stop id n c h)

after_mode-Both :
    (id : ℤ) (media : MediaDescription) (params : String) (mode : Option Mode) (n : ℕ) (c : Context)
    → stops id c ≡ n
    → Both id (after_mode id media params mode c) (given mode) n
unfolding after_mode Both
after_mode-Both id media params none n c h = (refl, h)
after_mode-Both id media params (some stream_connection) n c h =
    elim (Bool-cases (str_eq params "")) [
      | inl is_empty ↦ rw is_empty (refl, h)
      | inr full ↦ rw full (refl, h)
    ]
after_mode-Both id media params (some rtc_connection) n c h = (refl, h)
after_mode-Both id media params (some other_connection) n c h = (refl, h)

after_connect-Both :
    (a : GroupAnswers) (id : ℤ) (media : MediaDescription) (params : String) (done : Bool) (n : ℕ)
    (c : Context)
    → stops id c ≡ n
    → Both id (after_connect a id media params done c) (done && given a.mode) n
unfolding after_connect Both
after_connect-Both a id media params false n c h = (refl, h)
after_connect-Both a id media params true n c h = after_mode-Both id media params a.mode n c h

after_join-Both :
    (a : GroupAnswers) (id : ℤ) (media : MediaDescription) (params : String) (joined : JoinAnswer)
    (n : ℕ) (c : Context)
    → stops id c ≡ n
    → Both id
        (after_join a id media params joined c)
        (is_joined joined && (a.is_connected && given a.mode))
        n
unfolding after_join Both
after_join-Both a id media params join_failed n c h = (refl, h)
after_join-Both a id media params other_updates n c h = (refl, h)
after_join-Both a id media params (joined_with updates) n c h =
    let command = connect id (result_params "{\"transport\": null}" updates) false in
    after_connect-Both a id media params a.is_connected n (does command c)
      (stops-does id command n c refl h)

after_input_call-Both :
    (a : GroupAnswers) (id : ℤ) (media : MediaDescription) (params : String) (n : ℕ)
    (r : Context × Option CallRef)
    → stops id r.0 ≡ n
    → Both id
        (after_input_call a id media params r)
        (given r.1 && is_answered a)
        (expected n (given r.1))
unfolding after_input_call
after_input_call-Both a id media params n (c, none) h =
    stopped_with-Both id "input_group_call" n c h
after_input_call-Both a id media params n (c, some call) h =
    after_join-Both a id media params a.joined n (does (join_call id) c)
      (stops-does id (join_call id) n c refl h)

log-get_input_group_call :
    (full : FullChat) (id : ℤ) (c : Context) → (get_input_group_call full id c).0.log ≡ c.log
unfolding get_input_group_call stored_call full_call fetched_call
log-get_input_group_call full id c = ground arith

after_sources-Both :
    (a : GroupAnswers) (id : ℤ) (media : MediaDescription) (params : String) (done : Bool) (n : ℕ)
    (c : Context)
    → stops id c ≡ n
    → let joined = done && given (get_input_group_call a.full id c).1 in
      Both id (after_sources a id media params done c) (joined && is_answered a) (expected n joined)
unfolding after_sources
after_sources-Both a id media params false n c h = stopped_with-Both id "sources" n c h
after_sources-Both a id media params true n c h =
    after_input_call-Both a id media params n (get_input_group_call a.full id c)
      (ap (stops_of id) (log-get_input_group_call a.full id c) ∙ h)

pub same_input_call :
    (full : FullChat) (id : ℤ) (c c' : Context)
    → c'.input_group_calls ≡ c.input_group_calls
    → (get_input_group_call full id c').1 ≡ (get_input_group_call full id c).1
unfolding get_input_group_call stored_call full_call fetched_call
same_input_call full id c c' h = ground (arith, h)

after_create-Both :
    (a : GroupAnswers) (id : ℤ) (media : MediaDescription) (created : Option String) (n : ℕ)
    (c : Context)
    → stops id c ≡ n
    → let joined = given created && (a.sources_set && given (get_input_group_call a.full id c).1) in
      Both id (after_create a id media created c) (joined && is_answered a) (expected n joined)
unfolding after_create
after_create-Both a id media none n c h = stopped_with-Both id "create" n c h
after_create-Both a id media (some params) n c h =
    let d = does (set_sources id media) c in
    subst
      (λ call.
        Both id (after_sources a id media params a.sources_set d)
          ((a.sources_set && given call) && is_answered a)
          (expected n (a.sources_set && given call)))
      (same_input_call a.full id c d refl)
      (after_sources-Both a id media params a.sources_set n d
        (stops-does id (set_sources id media) n c refl h))

pub connect_group-Both :
    (a : GroupAnswers) (id : ℤ) (media : MediaDescription) (c : Context)
    → Both id
        (connect_group a id media c)
        (joins a id c && is_answered a)
        (expected (stops id c) (joins a id c))
unfolding connect_group
connect_group-Both a id media c =
    let d = does (create_call id) c in
    subst
      (λ call.
        let joined = given a.created && (a.sources_set && given call) in
        Both id (after_create a id media a.created d) (joined && is_answered a)
          (expected (stops id c) joined))
      (same_input_call a.full id c d refl)
      (after_create-Both a id media a.created (stops id c) d
        (stops-does id (create_call id) (stops id c) c refl refl))

pub wait_connect-connect_group :
    (a : GroupAnswers) (id : ℤ) (media : MediaDescription) (c : Context)
    → (connect_group a id media c).0.wait_connect ≡ c.wait_connect
unfolding connect_group stopped_with after_mode after_connect after_join after_input_call
    after_sources after_create get_input_group_call stored_call full_call fetched_call
wait_connect-connect_group a id media c = ground arith
