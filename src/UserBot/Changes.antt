-- ===== src/UserBot/Changes.antt =====
-- What a wait of connectCall takes from its channel: the first change of its chat that ends a wait.
use yes.Prelude.{
  ◌≡◌, refl, ap, ◌∙◌, Bool, true, false, ◌&&◌, List, [], ◌∷◌, Option, none, some, ℤ, int_eq,
  int_eq_iff, eq_ℤ, arith, if◌then◌else◌,
}
use yes.Prelude.Assoc.{lookup, lookup-insert}
use yes.UserBot.{Context, Change, connected, closed, timed_out, other_change, Channel}
use yes.UserBot.Connect.{send, send_to, on_connection_change, after_changes}

abbrev matters : Change → Bool
matters other_change = false
matters _ = true

-- The first change of a chat that ends a wait.
unfoldable pub first_change : ℤ → List (ℤ × Change) → Option Change
first_change chat_id [] = none
first_change chat_id ((id, change) ∷ changes) =
    if int_eq id chat_id && matters change then some change else first_change chat_id changes

taken : Change → Option Channel → Option Channel
taken change none = none
taken other_change (some ch) = some ch
taken change (some ch) = some (send change ch).0

-- What a change does to the channel of a chat.
lookup-send_to :
    (chat_id id : ℤ) (change : Change) (c : Context) (o : Option Channel)
    → lookup id c.wait_connect ≡ o
    → lookup chat_id (send_to id change c o).0.wait_connect ≡ (
        if int_eq id chat_id
        then taken change (lookup chat_id c.wait_connect)
        else lookup chat_id c.wait_connect)
unfolding send_to taken
lookup-send_to chat_id id change c none h = ground (arith, int_eq_iff id chat_id, h)
lookup-send_to chat_id id other_change c (some ch) h = ground (arith, int_eq_iff id chat_id, h)
lookup-send_to chat_id id connected c (some ch) h =
    lookup-insert id chat_id (send connected ch).0 c.wait_connect
    ∙ ground (arith, int_eq_iff id chat_id, h)
lookup-send_to chat_id id closed c (some ch) h =
    lookup-insert id chat_id (send closed ch).0 c.wait_connect
    ∙ ground (arith, int_eq_iff id chat_id, h)
lookup-send_to chat_id id timed_out c (some ch) h =
    lookup-insert id chat_id (send timed_out ch).0 c.wait_connect
    ∙ ground (arith, int_eq_iff id chat_id, h)

log-send_to :
    (id : ℤ) (change : Change) (c : Context) (o : Option Channel)
    → (send_to id change c o).0.log ≡ c.log
unfolding send_to
log-send_to id change c none = refl
log-send_to id other_change c (some ch) = refl
log-send_to id connected c (some ch) = refl
log-send_to id closed c (some ch) = refl
log-send_to id timed_out c (some ch) = refl

pub log-after_changes :
    (changes : List (ℤ × Change)) (c : Context) → (after_changes changes c).log ≡ c.log
unfolding after_changes on_connection_change
log-after_changes [] c = refl
log-after_changes ((id, change) ∷ changes) c =
    log-after_changes changes (on_connection_change id change c).0
    ∙ log-send_to id change c (lookup id c.wait_connect)

-- All changes in order, for a channel that holds one.
feed : ℤ → List (ℤ × Change) → Option Channel → Option Channel
feed chat_id [] o = o
feed chat_id ((id, change) ∷ changes) o =
    feed chat_id changes (if int_eq id chat_id then taken change o else o)

lookup-after_changes :
    (chat_id : ℤ) (changes : List (ℤ × Change)) (c : Context)
    → lookup chat_id (after_changes changes c).wait_connect
      ≡ feed chat_id changes (lookup chat_id c.wait_connect)
unfolding after_changes on_connection_change feed
lookup-after_changes chat_id [] c = refl
lookup-after_changes chat_id ((id, change) ∷ changes) c =
    lookup-after_changes chat_id changes (on_connection_change id change c).0
    ∙ ap (feed chat_id changes) (lookup-send_to chat_id id change c (lookup id c.wait_connect) refl)

abbrev pub held_of : Option Change → List Change
held_of none = []
held_of (some change) = change ∷ []

abbrev one : List Change → Option Channel
one held = some (record { capacity = 1; held = held })

taken-full :
    (b : Bool) (x change : Change)
    → (if b then taken change (one (x ∷ [])) else one (x ∷ [])) ≡ one (x ∷ [])
unfolding taken send
taken-full false x change = refl
taken-full true x other_change = refl
taken-full true x connected = refl
taken-full true x closed = refl
taken-full true x timed_out = refl

feed-full :
    (chat_id : ℤ) (x : Change) (changes : List (ℤ × Change))
    → feed chat_id changes (one (x ∷ [])) ≡ one (x ∷ [])
unfolding feed
feed-full chat_id x [] = refl
feed-full chat_id x ((id, change) ∷ changes) =
    ap (feed chat_id changes) (taken-full (int_eq id chat_id) x change)
    ∙ feed-full chat_id x changes

feed-first :
    (b : Bool) (chat_id : ℤ) (change : Change) (changes : List (ℤ × Change)) (o : Option Change)
    → feed chat_id changes (one []) ≡ one (held_of o)
    → feed chat_id changes (if b then taken change (one []) else one [])
      ≡ one (held_of (if b && matters change then some change else o))
unfolding taken send
feed-first false chat_id change changes o h = h
feed-first true chat_id other_change changes o h = h
feed-first true chat_id connected changes o h = feed-full chat_id connected changes
feed-first true chat_id closed changes o h = feed-full chat_id closed changes
feed-first true chat_id timed_out changes o h = feed-full chat_id timed_out changes

feed-empty :
    (chat_id : ℤ) (changes : List (ℤ × Change))
    → feed chat_id changes (one []) ≡ one (held_of (first_change chat_id changes))
unfolding feed first_change
feed-empty chat_id [] = refl
feed-empty chat_id ((id, change) ∷ changes) =
    feed-first (int_eq id chat_id) chat_id change changes (first_change chat_id changes)
      (feed-empty chat_id changes)

-- The channel of a wait holds the first change of the chat that ends a wait, and no other.
pub held-after_changes :
    (chat_id : ℤ) (changes : List (ℤ × Change)) (c : Context)
    → lookup chat_id c.wait_connect ≡ some (record { capacity = 1; held = [] })
    → lookup chat_id (after_changes changes c).wait_connect
      ≡ some (record { capacity = 1; held = held_of (first_change chat_id changes) })
held-after_changes chat_id changes c h =
    lookup-after_changes chat_id changes c
    ∙ ap (feed chat_id changes) h
    ∙ feed-empty chat_id changes
