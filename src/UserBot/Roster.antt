-- ===== src/UserBot/Roster.antt =====
-- What the bot knows of a call after updates: its participants, and the endpoints to which they stream.
use yes.Prelude.{
  sym, ℕ, ◌≡◌, refl, ap, ◌∙◌, Bool, true, false, List, [], ◌∷◌, Option, none, some, String, ℤ, All,
  int_eq, int_eq_iff, eq_ℤ, eq_String, arith, if◌then◌else◌,
}
use std.Path.{subst}
use yes.Prelude.Assoc.{Assoc, lookup, insert, lookup-insert, lookup-remove}
use yes.UserBot.{Context, CallParticipant, ParticipantsCache, CallSources, does}
use yes.UserBot.Participants.{
  Roster, refreshed, forgotten, present, update_by, stored_sources, update_one, update_all,
  add_incoming, remove_incoming, cached_participants, participants_of, roster, stored_participants,
  update_participants,
}
use yes.UserBot.Streams.{IsNamed, IsReported, Has, streaming, update_all-Has}

-- The last word of some updates on a participant, who was `before`: gone, or as last reported.
unfoldable pub latest : ℤ → List CallParticipant → Option CallParticipant → Option CallParticipant
latest id [] before = before
latest id (p ∷ ps) before =
    latest id ps (if int_eq p.id id then (if p.left then none else some p) else before)

participants-update_one :
    (id : ℤ) (p : CallParticipant) (r : Roster)
    → lookup id (update_one p r).participants
      ≡ (if int_eq p.id id then (if p.left then none else some p) else lookup id r.participants)
unfolding update_one update_by present refreshed
participants-update_one id p r =
    ground (arith, lookup-insert p.id id p r.participants, lookup-remove p.id id r.participants)

participants-update_all :
    (id : ℤ) (ps : List CallParticipant) (r : Roster)
    → lookup id (update_all ps r).participants ≡ latest id ps (lookup id r.participants)
unfolding update_all latest
participants-update_all id [] r = refl
participants-update_all id (p ∷ ps) r =
    participants-update_all id ps (update_one p r)
    ∙ ap (latest id ps) (participants-update_one id p r)

own-insert {ℓ} : {A : Type ℓ} (id : ℤ) (a : A) (m : Assoc ℤ A) → lookup id (insert id a m) ≡ some a
own-insert id a m = ground (arith, lookup-insert id id a m, int_eq_iff id id)

-- The commands to the call library change nothing that the bot knows.
known : ℤ → Context → Option ParticipantsCache × Option CallSources
known chat_id c = (lookup chat_id c.call_participants, lookup chat_id c.call_sources)

known-add_incoming :
    (j chat_id : ℤ) (m : Assoc String Bool) (c : Context)
    → known j (add_incoming chat_id m c) ≡ known j c
unfolding known add_incoming
known-add_incoming j chat_id [] c = refl
known-add_incoming j chat_id ((endpoint, b) ∷ m) c = known-add_incoming j chat_id m (does _ c)

known-remove_incoming :
    (j chat_id : ℤ) (m : Assoc String Bool) (c : Context)
    → known j (remove_incoming chat_id m c) ≡ known j c
unfolding known remove_incoming
known-remove_incoming j chat_id [] c = refl
known-remove_incoming j chat_id ((endpoint, b) ∷ m) c = known-remove_incoming j chat_id m (does _ c)

-- A chat has sources after an update if it had some before.
abbrev is_missing : Option CallSources → Bool
is_missing none = true
is_missing (some s) = false

missing-update_by :
    (left : Bool) (p : CallParticipant) (r : Roster)
    → is_missing (update_by left p r).sources ≡ is_missing r.sources
unfolding update_by present forgotten refreshed
missing-update_by left p r = ground arith

missing-update_all :
    (ps : List CallParticipant) (r : Roster)
    → is_missing (update_all ps r).sources ≡ is_missing r.sources
unfolding update_all update_one
missing-update_all [] r = refl
missing-update_all (p ∷ ps) r =
    missing-update_all ps (update_one p r) ∙ missing-update_by p.left p r

lookup-stored_sources :
    (chat_id : ℤ) (s : Option CallSources) (m : Assoc ℤ CallSources)
    → is_missing s ≡ is_missing (lookup chat_id m)
    → lookup chat_id (stored_sources chat_id s m) ≡ s
unfolding stored_sources
lookup-stored_sources chat_id none m h = ground arith
lookup-stored_sources chat_id (some s) m h =
    ground (arith, lookup-insert chat_id chat_id s m, int_eq_iff chat_id chat_id)

known-stored_participants :
    (now : ℕ) (chat_id : ℤ) (r : Roster) (c : Context)
    → is_missing r.sources ≡ is_missing (lookup chat_id c.call_sources)
    → known chat_id (stored_participants now chat_id r c)
      ≡ (some (record { participants = r.participants; last_update = now }), r.sources)
unfolding known stored_participants
known-stored_participants now chat_id r c h = λ i. (
  own-insert chat_id (record { participants = r.participants; last_update = now })
      c.call_participants i,
  lookup-stored_sources chat_id r.sources c.call_sources h i,
)

known-update_participants :
    (now : ℕ) (chat_id : ℤ) (ps : List CallParticipant) (c : Context)
    → let r = update_all ps (roster chat_id c) in
      known chat_id (update_participants now chat_id ps c)
      ≡ (some (record { participants = r.participants; last_update = now }), r.sources)
unfolding update_participants
known-update_participants now chat_id ps c =
    let r = update_all ps (roster chat_id c) in
    known-remove_incoming chat_id chat_id r.removed
      (add_incoming chat_id r.added (stored_participants now chat_id r c))
    ∙ known-add_incoming chat_id chat_id r.added (stored_participants now chat_id r c)
    ∙ known-stored_participants now chat_id r c (missing-update_all ps (roster chat_id c))

-- After an update of the participants of a chat's call, each participant that the bot has for the chat is the one
-- of the last report on it in the update: absent if that says that it left, as reported otherwise, and
-- as it was before if the update does not report on it.
pub participants-update_participants :
    (now : ℕ) (chat_id id : ℤ) (ps : List CallParticipant) (c : Context)
    → lookup id (participants_of chat_id (update_participants now chat_id ps c))
      ≡ latest id ps (lookup id (participants_of chat_id c))
unfolding lookup known
participants-update_participants now chat_id id ps c =
    ap (λ k. lookup id (cached_participants (k.0))) (known-update_participants now chat_id ps c)
    ∙ participants-update_all id ps (roster chat_id c)

-- If the endpoints of the reported streams are not empty, and a chat with sources has `camera` and `screen`, not
-- empty, as the endpoints of a participant, if any, then after an update of the chat's participants these
-- endpoints are what the reports on the participant make of them in order: none after it left or reported no
-- stream, that of the first report of a stream that begins, and the same while the stream goes on,
-- whatever endpoint is reported then.
pub sources-update_participants :
    (now : ℕ) (chat_id id : ℤ) (ps : List CallParticipant) (camera screen : Option String)
    (c : Context)
    → All IsReported ps
    → IsNamed camera
    → IsNamed screen
    → Has id camera screen (lookup chat_id c.call_sources)
    → Has id
        (streaming (λ p. p.video) id ps camera)
        (streaming (λ p. p.presentation) id ps screen)
        (lookup chat_id (update_participants now chat_id ps c).call_sources)
unfolding lookup known
sources-update_participants now chat_id id ps camera screen c all named named' h =
    subst
      (λ k.
        Has id (streaming (λ p. p.video) id ps camera)
          (streaming (λ p. p.presentation) id ps screen) k.1)
      (sym (known-update_participants now chat_id ps c))
      (update_all-Has id ps camera screen (roster chat_id c) all named named' h)
