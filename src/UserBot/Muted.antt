-- ===== src/UserBot/Muted.antt =====
-- Which chats the bot takes to have muted the assistant, after updates on the participants.
use yes.Prelude.{
  ◌≡◌, refl, sym, ap, ◌∙◌, Bool, true, false, not, ◌&&◌, List, [], ◌∷◌, ◌++◌, some, ℤ, int_eq,
  int_eq_iff, eq_ℤ, arith, Bool-cases, inl, inr, if◌then◌else◌,
}
use std.Path.{subst}
use yes.Database.Utilities.{contains}
use yes.UserBot.{Context, CallParticipant, Ended, ok, failed, panicked, waiting}
use yes.UserBot.Ids.{contains-std_remove}
use yes.UserBot.Connect.{rtc_connection}
use yes.UserBot.Calling.{SelfAnswers, note_all, note_one, note_self, note_next, may_speak, unmuted}

-- What the last report on the assistant says, and what held before if there is none.
unfoldable pub last_mute : ℤ → List CallParticipant → Bool → Bool
last_mute self_id [] before = before
last_mute self_id (p ∷ ps) before =
    last_mute self_id ps
      (if p.is_user && int_eq p.id self_id then not p.can_self_unmute else before)

abbrev pub is_muted : ℤ → Context → Bool
is_muted chat_id c = contains c.muted_by_admin chat_id

-- The call is a call of its own, and the library and Telegram answer.
pub record IsAnswered (s : SelfAnswers) : Type 0 where
  pub mode_is_rtc : s.mode ≡ some rtc_connection
  pub gives_state : s.has_state ≡ true
  pub takes_state : s.edited ≡ true

Noted : Context × Ended → ℤ → ℤ → Bool → Type 0
Noted r self_id chat_id muted =
    (r.1 ≡ ok) × ((r.0.self_id ≡ self_id) × (is_muted chat_id r.0 ≡ muted))

contains-snoc : (list : List ℤ) (id : ℤ) → contains (list ++ id ∷ []) id ≡ true
unfolding contains
contains-snoc [] id = ground (arith, int_eq_iff id id)
contains-snoc (v ∷ list) id = ground (arith, contains-snoc list id)

unmuted-Noted :
    (s : SelfAnswers) (chat_id : ℤ) (c : Context)
    → IsAnswered s
    → Noted (unmuted s chat_id c) c.self_id chat_id false
unfolding unmuted Noted
unmuted-Noted s chat_id c h = rw h.gives_state (
    rw h.takes_state (
      refl,
      (
        refl,
        contains-std_remove c.muted_by_admin chat_id chat_id
            ∙ ground (arith, int_eq_iff chat_id chat_id),
      ),
    ))

may_speak-Noted :
    (s : SelfAnswers) (chat_id : ℤ) (c : Context)
    → IsAnswered s
    → Noted (may_speak s chat_id (some rtc_connection) c) c.self_id chat_id false
unfolding may_speak Noted
may_speak-Noted s chat_id c h = elim (Bool-cases (is_muted chat_id c)) [
  | inl was ↦ rw was (unmuted-Noted s chat_id c h)
  | inr never ↦ rw never (refl, (refl, never))
]

note_self-Noted :
    (s : SelfAnswers) (chat_id : ℤ) (can : Bool) (c : Context)
    → IsAnswered s
    → Noted (note_self s chat_id can c) c.self_id chat_id (not can)
unfolding note_self Noted
note_self-Noted s chat_id true c h =
    subst (λ mode. Noted (may_speak s chat_id mode c) c.self_id chat_id false) (sym h.mode_is_rtc)
      (may_speak-Noted s chat_id c h)
note_self-Noted s chat_id false c h = elim (Bool-cases (is_muted chat_id c)) [
  | inl was ↦ rw was (refl, (refl, was))
  | inr never ↦ rw never (refl, (refl, contains-snoc c.muted_by_admin chat_id))
]

note_one-Noted :
    (s : SelfAnswers) (chat_id : ℤ) (p : CallParticipant) (c : Context)
    → IsAnswered s
    → Noted
        (note_one s chat_id p c)
        c.self_id
        chat_id
        (if p.is_user && int_eq p.id c.self_id then not p.can_self_unmute else is_muted chat_id c)
unfolding note_one Noted
note_one-Noted s chat_id p c h = elim (Bool-cases (p.is_user && int_eq p.id c.self_id)) [
  | inl own ↦ rw own (note_self-Noted s chat_id p.can_self_unmute c h)
  | inr other ↦ rw other (refl, (refl, refl))
]

note_next_ok :
    (next : Context → Context × Ended) (r : Context × Ended)
    → r.1 ≡ ok
    → note_next next r ≡ next r.0
unfolding note_next
note_next_ok next (c, ok) h = refl
note_next_ok next (c, failed error) h = ground (arith, h)
note_next_ok next (c, panicked) h = ground (arith, h)
note_next_ok next (c, waiting) h = ground (arith, h)

-- If the call is a call of its own, and the call library and Telegram answer, then after the handler
-- the chat stands among those that muted the assistant exactly if the last report on the assistant says
-- that it cannot unmute itself, or there is no report on it and the chat stood there before. The
-- handler ends without an error.
pub muted-note_all :
    (a : ℤ → SelfAnswers) (chat_id : ℤ) (ps : List CallParticipant) (c : Context)
    → ((id : ℤ) → IsAnswered (a id))
    → ((note_all a chat_id ps c).1 ≡ ok)
      × (is_muted chat_id (note_all a chat_id ps c).0 ≡ last_mute c.self_id ps (is_muted chat_id c))
unfolding note_all last_mute Noted
muted-note_all a chat_id [] c h = (refl, refl)
muted-note_all a chat_id (p ∷ ps) c h =
    let first = note_one-Noted (a p.id) chat_id p c (h p.id) in
    let r = note_one (a p.id) chat_id p c in
    let rest = muted-note_all a chat_id ps r.0 h in
    let same = note_next_ok (note_all a chat_id ps) r first.0 in
    (
      ap (λ x. x.1) same ∙ rest.0,
      ap (λ x. is_muted chat_id x.0) same
          ∙ rest.1
          ∙ (λ i. last_mute (first.1.0 i) ps (first.1.1 i)),
    )
