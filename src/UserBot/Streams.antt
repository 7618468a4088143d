-- ===== src/UserBot/Streams.antt =====
-- The sources of a chat under updates of its participants: which endpoint each participant streams to.
use std.Path.{subst}
use yes.Prelude.{
  sym, ◌≡◌, ap, ◌∙◌, Bool, true, false, List, [], ◌∷◌, Option, none, some, String, ℤ, All, int_eq,
  int_eq_iff, str_eq, eq_ℤ, eq_String, arith, Bool-cases, inl, inr, if◌then◌else◌,
}
use yes.Prelude.Assoc.{Assoc, lookup, insert, lookup-insert, lookup-remove}
use yes.UserBot.{CallParticipant, CallSources}
use yes.UserBot.Participants.{
  Roster, text_or_empty, refresh, refreshed, forgotten, present, update_by, update_one, update_all,
}

-- An endpoint is not the empty text.
abbrev pub IsNamed : Option String → Type 0
IsNamed none = Unit
IsNamed (some endpoint) = str_eq endpoint "" ≡ false

abbrev pub IsReported : CallParticipant → Type 0
IsReported p = IsNamed p.video × IsNamed p.presentation

-- The endpoint of a stream after a report with a stream or none: one that goes on keeps its endpoint.
abbrev pub continued : Option String → Option String → Option String
continued none before = none
continued (some endpoint) none = some endpoint
continued (some endpoint) (some old) = some old

-- The same of a participant and one report, which may be of another participant, or that the participant left.
abbrev pub reported :
    (CallParticipant → Option String) → ℤ → CallParticipant → Option String → Option String
reported kind id p before =
    if int_eq p.id id then (if p.left then none else continued (kind p) before) else before

-- The same after some reports.
unfoldable pub streaming :
    (CallParticipant → Option String) → ℤ → List CallParticipant → Option String → Option String
streaming kind id [] before = before
streaming kind id (p ∷ ps) before = streaming kind id ps (reported kind id p before)

-- The sources have these endpoints for the camera and the screen of a participant.
abbrev pub Has : ℤ → Option String → Option String → Option CallSources → Type 0
Has id camera screen none = ⊥
Has id camera screen (some s) =
    (lookup id s.camera_sources ≡ camera) × (lookup id s.screen_sources ≡ screen)

continued-IsNamed :
    (v before : Option String) → IsNamed v → IsNamed before → IsNamed (continued v before)
continued-IsNamed none before h k = tt
continued-IsNamed (some endpoint) none h k = h
continued-IsNamed (some endpoint) (some old) h k = k

unless_left : (left : Bool) (v : Option String) → IsNamed v → IsNamed (if left then none else v)
unless_left true v h = tt
unless_left false v h = h

reported-IsNamed :
    (kind : CallParticipant → Option String) (id : ℤ) (p : CallParticipant) (before : Option String)
    → IsNamed (kind p)
    → IsNamed before
    → IsNamed (reported kind id p before)
reported-IsNamed kind id p before h k = elim (Bool-cases (int_eq p.id id)) [
  | inr other ↦ rw other k
  | inl own ↦
      rw own
        (unless_left p.left (continued (kind p) before) (continued-IsNamed (kind p) before h k))
]

lookup-refresh_own :
    (id : ℤ) (v before : Option String) (m : Assoc ℤ String)
    (x : Assoc String Bool × Assoc String Bool)
    → lookup id m ≡ before
    → IsNamed before
    → lookup id (refresh id v (m, x)).0 ≡ continued v before
unfolding refresh text_or_empty
lookup-refresh_own id none none m x e h = rw (ap text_or_empty e) e
lookup-refresh_own id none (some t) m x e h =
    rw (ap text_or_empty e, h) (ground (arith, lookup-remove id id m, int_eq_iff id id))
lookup-refresh_own id (some endpoint) none m x e h =
    rw (ap text_or_empty e) (ground (arith, lookup-insert id id endpoint m, int_eq_iff id id))
lookup-refresh_own id (some endpoint) (some t) m x e h = rw (ap text_or_empty e, h) e

lookup-refresh_other :
    (id j : ℤ) (v : Option String) (m : Assoc ℤ String) (x : Assoc String Bool × Assoc String Bool)
    → int_eq id j ≡ false
    → lookup j (refresh id v (m, x)).0 ≡ lookup j m
unfolding refresh
lookup-refresh_other id j none m x other = ground (arith, other, lookup-remove id j m)
lookup-refresh_other id j (some endpoint) m x other =
    ground (arith, other, lookup-insert id j endpoint m)

forgotten-Has_own :
    (id : ℤ) (camera screen : Option String) (s : Option CallSources)
    → Has id camera screen s
    → Has id none none (forgotten id s)
unfolding forgotten
forgotten-Has_own id camera screen none h = h
forgotten-Has_own id camera screen (some s) h = (
  ground (arith, lookup-remove id id s.camera_sources, int_eq_iff id id),
  ground (arith, lookup-remove id id s.screen_sources, int_eq_iff id id),
)

forgotten-Has_other :
    (id j : ℤ) (camera screen : Option String) (s : Option CallSources)
    → int_eq id j ≡ false
    → Has j camera screen s
    → Has j camera screen (forgotten id s)
unfolding forgotten
forgotten-Has_other id j camera screen none other h = h
forgotten-Has_other id j camera screen (some s) other h = (
  ground (arith, lookup-remove id j s.camera_sources, other, h.0),
  ground (arith, lookup-remove id j s.screen_sources, other, h.1),
)

refreshed-Has_own :
    (p : CallParticipant) (camera screen : Option String) (s : CallSources) (r : Roster)
    → IsNamed camera
    → IsNamed screen
    → Has p.id camera screen (some s)
    → Has p.id
        (continued p.video camera)
        (continued p.presentation screen)
        (refreshed p s r).sources
unfolding refreshed
refreshed-Has_own p camera screen s r named named' h = (
  lookup-refresh_own p.id p.video camera s.camera_sources (r.added, r.removed) h.0 named,
  lookup-refresh_own p.id p.presentation screen s.screen_sources
      (refresh p.id p.video (s.camera_sources, (r.added, r.removed))).1 h.1 named',
)

refreshed-Has_other :
    (j : ℤ) (p : CallParticipant) (camera screen : Option String) (s : CallSources) (r : Roster)
    → int_eq p.id j ≡ false
    → Has j camera screen (some s)
    → Has j camera screen (refreshed p s r).sources
unfolding refreshed
refreshed-Has_other j p camera screen s r other h = (
  lookup-refresh_other p.id j p.video s.camera_sources (r.added, r.removed) other ∙ h.0,
  lookup-refresh_other p.id j p.presentation s.screen_sources
        (refresh p.id p.video (s.camera_sources, (r.added, r.removed))).1 other
      ∙ h.1,
)

present-Has_own :
    (p : CallParticipant) (camera screen : Option String) (r : Roster) (s : Option CallSources)
    → IsNamed camera
    → IsNamed screen
    → Has p.id camera screen s
    → Has p.id (continued p.video camera) (continued p.presentation screen) (present p r s).sources
unfolding present
present-Has_own p camera screen r none named named' h = h
present-Has_own p camera screen r (some s) named named' h =
    refreshed-Has_own p camera screen s (record r { participants = insert p.id p r.participants })
      named named' h

present-Has_other :
    (j : ℤ) (p : CallParticipant) (camera screen : Option String) (r : Roster)
    (s : Option CallSources)
    → int_eq p.id j ≡ false
    → Has j camera screen s
    → Has j camera screen (present p r s).sources
unfolding present
present-Has_other j p camera screen r none other h = h
present-Has_other j p camera screen r (some s) other h =
    refreshed-Has_other j p camera screen s
      (record r { participants = insert p.id p r.participants }) other h

update_by-Has_own :
    (left : Bool) (p : CallParticipant) (camera screen : Option String) (r : Roster)
    → IsNamed camera
    → IsNamed screen
    → Has p.id camera screen r.sources
    → Has p.id
        (if left then none else continued p.video camera)
        (if left then none else continued p.presentation screen)
        (update_by left p r).sources
unfolding update_by
update_by-Has_own true p camera screen r named named' h =
    forgotten-Has_own p.id camera screen r.sources h
update_by-Has_own false p camera screen r named named' h =
    present-Has_own p camera screen r r.sources named named' h

update_by-Has_other :
    (left : Bool) (j : ℤ) (p : CallParticipant) (camera screen : Option String) (r : Roster)
    → int_eq p.id j ≡ false
    → Has j camera screen r.sources
    → Has j camera screen (update_by left p r).sources
unfolding update_by
update_by-Has_other true j p camera screen r other h =
    forgotten-Has_other p.id j camera screen r.sources other h
update_by-Has_other false j p camera screen r other h =
    present-Has_other j p camera screen r r.sources other h

update_one-Has :
    (id : ℤ) (p : CallParticipant) (camera screen : Option String) (r : Roster)
    → IsNamed camera
    → IsNamed screen
    → Has id camera screen r.sources
    → Has id
        (reported (λ q. q.video) id p camera)
        (reported (λ q. q.presentation) id p screen)
        (update_one p r).sources
unfolding update_one
update_one-Has id p camera screen r named named' h = elim (Bool-cases (int_eq p.id id)) [
  | inr other ↦ rw other (update_by-Has_other p.left id p camera screen r other h)
  | inl own ↦
      let same : p.id ≡ id = (int_eq_iff p.id id).0 own in
      rw own (
        subst
          (λ j.
            Has j (if p.left then none else continued p.video camera)
              (if p.left then none else continued p.presentation screen)
              (update_by p.left p r).sources)
          same
          (update_by-Has_own p.left p camera screen r named named'
            (subst (λ j. Has j camera screen r.sources) (sym same) h)))
]

pub update_all-Has :
    (id : ℤ) (ps : List CallParticipant) (camera screen : Option String) (r : Roster)
    → All IsReported ps
    → IsNamed camera
    → IsNamed screen
    → Has id camera screen r.sources
    → Has id
        (streaming (λ q. q.video) id ps camera)
        (streaming (λ q. q.presentation) id ps screen)
        (update_all ps r).sources
unfolding update_all streaming
update_all-Has id [] camera screen r all named named' h = h
update_all-Has id (p ∷ ps) camera screen r (first, all) named named' h =
    update_all-Has id ps (reported (λ q. q.video) id p camera)
      (reported (λ q. q.presentation) id p screen) (update_one p r) all
      (reported-IsNamed (λ q. q.video) id p camera first.0 named)
      (reported-IsNamed (λ q. q.presentation) id p screen first.1 named')
      (update_one-Has id p camera screen r named named' h)
