-- ===== src/Handlers/Broadcasting.antt =====
-- What a broadcast (src/handlers/broadcast.go) does with its targets, in every interleaving of its
-- workers with the sender and with /cancelbroadcast; and its options.
use yes.Prelude.{
  ℕ, zero, suc, ◌+◌, ◌≡◌, refl, ◌∙◌, Bool, true, false, List, [], ◌∷◌, ◌++◌, Option, none, some, ℤ,
  get_elem?, arith, int_eq, if◌then◌else◌, All,
}
use yes.Handlers.Broadcast.{
  Broadcast, Worker, idle, holding, sending, resting, Answered, taken, flood_wait, refused, Event,
  feed, receive, look, forward, wake, cancel, set_worker, miss, forward_answered, fed, job_received,
  looked, forwarded, woken, step, run, idle_team, broadcast_started,
}

unfoldable pub team_sum : (Worker → ℕ) → List Worker → ℕ
team_sum f [] = 0
team_sum f (x ∷ team) = f x + team_sum f team

pub team_sum-set_worker :
    (f : Worker → ℕ) (i : ℕ) (v : Worker) (team : List Worker) {x : Worker}
    → get_elem? team i ≡ some x
    → team_sum f (set_worker i v team) + f x ≡ team_sum f team + f v
unfolding set_worker team_sum
team_sum-set_worker f i v [] e = ground (arith, e)
team_sum-set_worker f zero v (y ∷ team) e = ground (arith, e)
team_sum-set_worker f (suc i) v (y ∷ team) e = ground (arith, e, team_sum-set_worker f i v team e)

-- A weight for targets: one for each, to count them all, or one for a certain target only.
module _ (weight : ℤ → ℕ) where
  unfoldable pub weigh : List ℤ → ℕ
  weigh [] = 0
  weigh (id ∷ ids) = weight id + weigh ids

  held : Worker → ℕ
  held idle = 0
  held (holding id) = weight id
  held (sending id) = weight id
  held resting = 0

  weigh_team : List Worker → ℕ
  unfolding held team_sum
  weigh_team = team_sum held

  -- All targets of a broadcast, whatever has become of them.
  everything : Broadcast → ℕ
  unfolding weigh weigh_team
  everything b =
      (weigh b.unsent + weigh b.channel + weigh_team b.team) + (weigh b.delivered + weigh b.missed)

  weigh-append : (xs ys : List ℤ) → weigh (xs ++ ys) ≡ weigh xs + weigh ys
  unfolding weigh
  weigh-append [] ys = omega arith
  weigh-append (x ∷ xs) ys = ground (arith, weigh-append xs ys)

  weigh_team-set_worker :
      (i : ℕ) (v : Worker) (team : List Worker) {x : Worker}
      → get_elem? team i ≡ some x
      → weigh_team (set_worker i v team) + held x ≡ weigh_team team + held v
  unfolding weigh_team
  weigh_team-set_worker = team_sum-set_worker held

  everything-fed :
      (ids : List ℤ) (b : Broadcast) → b.unsent ≡ ids → everything (fed ids b) ≡ everything b
  unfolding fed everything weigh
  everything-fed [] b e = refl
  everything-fed (id ∷ ids) b e = ground (arith, e, weigh-append b.channel (id ∷ []))

  everything-job_received :
      (i : ℕ) (worker : Option Worker) (ids : List ℤ) (b : Broadcast)
      → get_elem? b.team i ≡ worker
      → b.channel ≡ ids
      → everything (job_received i worker ids b) ≡ everything b
  unfolding job_received everything weigh held
  everything-job_received i (some idle) (id ∷ ids) b e c =
      ground (arith, e, c, weigh_team-set_worker i (holding id) b.team e)
  everything-job_received i (some idle) [] b e c = refl
  everything-job_received i (some (holding x)) ids b e c = refl
  everything-job_received i (some (sending x)) ids b e c = refl
  everything-job_received i (some resting) ids b e c = refl
  everything-job_received i none ids b e c = refl

  everything-looked :
      (i : ℕ) (worker : Option Worker) (b : Broadcast)
      → get_elem? b.team i ≡ worker
      → everything (looked i worker b) ≡ everything b
  unfolding looked miss everything weigh held
  everything-looked i (some (holding id)) b e =
      ground (
        arith,
        weigh_team-set_worker i idle b.team e,
        weigh_team-set_worker i (sending id) b.team e,
      )
  everything-looked i (some idle) b e = refl
  everything-looked i (some (sending x)) b e = refl
  everything-looked i (some resting) b e = refl
  everything-looked i none b e = refl

  everything-forwarded :
      (i : ℕ) (a : Answered) (worker : Option Worker) (b : Broadcast)
      → get_elem? b.team i ≡ worker
      → everything (forwarded i a worker b) ≡ everything b
  unfolding forwarded forward_answered miss everything weigh held
  everything-forwarded i taken (some (sending id)) b e =
      ground (arith, weigh_team-set_worker i resting b.team e)
  everything-forwarded i refused (some (sending id)) b e =
      ground (arith, weigh_team-set_worker i resting b.team e)
  everything-forwarded i flood_wait (some (sending id)) b e = refl
  everything-forwarded i a (some idle) b e = refl
  everything-forwarded i a (some (holding x)) b e = refl
  everything-forwarded i a (some resting) b e = refl
  everything-forwarded i a none b e = refl

  everything-woken :
      (i : ℕ) (worker : Option Worker) (b : Broadcast)
      → get_elem? b.team i ≡ worker
      → everything (woken i worker b) ≡ everything b
  unfolding woken everything held
  everything-woken i (some resting) b e = ground (arith, weigh_team-set_worker i idle b.team e)
  everything-woken i (some idle) b e = refl
  everything-woken i (some (holding x)) b e = refl
  everything-woken i (some (sending x)) b e = refl
  everything-woken i none b e = refl

  everything-step : (e : Event) (b : Broadcast) → everything (step e b) ≡ everything b
  unfolding step
  everything-step feed b = everything-fed b.unsent b refl
  everything-step (receive i) b =
      everything-job_received i (get_elem? b.team i) b.channel b refl refl
  everything-step (look i) b = everything-looked i (get_elem? b.team i) b refl
  everything-step (forward i a) b = everything-forwarded i a (get_elem? b.team i) b refl
  everything-step (wake i) b = everything-woken i (get_elem? b.team i) b refl
  everything-step cancel b = unfold everything in refl

  everything-run : (events : List Event) (b : Broadcast) → everything (run events b) ≡ everything b
  unfolding run
  everything-run [] b = refl
  everything-run (e ∷ events) b = everything-run events (step e b) ∙ everything-step e b

  weigh_team-idle_team : (n : ℕ) → weigh_team (idle_team n) ≡ 0
  unfolding weigh_team idle_team held team_sum
  weigh_team-idle_team zero = refl
  weigh_team-idle_team (suc n) = ground (arith, weigh_team-idle_team n)

-- How often a target stands in a list.
unfoldable pub occurrences : ℤ → List ℤ → ℕ
occurrences id [] = 0
occurrences id (x ∷ ids) = (if int_eq x id then 1 else 0) + occurrences id ids

unfoldable pub is_idle : Worker → Bool
is_idle idle = true
is_idle (holding id) = false
is_idle (sending id) = false
is_idle resting = false

-- The channel is closed and empty, and the workers have ended.
unfoldable pub IsOver : Broadcast → Type 0
unfolding is_idle
IsOver b = (b.unsent ≡ []) × (b.channel ≡ []) × All (λ x. is_idle x ≡ true) b.team

weigh_team_over :
    (weight : ℤ → ℕ) (team : List Worker)
    → All (λ x. is_idle x ≡ true) team
    → weigh_team weight team ≡ 0
unfolding weigh_team held is_idle team_sum
weigh_team_over weight [] h = refl
weigh_team_over weight (idle ∷ team) (h, hs) = ground (arith, weigh_team_over weight team hs)
weigh_team_over weight (holding id ∷ team) (h, hs) = ground (arith, h)
weigh_team_over weight (sending id ∷ team) (h, hs) = ground (arith, h)
weigh_team_over weight (resting ∷ team) (h, hs) = ground (arith, h)

pub weigh_over :
    (weight : ℤ → ℕ) (targets : List ℤ) (events : List Event)
    → IsOver (run events (broadcast_started targets))
    → weigh weight (run events (broadcast_started targets)).delivered
        + weigh weight (run events (broadcast_started targets)).missed
      ≡ weigh weight targets
unfolding IsOver everything weigh broadcast_started
weigh_over weight targets events (hu, hc, ht) = ground (
  arith,
  hu,
  hc,
  weigh_team_over weight (run events (broadcast_started targets)).team ht,
  everything-run weight events (broadcast_started targets),
  weigh_team-idle_team weight 20,
)
