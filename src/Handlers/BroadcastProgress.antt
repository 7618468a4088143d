-- ===== src/Handlers/BroadcastProgress.antt =====
-- The workers of /broadcast (src/handlers/broadcast.go) never block each other.
use yes.Prelude.{
  ℕ, zero, suc, ◌+◌, ◌*◌, ◌<◌, ◌≡◌, ◌⊎◌, inl, inr, refl, ◌∙◌, true, false, List, [], ◌∷◌, some, ℤ,
  length, get_elem?, arith, All,
}
use yes.Handlers.Broadcast.{
  Broadcast, Worker, idle, holding, sending, resting, taken, Event, feed, receive, look, forward,
  wake, cancel, set_worker, miss, forward_answered, fed, job_received, looked, forwarded, woken,
  step, run, idle_team, broadcast_started,
}
use yes.Handlers.Broadcasting.{IsOver, is_idle, team_sum, team_sum-set_worker}

-- What a worker has left to do with its target.
rank : Worker → ℕ
rank idle = 0
rank (holding id) = 3
rank (sending id) = 2
rank resting = 1

-- A bound on the events that are left.
unfoldable pub work : Broadcast → ℕ
unfolding rank
work b = (length b.unsent * 5 + length b.channel * 4) + team_sum rank b.team

busy_cases :
    (team : List Worker)
    → All (λ x. is_idle x ≡ true) team
      ⊎ ((i : ℕ) × (x : Worker) × (get_elem? team i ≡ some x) × (is_idle x ≡ false))
unfolding is_idle
busy_cases [] = inl tt
busy_cases (holding id ∷ team) = inr (0, holding id, refl, refl)
busy_cases (sending id ∷ team) = inr (0, sending id, refl, refl)
busy_cases (resting ∷ team) = inr (0, resting, refl, refl)
busy_cases (idle ∷ team) = elim (busy_cases team) [
  | inl h ↦ inl (refl, h)
  | inr (i, x, e, h) ↦ inr (suc i, x, e, h)
]

-- The next event of a worker that is not idle, if Telegram takes its message.
next_event : ℕ → Worker → Event
next_event i idle = receive i
next_event i (holding id) = look i
next_event i (sending id) = forward i taken
next_event i resting = wake i

work-next_event :
    (i : ℕ) (x : Worker) (b : Broadcast)
    → get_elem? b.team i ≡ some x
    → is_idle x ≡ false
    → work (step (next_event i x) b) < work b
unfolding next_event step work looked forwarded woken forward_answered miss rank is_idle
work-next_event i idle b e h = ground (arith, h)
work-next_event i (holding id) b e h = ground (
  arith,
  e,
  team_sum-set_worker rank i idle b.team e,
  team_sum-set_worker rank i (sending id) b.team e,
)
work-next_event i (sending id) b e h =
    ground (arith, e, team_sum-set_worker rank i resting b.team e)
work-next_event i resting b e h = ground (arith, e, team_sum-set_worker rank i idle b.team e)

received_less :
    (b : Broadcast) (x : Worker) (id : ℤ) (ids : List ℤ)
    → get_elem? b.team 0 ≡ some x
    → is_idle x ≡ true
    → b.channel ≡ id ∷ ids
    → work (step (receive 0) b) < work b
unfolding step job_received work rank is_idle
received_less b idle id ids e h c =
    ground (arith, e, c, team_sum-set_worker rank 0 (holding id) b.team e)
received_less b (holding x) id ids e h c = ground (arith, h)
received_less b (sending x) id ids e h c = ground (arith, h)
received_less b resting id ids e h c = ground (arith, h)

fed_less :
    (b : Broadcast) (id : ℤ) (ids : List ℤ)
    → b.channel ≡ []
    → b.unsent ≡ id ∷ ids
    → work (step feed b) < work b
unfolding step fed work
fed_less b id ids c u = ground (arith, c, u)

List-cases : (xs : List ℤ) → (xs ≡ []) ⊎ ((x : ℤ) × (ys : List ℤ) × (xs ≡ x ∷ ys))
List-cases [] = inl refl
List-cases (x ∷ ys) = inr (x, ys, refl)

first_is_idle :
    (team : List Worker) (x : Worker)
    → get_elem? team 0 ≡ some x
    → All (λ y. is_idle y ≡ true) team
    → is_idle x ≡ true
first_is_idle [] x e h = ground (arith, e)
first_is_idle (y ∷ team) x e (h, hs) = ground (arith, e, h)

-- A broadcast with a worker is over, or some event brings it nearer to its end: no deadlock.
pub progress :
    (b : Broadcast) (x : Worker)
    → get_elem? b.team 0 ≡ some x
    → IsOver b ⊎ ((e : Event) × (work (step e b) < work b))
unfolding IsOver
progress b x first = elim (busy_cases b.team) [
  | inr (i, y, e, h) ↦ inr (next_event i y, work-next_event i y b e h)
  | inl all_idle ↦ elim (List-cases b.channel) [
    | inr (id, ids, c) ↦
        inr (receive 0, received_less b x id ids first (first_is_idle b.team x first all_idle) c)
    | inl c ↦ elim (List-cases b.unsent) [
      | inr (id, ids, u) ↦ inr (feed, fed_less b id ids c u)
      | inl u ↦ inl (u, c, all_idle)
    ]
  ]
]

length-set_worker :
    (i : ℕ) (v : Worker) (team : List Worker) → length (set_worker i v team) ≡ length team
unfolding set_worker
length-set_worker i v [] = refl
length-set_worker zero v (x ∷ team) = refl
length-set_worker (suc i) v (x ∷ team) = ground (arith, length-set_worker i v team)

length-step : (e : Event) (b : Broadcast) → length (step e b).team ≡ length b.team
unfolding step fed job_received looked forwarded woken forward_answered miss
length-step feed b = ground arith
length-step (receive i) b = grind (arith, length-set_worker)
length-step (look i) b = grind (arith, length-set_worker)
length-step (forward i a) b = grind (arith, length-set_worker)
length-step (wake i) b = grind (arith, length-set_worker)
length-step cancel b = refl

first_worker : (team : List Worker) → 0 < length team → (x : Worker) × (get_elem? team 0 ≡ some x)
first_worker [] h = ground (arith, h)
first_worker (x ∷ team) h = (x, refl)

end_of :
    (n : ℕ) (b : Broadcast)
    → work b < n
    → 0 < length b.team
    → (later : List Event) × IsOver (run later b)
unfolding run
end_of zero b h k = ground (arith, h)
end_of (suc n) b h k =
    let (x, first) = first_worker b.team k in
    elim (progress b x first) [
      | inl over ↦ ([], over)
      | inr (e, less) ↦
          let (later, over) =
            end_of n (step e b) (omega (arith, less, h)) (omega (arith, length-step e b, k)) in
          (e ∷ later, over)
    ]

length-run : (events : List Event) (b : Broadcast) → length (run events b).team ≡ length b.team
unfolding run
length-run [] b = refl
length-run (e ∷ events) b = length-run events (step e b) ∙ length-step e b

-- Whatever has happened in a broadcast so far, there are further events after which it is over: no
-- interleaving of the workers and the sender blocks it.
pub broadcast_ends :
    (targets : List ℤ) (events : List Event)
    → (later : List Event) × IsOver (run later (run events (broadcast_started targets)))
unfolding broadcast_started idle_team
broadcast_ends targets events =
    end_of (suc (work (run events (broadcast_started targets))))
      (run events (broadcast_started targets)) (omega arith)
      (omega (arith, length-run events (broadcast_started targets)))
