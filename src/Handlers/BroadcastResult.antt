-- ===== src/Handlers/BroadcastResult.antt =====
-- The numbers that /broadcast reports (src/handlers/broadcast.go).
use yes.Prelude.{
  ℕ, ◌+◌, ◌%◌, ◌^◌, ◌<◌, ◌≡◌, refl, List, [], ◌∷◌, Option, none, some, ℤ, length, get_elem?, arith,
  int_eq, if◌then◌else◌,
}
use yes.Handlers.Broadcast.{
  Broadcast, Worker, idle, holding, sending, resting, Answered, taken, flood_wait, refused, Event,
  feed, receive, look, forward, wake, cancel, miss, forward_answered, fed, job_received, looked,
  forwarded, woken, step, run, broadcast_started,
}
use yes.Handlers.Broadcasting.{weigh, weigh_over, occurrences, IsOver}

weigh-occurrences :
    (id : ℤ) (ids : List ℤ) → weigh (λ x. if int_eq x id then 1 else 0) ids ≡ occurrences id ids
unfolding weigh occurrences
weigh-occurrences id [] = refl
weigh-occurrences id (x ∷ ids) = ground (arith, weigh-occurrences id ids)

weigh-length : (ids : List ℤ) → weigh (λ x. 1) ids ≡ length ids
unfolding weigh
weigh-length [] = refl
weigh-length (x ∷ ids) = ground (arith, weigh-length ids)

-- The counters are the numbers of the targets in the two lists, on 32 bits.
IsCounted : Broadcast → Type 0
IsCounted b = (b.success ≡ length b.delivered % 2 ^ 32) × (b.failed ≡ length b.missed % 2 ^ 32)

fed-IsCounted : (ids : List ℤ) (b : Broadcast) → IsCounted b → IsCounted (fed ids b)
unfolding fed IsCounted
fed-IsCounted [] b h = h
fed-IsCounted (id ∷ ids) b (h, k) = ground (arith, h, k)

job_received-IsCounted :
    (i : ℕ) (worker : Option Worker) (ids : List ℤ) (b : Broadcast)
    → IsCounted b
    → IsCounted (job_received i worker ids b)
unfolding job_received IsCounted
job_received-IsCounted i (some idle) (id ∷ ids) b h = h
job_received-IsCounted i (some idle) [] b h = h
job_received-IsCounted i (some (holding x)) ids b h = h
job_received-IsCounted i (some (sending x)) ids b h = h
job_received-IsCounted i (some resting) ids b h = h
job_received-IsCounted i none ids b h = h

looked-IsCounted :
    (i : ℕ) (worker : Option Worker) (b : Broadcast) → IsCounted b → IsCounted (looked i worker b)
unfolding looked miss IsCounted
looked-IsCounted i (some (holding id)) b (h, k) = ground (arith, h, k)
looked-IsCounted i (some idle) b h = h
looked-IsCounted i (some (sending x)) b h = h
looked-IsCounted i (some resting) b h = h
looked-IsCounted i none b h = h

forwarded-IsCounted :
    (i : ℕ) (a : Answered) (worker : Option Worker) (b : Broadcast)
    → IsCounted b
    → IsCounted (forwarded i a worker b)
unfolding forwarded forward_answered miss IsCounted
forwarded-IsCounted i taken (some (sending id)) b (h, k) = (omega (arith, h), k)
forwarded-IsCounted i refused (some (sending id)) b (h, k) = (h, omega (arith, k))
forwarded-IsCounted i flood_wait (some (sending id)) b h = h
forwarded-IsCounted i a (some idle) b h = h
forwarded-IsCounted i a (some (holding x)) b h = h
forwarded-IsCounted i a (some resting) b h = h
forwarded-IsCounted i a none b h = h

woken-IsCounted :
    (i : ℕ) (worker : Option Worker) (b : Broadcast) → IsCounted b → IsCounted (woken i worker b)
unfolding woken IsCounted
woken-IsCounted i (some resting) b h = h
woken-IsCounted i (some idle) b h = h
woken-IsCounted i (some (holding x)) b h = h
woken-IsCounted i (some (sending x)) b h = h
woken-IsCounted i none b h = h

step-IsCounted : (e : Event) (b : Broadcast) → IsCounted b → IsCounted (step e b)
unfolding step
step-IsCounted feed b h = fed-IsCounted b.unsent b h
step-IsCounted (receive i) b h = job_received-IsCounted i (get_elem? b.team i) b.channel b h
step-IsCounted (look i) b h = looked-IsCounted i (get_elem? b.team i) b h
step-IsCounted (forward i a) b h = forwarded-IsCounted i a (get_elem? b.team i) b h
step-IsCounted (wake i) b h = woken-IsCounted i (get_elem? b.team i) b h
step-IsCounted cancel b h = unfold IsCounted in h

run-IsCounted : (events : List Event) (b : Broadcast) → IsCounted b → IsCounted (run events b)
unfolding run
run-IsCounted [] b h = h
run-IsCounted (e ∷ events) b h = run-IsCounted events (step e b) (step-IsCounted e b h)

counters :
    (targets : List ℤ) (events : List Event)
    → ((run events (broadcast_started targets)).success
        ≡ length (run events (broadcast_started targets)).delivered % 2 ^ 32)
      × ((run events (broadcast_started targets)).failed
          ≡ length (run events (broadcast_started targets)).missed % 2 ^ 32)
unfolding IsCounted broadcast_started
counters targets events = run-IsCounted events (broadcast_started targets) (refl, refl)

-- However its workers, the sender and /cancelbroadcast interleave, and whatever Telegram answers: when a
-- broadcast to fewer than 2^31 targets is over, each target was delivered or missed as often as it
-- stands among the targets, and the two numbers of the report are those of the delivered and of the missed
-- ones, which together are all.
pub broadcast_over :
    (targets : List ℤ) (events : List Event)
    → length targets < 2 ^ 31
    → IsOver (run events (broadcast_started targets))
    → ((id : ℤ)
        → occurrences id (run events (broadcast_started targets)).delivered
            + occurrences id (run events (broadcast_started targets)).missed
          ≡ occurrences id targets)
      × ((run events (broadcast_started targets)).success
          ≡ length (run events (broadcast_started targets)).delivered)
      × ((run events (broadcast_started targets)).failed
          ≡ length (run events (broadcast_started targets)).missed)
      × ((run events (broadcast_started targets)).success
            + (run events (broadcast_started targets)).failed
          ≡ length targets)
broadcast_over targets events bound over =
    let b = run events (broadcast_started targets) in
    let (hs, hf) = counters targets events in
    let all_of = weigh_over (λ x. 1) targets events over in
    let by_delivered = weigh-length b.delivered in
    let by_missed = weigh-length b.missed in
    let by_all = weigh-length targets in
    (
      λ id. ground (
        arith,
        weigh_over (λ x. if int_eq x id then 1 else 0) targets events over,
        weigh-occurrences id b.delivered,
        weigh-occurrences id b.missed,
        weigh-occurrences id targets,
      ),
      ground (arith, by_delivered, by_missed, by_all, all_of, hs),
      ground (arith, by_delivered, by_missed, by_all, all_of, hf),
      ground (arith, by_delivered, by_missed, by_all, all_of, hs, hf),
    )
