-- ===== src/Watcher/Delivery.antt =====
-- internal/watcher/watcher.go, Watch: the poll, the timer and the timer's functions as steps that come
-- in any order.
use tsgonest.Common.{
  ℕ, zero, suc, ◌+◌, ◌≡◌, ◌∙◌, refl, Bool, true, false, ◌||◌, ltb, List, [], ◌∷◌, ◌++◌, arith,
  if◌then◌else◌, ap, if_cases,
}
use tsgonest.Common.Lists.{is_empty}
use tsgonest.Watcher.{
  Event, Snapshot, State, start, poll, expire, take_one, take, stop, finish, diff,
}

-- The states that a Watcher reaches, with the events that its polls have found.
pub data Reached (snapshot : Snapshot) : List Event → State → Type 0 where
  started : Reached snapshot [] (start snapshot)
  polled :
      {events : List Event} {s : State} (new : Snapshot)
      → Reached snapshot events s
      → s.looping ≡ true
      → Reached snapshot (events ++ diff s.snapshot new) (poll new s)
  expired :
      {events : List Event} {s : State}
      → Reached snapshot events s
      → Reached snapshot events (expire s)
  taken :
      {events : List Event} {s : State}
      → Reached snapshot events s
      → Reached snapshot events (take s)
  delivered :
      {events : List Event} {s : State} (before after : List (List Event)) (batch : List Event)
      → Reached snapshot events s
      → s.in_flight ≡ before ++ batch ∷ after
      → Reached snapshot events
          (record s { in_flight = before ++ after; delivered = s.delivered ++ batch ∷ [] })
  stopped :
      {events : List Event} {s : State}
      → Reached snapshot events s
      → Reached snapshot events (stop s)
  finished :
      {events : List Event} {s : State}
      → Reached snapshot events s
      → Reached snapshot events (finish s)

-- How many events of a kind there are.
abbrev pub count : (Event → Bool) → List Event → ℕ
count p [] = 0
count p (e ∷ es) = (if p e then 1 else 0) + count p es

abbrev pub count_all : (Event → Bool) → List (List Event) → ℕ
count_all p [] = 0
count_all p (es ∷ more) = count p es + count_all p more

count-append :
    (p : Event → Bool) (xs ys : List Event) → count p (xs ++ ys) ≡ count p xs + count p ys
count-append p [] ys = ground arith
count-append p (x ∷ xs) ys = ground (arith, count-append p xs ys)

count_all-append :
    (p : Event → Bool) (xs ys : List (List Event))
    → count_all p (xs ++ ys) ≡ count_all p xs + count_all p ys
count_all-append p [] ys = ground arith
count_all-append p (x ∷ xs) ys = ground (arith, count_all-append p xs ys)

abbrev pub held : (Event → Bool) → State → ℕ
held p s = count p s.pending + count_all p s.in_flight + count_all p s.delivered

poll-held :
    (p : Event → Bool) (new : Snapshot) (s : State)
    → held p (poll new s) ≡ held p s + count p (diff s.snapshot new)
unfolding poll
poll-held p new s = go (diff s.snapshot new)
  where
    go :
        (events : List Event)
        → held p (
            if is_empty events
            then record s { snapshot = new }
            else record s { snapshot = new; pending = s.pending ++ events; armed = true })
          ≡ held p s + count p events
    go [] = ground arith
    go (e ∷ es) = ground (arith, count-append p s.pending (e ∷ es))

expire-held : (p : Event → Bool) (s : State) → held p (expire s) ≡ held p s
unfolding expire
expire-held p s = if_cases (λ s'. held p s' ≡ held p s) s.armed _ s (λ _. refl) (λ _. refl)

finish-held : (p : Event → Bool) (s : State) → held p (finish s) ≡ held p s
unfolding finish
finish-held p s = if_cases (λ s'. held p s' ≡ held p s) s.watching s _ (λ _. refl) (λ _. refl)

count-is_empty : (p : Event → Bool) (es : List Event) → is_empty es ≡ true → count p es ≡ 0
count-is_empty p [] h = refl
count-is_empty p (e ∷ es) h = absurd (ground arith)

take_one-held : (p : Event → Bool) (n : ℕ) (s : State) → held p (take_one n s) ≡ held p s
unfolding take_one
take_one-held p zero s = refl
take_one-held p (suc n) s =
    if_cases (λ s'. held p s' ≡ held p s) (is_empty s.pending) _ _ (λ _. refl) (λ _. ground arith)

take-held : (p : Event → Bool) (s : State) → held p (take s) ≡ held p s
unfolding take
take-held p s = take_one-held p s.waiting s

-- Whatever kind of events is counted: what is pending, in flight and delivered is what the polls have
-- found. No event is lost and none is delivered twice.
pub Reached-held :
    (p : Event → Bool) (snapshot : Snapshot) (events : List Event) (s : State)
    → Reached snapshot events s
    → held p s ≡ count p events
Reached-held p snapshot [] _ started = refl
Reached-held p snapshot _ _ (polled {events} {s} new r e) = ground (
  arith,
  Reached-held p snapshot events s r,
  poll-held p new s,
  count-append p events (diff s.snapshot new),
)
Reached-held p snapshot _ _ (expired {events} {s} r) =
    ground (arith, Reached-held p snapshot events s r, expire-held p s)
Reached-held p snapshot _ _ (taken {events} {s} r) =
    ground (arith, Reached-held p snapshot events s r, take-held p s)
Reached-held p snapshot _ _ (delivered {events} {s} before after batch r e) = ground (
  arith,
  Reached-held p snapshot events s r,
  ap (count_all p) e,
  count_all-append p before (batch ∷ after),
  count_all-append p before after,
  count_all-append p s.delivered (batch ∷ []),
)
Reached-held p snapshot _ _ (stopped {events} {s} r) = Reached-held p snapshot events s r
Reached-held p snapshot _ _ (finished {events} {s} r) =
    finish-held p s ∙ Reached-held p snapshot events s r

-- What is pending has a timer, or a function of one, that will take it.
abbrev Ready : State → Type 0
Ready s = (is_empty s.pending || (s.armed || ltb 0 s.waiting)) ≡ true

poll-Ready : (new : Snapshot) (s : State) → Ready s → Ready (poll new s)
unfolding poll
poll-Ready new s h =
    if_cases Ready (is_empty (diff s.snapshot new)) _ _ (λ _. h) (λ _. ground arith)

expire-Ready : (s : State) → Ready s → Ready (expire s)
unfolding expire
expire-Ready s h = if_cases Ready s.armed _ s (λ _. ground arith) (λ _. h)

take_one-Ready : (n : ℕ) (s : State) → Ready s → Ready (take_one n s)
unfolding take_one
take_one-Ready zero s h = h
take_one-Ready (suc n) s h = if_cases Ready (is_empty s.pending) _ _ (λ e. ground arith) (λ _. refl)

take-Ready : (s : State) → Ready s → Ready (take s)
unfolding take
take-Ready s h = take_one-Ready s.waiting s h

finish-Ready : (s : State) → Ready s → Ready (finish s)
unfolding finish
finish-Ready s h = if_cases Ready s.watching s _ (λ _. h) (λ _. h)

Reached-Ready :
    (snapshot : Snapshot) (events : List Event) (s : State) → Reached snapshot events s → Ready s
Reached-Ready snapshot _ _ started = refl
Reached-Ready snapshot _ _ (polled {events} {s} new r e) =
    poll-Ready new s (Reached-Ready snapshot events s r)
Reached-Ready snapshot _ _ (expired {events} {s} r) =
    expire-Ready s (Reached-Ready snapshot events s r)
Reached-Ready snapshot _ _ (taken {events} {s} r) = take-Ready s (Reached-Ready snapshot events s r)
Reached-Ready snapshot _ _ (delivered {events} {s} before after batch r e) =
    Reached-Ready snapshot events s r
Reached-Ready snapshot _ _ (stopped {events} {s} r) = Reached-Ready snapshot events s r
Reached-Ready snapshot _ _ (finished {events} {s} r) =
    finish-Ready s (Reached-Ready snapshot events s r)

take_one-empty :
    (n : ℕ) (s : State)
    → (is_empty s.pending || ltb 0 n) ≡ true
    → is_empty (take_one n s).pending ≡ true
unfolding take_one
take_one-empty zero s h = ground (arith)
take_one-empty (suc n) s h =
    if_cases {A = State} (λ s'. is_empty s'.pending ≡ true) (is_empty s.pending) _ _ (λ e. e)
      (λ _. refl)

-- After the timer and one function of it nothing is pending.
take-empty : (s : State) → Ready s → is_empty (take (expire s)).pending ≡ true
unfolding take expire
take-empty s h =
    if_cases {A = State} (λ s'. is_empty (take_one s'.waiting s').pending ≡ true) s.armed _ s
      (λ e.
        take_one-empty (suc s.waiting) (record s { armed = false; waiting = suc s.waiting })
          (ground arith))
      (λ e. take_one-empty s.waiting s (ground arith))

-- What the timer and its functions alone make of a state.
pub data TimerSteps : State → State → Type 0 where
  done : (s : State) → TimerSteps s s
  expires : {s t : State} → TimerSteps (expire s) t → TimerSteps s t
  takes : {s t : State} → TimerSteps (take s) t → TimerSteps s t
  delivers :
      {s t : State} (before after : List (List Event)) (batch : List Event)
      → s.in_flight ≡ before ++ batch ∷ after
      → TimerSteps
          (record s { in_flight = before ++ after; delivered = s.delivered ++ batch ∷ [] })
          t
      → TimerSteps s t

flush :
    (snapshot : Snapshot) (events : List Event) (batches : List (List Event)) (s : State)
    → Reached snapshot events s
    → s.in_flight ≡ batches
    → is_empty s.pending ≡ true
    → (s' : State) × TimerSteps s s'
      × Reached snapshot events s'
      × (s'.in_flight ≡ [])
      × (is_empty s'.pending ≡ true)
flush snapshot events [] s r e h = (s, done s, r, e, h)
flush snapshot events (b ∷ bs) s r e h =
    let (s', d, r', e', h') = flush snapshot events bs _ (delivered [] bs b r e) refl h in
    (s', delivers [] bs b e d, r', e', h')

-- From every state that a Watcher reaches, stopped or not, steps of the timer and of its functions
-- alone lead to one where exactly the events that the polls have found were handed to onChange.
pub Reached-drains :
    (snapshot : Snapshot) (events : List Event) (s : State)
    → Reached snapshot events s
    → (s' : State) × TimerSteps s s'
      × ((p : Event → Bool) → count_all p s'.delivered ≡ count p events)
Reached-drains snapshot events s r =
    let (s', d, r', none_left, none_pending) =
      flush snapshot events _ _ (taken (expired r)) refl
        (take-empty s (Reached-Ready snapshot events s r)) in
    (
      s',
      expires (takes d),
      λ p. ground (
        arith,
        Reached-held p snapshot events s' r',
        ap (count_all p) none_left,
        count-is_empty p s'.pending none_pending,
      ),
    )
