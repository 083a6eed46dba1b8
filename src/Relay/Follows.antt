-- ===== src/Relay/Follows.antt =====
-- Messages that a stream has written beside the list of all messages stored.
use nvda_remote_go.Prelude.{
  ℕ, zero, suc, ◌+◌, ◌≤◌, ◌<◌, ◌≡◌, ap, ◌∙◌, subst, Bytes, Option, none, some, List, [], ◌∷◌, ◌++◌,
  arith, length, take, drop, drop-nil, Option-cases, inl, inr,
}
use nvda_remote_go.Session.State.{Session, SequencedMessage}
use nvda_remote_go.Session.Backlog.{Numbered, payloads}
use nvda_remote_go.Session.History.{Call, acknowledges, step, run}
use nvda_remote_go.Relay.Stream.{Sse, Event, message, write_sse_message, write_each}

-- The element at a place.
abbrev pub nth {ℓ} : {A : Type ℓ} → ℕ → List A → Option A
nth n [] = none
nth zero (x ∷ xs) = some x
nth (suc n) (x ∷ xs) = nth n xs

nth-append {ℓ} :
    {A : Type ℓ} (n : ℕ) (x : A) (xs ys : List A) → nth n xs ≡ some x → nth n (xs ++ ys) ≡ some x
nth-append n x [] ys h = cc
nth-append zero x (y ∷ xs) ys h = h
nth-append (suc n) x (y ∷ xs) ys h = nth-append n x xs ys h

nth-lt {ℓ} : {A : Type ℓ} (n : ℕ) (x : A) (xs : List A) → nth n xs ≡ some x → n < length xs
nth-lt n x [] h = absurd cc
nth-lt zero x (y ∷ xs) h = omega arith
nth-lt (suc n) x (y ∷ xs) h = omega (arith, nth-lt n x xs h)

-- Whether a call acknowledges no more than that number.
abbrev pub AckWithin : ℕ → Call → Type 0
AckWithin n (acknowledges now sequence) = sequence ≤ n
AckWithin n _ = Unit {0}

abbrev pub AcksWithin : ℕ → List Call → Type 0
AcksWithin n [] = Unit {0}
AcksWithin n (c ∷ cs) = AckWithin n c × AcksWithin n cs

step-acknowledged :
    (n : ℕ) (s : Session) (c : Call)
    → AckWithin n c
    → s.acknowledged ≤ n
    → (step s c).acknowledged ≤ n
unfolding step
step-acknowledged n s (acknowledges now sequence) h le = ground arith
step-acknowledged n s _ h le = ground arith

pub run-acknowledged :
    (n : ℕ) (s : Session) (cs : List Call)
    → AcksWithin n cs
    → s.acknowledged ≤ n
    → (run s cs).acknowledged ≤ n
unfolding run
run-acknowledged n s [] h le = le
run-acknowledged n s (c ∷ cs) h le =
    run-acknowledged n (step s c) cs h.1 (step-acknowledged n s c h.0 le)

-- The messages stand in the log at the places after that number, one after the other.
abbrev pub Listed : ℕ → List SequencedMessage → List Bytes → Type 0
Listed n [] log = Unit {0}
Listed n (m ∷ ms) log = (m.sequence ≡ suc n) × (nth n log ≡ some m.payload) × Listed (suc n) ms log

taken_first {ℓ} :
    {A : Type ℓ} (k n : ℕ) (x : A) (xs log : List A)
    → x ∷ xs ≡ take k (drop n log)
    → (j : ℕ) × (nth n log ≡ some x) × (xs ≡ take j (drop (suc n) log))
taken_first zero n x xs log h = absurd cc
taken_first (suc k) n x xs [] h = let e = h ∙ ap (take (suc k)) (drop-nil n) in absurd cc
taken_first (suc k) zero x xs (y ∷ log) h = (k, cc, cc)
taken_first (suc k) (suc n) x xs (y ∷ log) h = taken_first (suc k) n x xs log h

pub batch-Listed :
    (k n b : ℕ) (ms : List SequencedMessage) (log : List Bytes)
    → Numbered n ms b
    → payloads ms ≡ take k (drop n log)
    → Listed n ms log
batch-Listed k n b [] log h e = tt
batch-Listed k n b (m ∷ ms) log h e =
    let (j, at, rest) = taken_first k n m.payload (payloads ms) log e in
    (h.0, at, batch-Listed j (suc n) b ms log h.1 rest)

abbrev pub message_count : List Event → ℕ
message_count [] = 0
message_count (message m frame ∷ es) = suc (message_count es)
message_count (_ ∷ es) = message_count es

pub message_count-append :
    (es fs : List Event) → message_count (es ++ fs) ≡ message_count es + message_count fs
message_count-append [] fs = omega arith
message_count-append (message m frame ∷ es) fs = omega (arith, message_count-append es fs)
message_count-append (Event.ready ∷ es) fs = message_count-append es fs
message_count-append (Event.keepalive ∷ es) fs = message_count-append es fs

module _ (sse : Sse) where
  -- The messages among the events are those stored at the places after that number, one after the
  -- other, in the form they are written in.
  abbrev pub Follows : ℕ → List Event → List Bytes → Type 0
  Follows n [] log = Unit {0}
  Follows n (message m frame ∷ es) log =
      (m.sequence ≡ suc n)
      × (nth n log ≡ some m.payload)
      × (write_sse_message sse m ≡ some frame)
      × Follows (suc n) es log
  Follows n (_ ∷ es) log = Follows n es log

  pub Follows-append :
      (n k : ℕ) (es fs : List Event) (log : List Bytes)
      → k ≡ n + message_count es
      → Follows n es log
      → Follows k fs log
      → Follows n (es ++ fs) log
  Follows-append n k [] fs log e f g = subst (λ j. Follows j fs log) (omega arith) g
  Follows-append n k (message m frame ∷ es) fs log e f g =
      (f.0, f.1, f.2, Follows-append (suc n) k es fs log (omega arith) f.3 g)
  Follows-append n k (Event.ready ∷ es) fs log e f g = Follows-append n k es fs log e f g
  Follows-append n k (Event.keepalive ∷ es) fs log e f g = Follows-append n k es fs log e f g

  pub Follows-extend :
      (n : ℕ) (es : List Event) (log more : List Bytes)
      → Follows n es log
      → Follows n es (log ++ more)
  Follows-extend n [] log more f = tt
  Follows-extend n (message m frame ∷ es) log more f =
      (f.0, nth-append n m.payload log more f.1, f.2, Follows-extend (suc n) es log more f.3)
  Follows-extend n (Event.ready ∷ es) log more f = Follows-extend n es log more f
  Follows-extend n (Event.keepalive ∷ es) log more f = Follows-extend n es log more f

  pub Follows-length :
      (n : ℕ) (es : List Event) (log : List Bytes)
      → Follows n es log
      → n ≤ length log
      → n + message_count es ≤ length log
  Follows-length n [] log f le = omega arith
  Follows-length n (message m frame ∷ es) log f le =
      omega (arith, Follows-length (suc n) es log f.3 (nth-lt n m.payload log f.1))
  Follows-length n (Event.ready ∷ es) log f le = Follows-length n es log f le
  Follows-length n (Event.keepalive ∷ es) log f le = Follows-length n es log f le

  pub write_each-Follows :
      (writes n after : ℕ) (ms : List SequencedMessage) (log : List Bytes)
      → after ≡ n
      → Listed n ms log
      → Follows n (write_each sse writes after ms).events log
        × ((write_each sse writes after ms).after
            ≡ n + message_count (write_each sse writes after ms).events)
  unfolding write_each
  write_each-Follows writes n after [] log e l = (tt, omega arith)
  write_each-Follows zero n after (m ∷ ms) log e l = (tt, omega arith)
  write_each-Follows (suc writes) n after (m ∷ ms) log e l =
      elim (Option-cases (write_sse_message sse m)) [
        | inl none_left ↦ rw none_left (tt, omega arith)
        | inr (frame, written) ↦
            let rest = write_each-Follows writes (suc n) m.sequence ms log l.0 l.2 in
            rw written ((l.0, l.1, written, rest.0), omega (arith, rest.1))
      ]
