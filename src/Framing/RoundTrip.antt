-- ===== src/Framing/RoundTrip.antt =====
-- server/messageconn.go: what is read of what was written.
use nvda_remote_go.Prelude.{
  trim_right, ℕ, zero, suc, Bytes, true, false, Option, none, some, List, [], ◌∷◌, ◌++◌, ◌==◌, ◌≡◌,
  refl, sym, ap, ◌∙◌, ◌↔◌, arith, contains, length, take, Bool-cases, inl, inr, append_assoc,
  length-append, ◌≤◌,
}
use nvda_remote_go.Framing.Raw.{read_bytes, read_message, Written, ok, write_message}

-- What the connection gets when the messages are written one after the other by writes that take
-- all.
unfoldable pub written : ℕ → List Bytes → Bytes
unfolding write_message
written t [] = []
written t (m ∷ ms) =
    (write_message (λ b. record { num = length b; failed = false }) t m).1 ++ written t ms

abbrev after_message : Bytes → Option (List Bytes × Bytes) → Option (List Bytes × Bytes)
after_message m none = none
after_message m (some (ms, u)) = some (m ∷ ms, u)

abbrev and_then :
    (Bytes → Option (List Bytes × Bytes)) → Option (Bytes × Bytes) → Option (List Bytes × Bytes)
and_then again none = none
and_then again (some (m, u)) = after_message m (again u)

-- That many messages, read one after the other, and what is left.
unfoldable pub read_messages : ℕ → ℕ → Bytes → Option (List Bytes × Bytes)
unfolding read_message
read_messages t zero s = some ([], s)
read_messages t (suc n) s = and_then (read_messages t n) (read_message t s)

-- No terminator stands in any of the messages.
abbrev pub NoneContains : ℕ → List Bytes → Type 0
NoneContains t [] = Unit {0}
NoneContains t (m ∷ ms) = (contains t m ≡ false) × NoneContains t ms

read_bytes-line :
    (t : ℕ) (m s : Bytes) → contains t m ≡ false → read_bytes t (m ++ t ∷ s) ≡ some (m ++ t ∷ [], s)
unfolding read_bytes
read_bytes-line t [] s h = ground arith
read_bytes-line t (x ∷ m) s h = ground (arith, read_bytes-line t m s, h)

trim_right-line : (t : ℕ) (m : Bytes) → contains t m ≡ false → trim_right t (m ++ t ∷ []) ≡ m
unfolding trim_right
trim_right-line t [] h = ground arith
trim_right-line t (x ∷ m) h = ground (arith, trim_right-line t m, h)

read_message-line :
    (t : ℕ) (m s : Bytes) → contains t m ≡ false → read_message t (m ++ t ∷ s) ≡ some (m, s)
unfolding read_message
read_message-line t m s h =
    rw (read_bytes-line t m s h) (ap (λ (u : Bytes). some (u, s)) (trim_right-line t m h))

read_bytes-none : (t : ℕ) (s : Bytes) → contains t s ≡ false → read_bytes t s ≡ none
unfolding read_bytes
read_bytes-none t [] h = refl
read_bytes-none t (x ∷ s) h = ground (arith, read_bytes-none t s, h)

take-all : (n : ℕ) (s : Bytes) → length s ≤ n → take n s ≡ s
take-all zero [] h = refl
take-all zero (x ∷ s) h = absurd (omega arith)
take-all (suc n) [] h = refl
take-all (suc n) (x ∷ s) h = ap (◌∷◌ x) (take-all n s (omega arith))

-- Whatever the write of the connection does, `WriteMessage` reports success only when the connection
-- took all of the message and its terminator.
pub write_message-ok :
    (write : Bytes → Written) (t : ℕ) (b : Bytes)
    → (write_message write t b).0 ≡ ok
    → (write_message write t b).1 ≡ b ++ t ∷ []
unfolding write_message
write_message-ok write t b h =
    ground (arith, length-append b (t ∷ []), take-all (write (b ++ t ∷ [])).num (b ++ t ∷ []), h)

written_once :
    (t : ℕ) (m : Bytes)
    → (write_message (λ b. record { num = length b; failed = false }) t m).1 ≡ m ++ t ∷ []
unfolding write_message
written_once t m =
    ground (arith, length-append m (t ∷ []), take-all (length (m ++ t ∷ [])) (m ++ t ∷ []))

pub written_cons :
    (t : ℕ) (m : Bytes) (ms : List Bytes) (rest : Bytes)
    → written t (m ∷ ms) ++ rest ≡ m ++ t ∷ (written t ms ++ rest)
unfolding written
written_cons t m ms rest = rw (written_once t m) (
    append_assoc (m ++ t ∷ []) (written t ms) rest ∙ append_assoc m (t ∷ []) (written t ms ++ rest))

-- A stream with a terminator is a line without one, a terminator and the rest.
line-cases :
    (t : ℕ) (s : Bytes)
    → contains t s ≡ true
    → (m : Bytes) × (rest : Bytes) × (contains t m ≡ false) × (s ≡ m ++ t ∷ rest)
line-cases t [] h = absurd cc
line-cases t (x ∷ s) h = elim (Bool-cases (t == x)) [
  | inl same ↦ ([], s, refl, ground arith)
  | inr other ↦
      let (m, rest, free, e) = line-cases t s (ground (arith, h, other)) in
      (x ∷ m, rest, ground (arith, other, free), ap (◌∷◌ x) e)
]

-- A read gives a message and leaves a rest exactly if the message has no terminator, and the stream
-- is the message, a terminator and the rest: the read takes one terminator, the first, and loses
-- nothing else. A read fails exactly if no terminator is left in the stream.
pub read_message_iff :
    (t : ℕ) (s m rest : Bytes)
    → ((read_message t s ≡ some (m, rest)) ↔ ((contains t m ≡ false) × (s ≡ m ++ t ∷ rest)))
      × ((read_message t s ≡ none) ↔ (contains t s ≡ false))
read_message_iff t s m rest = elim (Bool-cases (contains t s)) [
  | inl has ↦
      let (line, u, free, e) = line-cases t s has in
      let got : read_message t s ≡ some (line, u) =
        ap (read_message t) e ∙ read_message-line t line u free in
      (
        (
          λ h. let same : some (line, u) ≡ some (m, rest) = sym got ∙ h in (cc, cc),
          λ h. ap (read_message t) h.1 ∙ read_message-line t m rest h.0,
        ),
        (λ h. cc, λ h. cc),
      )
  | inr free ↦
      let got : read_message t s ≡ none =
        unfold read_message in rw (read_bytes-none t s free) refl in
      (
        (
          λ h. cc,
          λ h.
              let at : read_message t s ≡ some (m, rest) =
                ap (read_message t) h.1 ∙ read_message-line t m rest h.0 in
              cc,
        ),
        (λ _. free, λ _. got),
      )
]

-- Messages without a terminator that are written one after the other, each whole, are read back as
-- they were, in order, whatever bytes follow them, and those are what is left.
pub read_messages-written :
    (t : ℕ) (ms : List Bytes) (rest : Bytes)
    → NoneContains t ms
    → read_messages t (length ms) (written t ms ++ rest) ≡ some (ms, rest)
unfolding read_messages written
read_messages-written t [] rest h = refl
read_messages-written t (m ∷ ms) rest h = rw (written_cons t m ms rest) (
    ap (and_then (read_messages t (length ms))) (read_message-line t m (written t ms ++ rest) h.0)
    ∙ ap (after_message m) (read_messages-written t ms rest h.1))
