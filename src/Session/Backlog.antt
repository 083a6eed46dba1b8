-- ===== src/Session/Backlog.antt =====
-- The backlog as a list: its numbering, its size in bytes, and what the two loops over it do.
use nvda_remote_go.Prelude.{
  ℕ, zero, suc, ◌+◌, ◌-◌, ◌≤◌, ◌≡◌, refl, ap, ◌∙◌, Bytes, List, [], ◌∷◌, ◌++◌, map, arith, length,
  take, drop,
}
use native.Mathlib.Nat.{add-zero, add-suc, suc-add}
use nvda_remote_go.Session.State.{SequencedMessage}
use nvda_remote_go.Session.Send.{release_through, collect_after}

-- The messages carry the numbers `first + 1`, `first + 2`, … up to `last`.
abbrev pub Numbered : ℕ → List SequencedMessage → ℕ → Type 0
Numbered first [] last = first ≡ last
Numbered first (m ∷ ms) last = (m.sequence ≡ suc first) × Numbered (suc first) ms last

abbrev pub byte_count : List SequencedMessage → ℕ
byte_count [] = 0
byte_count (m ∷ ms) = length m.payload + byte_count ms

abbrev pub payloads : List SequencedMessage → List Bytes
payloads = map λ m. m.payload

pub byte_count-append :
    (xs ys : List SequencedMessage) → byte_count (xs ++ ys) ≡ byte_count xs + byte_count ys
byte_count-append [] ys = omega arith
byte_count-append (x ∷ xs) ys = omega (arith, byte_count-append xs ys)

pub byte_count-drop-le :
    (n : ℕ) (xs : List SequencedMessage) → byte_count (drop n xs) ≤ byte_count xs
byte_count-drop-le zero xs = omega arith
byte_count-drop-le (suc n) [] = omega arith
byte_count-drop-le (suc n) (x ∷ xs) = omega (arith, byte_count-drop-le n xs)

pub Numbered-length :
    (a : ℕ) (ms : List SequencedMessage) (b : ℕ) → Numbered a ms b → a + length ms ≡ b
Numbered-length a [] b h = omega arith
Numbered-length a (m ∷ ms) b h = omega (arith, Numbered-length (suc a) ms b h.1)

pub Numbered-push :
    (a : ℕ) (ms : List SequencedMessage) (b : ℕ) (m : SequencedMessage)
    → Numbered a ms b
    → m.sequence ≡ suc b
    → Numbered a (ms ++ m ∷ []) (suc b)
Numbered-push a [] b m h e = (ground arith, ground arith)
Numbered-push a (x ∷ ms) b m h e = (h.0, Numbered-push (suc a) ms b m h.1 e)

-- Nothing is released by a number that the backlog is past.
pub release_through-below :
    (q p a : ℕ) (ms : List SequencedMessage) (b : ℕ)
    → Numbered a ms b
    → q ≤ a
    → release_through q p ms ≡ (p, ms)
unfolding release_through
release_through-below q p a [] b h le = refl
release_through-below q p a (m ∷ ms) b h le = ground arith

-- Releasing through `a + k` drops the first `k` messages of a numbered backlog, and its count of
-- bytes stays right.
pub release_through-drop :
    (k q p a : ℕ) (ms : List SequencedMessage) (b : ℕ)
    → Numbered a ms b
    → q ≡ a + k
    → p ≡ byte_count ms
    → release_through q p ms ≡ (byte_count (drop k ms), drop k ms)
unfolding release_through
release_through-drop zero q p a ms b h e c = release_through-below q p a ms b h (omega arith) ∙ rw c
release_through-drop (suc k) q p a [] b h e c = rw c
release_through-drop (suc k) q p a (m ∷ ms) b h e c =
    ground (arith, release_through-drop k q (p - length m.payload) (suc a) ms b h.1)

-- What follows `a + k` in a numbered backlog, cut to the places left.
pub collect_after-below :
    (room q a : ℕ) (ms : List SequencedMessage) (b : ℕ)
    → Numbered a ms b
    → q ≤ a
    → collect_after q room ms ≡ take room ms
unfolding collect_after
collect_after-below zero q a [] b h le = refl
collect_after-below (suc room) q a [] b h le = refl
collect_after-below zero q a (m ∷ ms) b h le = ground arith
collect_after-below (suc room) q a (m ∷ ms) b h le =
    ground (arith, collect_after-below room q (suc a) ms b h.1)

pub collect_after-drop :
    (k room q a : ℕ) (ms : List SequencedMessage) (b : ℕ)
    → Numbered a ms b
    → q ≡ a + k
    → collect_after q room ms ≡ take room (drop k ms)
unfolding collect_after
collect_after-drop zero room q a ms b h e = collect_after-below room q a ms b h (omega arith)
collect_after-drop (suc k) zero q a [] b h e = refl
collect_after-drop (suc k) (suc room) q a [] b h e = refl
collect_after-drop (suc k) room q a (m ∷ ms) b h e =
    ground (arith, collect_after-drop k room q (suc a) ms b h.1)

-- The rest of a numbered backlog is numbered.
pub Numbered-drop :
    (k a : ℕ) (ms : List SequencedMessage) (b : ℕ)
    → Numbered a ms b
    → a + k ≤ b
    → Numbered (a + k) (drop k ms) b
Numbered-drop zero a ms b h le = rw (add-zero a) h
Numbered-drop (suc k) a [] b h le = absurd (omega arith)
Numbered-drop (suc k) a (m ∷ ms) b h le =
    rw (add-suc a k) (rw (← suc-add a k) (Numbered-drop k (suc a) ms b h.1 (omega arith)))

-- A prefix of a numbered backlog is numbered.
pub Numbered-take :
    (n a : ℕ) (ms : List SequencedMessage) (b : ℕ)
    → Numbered a ms b
    → Numbered a (take n ms) (a + length (take n ms))
Numbered-take zero a ms b h = omega arith
Numbered-take (suc n) a [] b h = omega arith
Numbered-take (suc n) a (m ∷ ms) b h =
    let rest = Numbered-take n (suc a) ms b h.1 in
    (h.0, rw add-suc (rw (← suc-add a (length (take n ms))) rest))

pub payloads-append :
    (xs ys : List SequencedMessage) → payloads (xs ++ ys) ≡ payloads xs ++ payloads ys
payloads-append [] ys = refl
payloads-append (x ∷ xs) ys = ap (◌∷◌ x.payload) (payloads-append xs ys)

pub payloads-take :
    (n : ℕ) (xs : List SequencedMessage) → payloads (take n xs) ≡ take n (payloads xs)
payloads-take zero xs = refl
payloads-take (suc n) [] = refl
payloads-take (suc n) (x ∷ xs) = ap (◌∷◌ x.payload) (payloads-take n xs)

pub payloads-drop :
    (n : ℕ) (xs : List SequencedMessage) → payloads (drop n xs) ≡ drop n (payloads xs)
payloads-drop zero xs = refl
payloads-drop (suc n) [] = refl
payloads-drop (suc n) (x ∷ xs) = payloads-drop n xs

pub length-payloads : (xs : List SequencedMessage) → length (payloads xs) ≡ length xs
length-payloads [] = refl
length-payloads (x ∷ xs) = ap suc (length-payloads xs)
