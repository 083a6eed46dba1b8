-- ===== src/Prelude/Maps.antt =====
-- Go maps and sets: functions with a value at each key, and lists of the keys that are in.
use Prim.Native.Nat.{ℕ}
use mathlib.Core.Path.{◌≡◌}
use mathlib.Core.Bool.{Bool, false, not, ◌&&◌, ◌||◌}
use mathlib.Core.Option.{Option, none, some}
use mathlib.Core.List.{List, [], ◌∷◌}
use native.Mathlib.Omega.{arith}
use nvda_remote_go.Prelude.Tests.{◌==◌, leb, if◌then◌else◌}
use nvda_remote_go.Prelude.Text.{Bytes, bytes_eq, bytes_eq_iff}

-- A store of objects: every key has one, and a write changes one key.
abbrev pub update {ℓ} : {A : Type ℓ} → (ℕ → A) → ℕ → A → ℕ → A
update f k a j = if k == j then a else f j

-- A set of identifiers.
abbrev pub contains : ℕ → List ℕ → Bool
contains k [] = false
contains k (x ∷ xs) = k == x || contains k xs

unfoldable pub insert : ℕ → List ℕ → List ℕ
insert k xs = if contains k xs then xs else k ∷ xs

unfoldable pub delete : ℕ → List ℕ → List ℕ
delete k [] = []
delete k (x ∷ xs) = let rest = delete k xs in if k == x then rest else x ∷ rest

-- No key stands twice.
abbrev pub Unique : List ℕ → Type 0
Unique [] = Unit {0}
Unique (x ∷ xs) = (contains x xs ≡ false) × Unique xs

pub contains-insert : (k j : ℕ) (xs : List ℕ) → contains j (insert k xs) ≡ (k == j || contains j xs)
unfolding insert
contains-insert k j xs = ground arith

pub contains-delete :
    (k j : ℕ) (xs : List ℕ) → contains j (delete k xs) ≡ (not (k == j) && contains j xs)
unfolding delete
contains-delete k j [] = ground arith
contains-delete k j (x ∷ xs) = ground (arith, contains-delete k j xs)

pub insert-Unique : (k : ℕ) (xs : List ℕ) → Unique xs → Unique (insert k xs)
unfolding insert
insert-Unique k xs u = ground arith

pub delete-Unique : (k : ℕ) (xs : List ℕ) → Unique xs → Unique (delete k xs)
unfolding delete
delete-Unique k [] u = tt
delete-Unique k (x ∷ xs) u = ground (arith, delete-Unique k xs u.1, contains-delete k x xs)

-- A map with string keys.
unfoldable pub lookup {ℓ} : {A : Type ℓ} → Bytes → List (Bytes × A) → Option A
lookup k [] = none
lookup k ((j, a) ∷ m) = if bytes_eq j k then some a else lookup k m

unfoldable pub erase {ℓ} : {A : Type ℓ} → Bytes → List (Bytes × A) → List (Bytes × A)
erase k [] = []
erase k ((j, a) ∷ m) = let rest = erase k m in if bytes_eq j k then rest else (j, a) ∷ rest

-- `m[k] = a`
unfoldable pub put {ℓ} : {A : Type ℓ} → Bytes → A → List (Bytes × A) → List (Bytes × A)
unfolding erase
put k a m = (k, a) ∷ erase k m

pub lookup-erase {ℓ} :
    {A : Type ℓ} (k j : Bytes) (m : List (Bytes × A))
    → lookup j (erase k m) ≡ (if bytes_eq k j then none else lookup j m)
unfolding lookup erase
lookup-erase k j [] = ground arith
lookup-erase k j ((i, a) ∷ m) =
    ground (arith, lookup-erase k j m, bytes_eq_iff i k, bytes_eq_iff i j, bytes_eq_iff k j)

pub lookup-put {ℓ} :
    {A : Type ℓ} (k j : Bytes) (a : A) (m : List (Bytes × A))
    → lookup j (put k a m) ≡ (if bytes_eq k j then some a else lookup j m)
unfolding lookup put
lookup-put k j a m = ground (arith, lookup-erase k j m)

-- sort.Ints and sort.SliceStable by a number, as insertion sort.
module _ {ℓ} {A : Type ℓ} (key : A → ℕ) where
  unfoldable pub insert_sorted : A → List A → List A
  insert_sorted a [] = a ∷ []
  insert_sorted a (x ∷ xs) =
      let rest = insert_sorted a xs in if leb (key a) (key x) then a ∷ x ∷ xs else x ∷ rest

  unfoldable pub sort_by : List A → List A
  unfolding insert_sorted
  sort_by [] = []
  sort_by (x ∷ xs) = insert_sorted x (sort_by xs)
