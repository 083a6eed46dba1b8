-- ===== src/Prelude/Text.antt =====
-- Go strings and byte slices: lists of bytes, with the functions of `strings` and `bytes` that the
-- source calls and whose documented behaviour is a plain search.
use Prim.Native.Nat.{ℕ, suc}
use Prim.Native.Char.{code}
use Prim.Native.String.{String}
use mathlib.Core.Path.{◌≡◌, refl, subst}
use mathlib.Core.Logic.{◌↔◌}
use mathlib.Core.Bool.{Bool, true, false, ◌&&◌, ◌||◌}
use mathlib.Core.List.{List, [], ◌∷◌, ◌++◌}
use mathlib.Core.Option.{Option, none, some}
use native.Mathlib.Omega.{arith}
use nvda_remote_go.Prelude.Tests.{◌==◌, if◌then◌else◌}

abbrev pub Bytes : Type 0
Bytes = List ℕ

-- The bytes of an ASCII literal.
abbrev pub codes : String → Bytes
codes String.[] = []
codes (String.◌∷◌ c s) = code c ∷ codes s

-- s == t on strings.
unfoldable pub bytes_eq : Bytes → Bytes → Bool
bytes_eq [] [] = true
bytes_eq [] (y ∷ ys) = false
bytes_eq (x ∷ xs) [] = false
bytes_eq (x ∷ xs) (y ∷ ys) = x == y && bytes_eq xs ys

pub bytes_eq_refl : (s : Bytes) → bytes_eq s s ≡ true
unfolding bytes_eq
bytes_eq_refl [] = refl
bytes_eq_refl (x ∷ xs) = ground (arith, bytes_eq_refl xs)

pub bytes_eq→eq : (s t : Bytes) → bytes_eq s t ≡ true → s ≡ t
unfolding bytes_eq
bytes_eq→eq [] [] h = refl
bytes_eq→eq [] (y ∷ ys) h = cc
bytes_eq→eq (x ∷ xs) [] h = cc
bytes_eq→eq (x ∷ xs) (y ∷ ys) h = ground (arith, bytes_eq→eq xs ys)

pub bytes_eq_iff : (s t : Bytes) → (bytes_eq s t ≡ true) ↔ (s ≡ t)
bytes_eq_iff s t = (bytes_eq→eq s t, λ e. subst (λ u. bytes_eq s u ≡ true) e (bytes_eq_refl s))

-- strings.HasPrefix
unfoldable pub has_prefix : Bytes → Bytes → Bool
has_prefix [] s = true
has_prefix (p ∷ ps) [] = false
has_prefix (p ∷ ps) (x ∷ s) = p == x && has_prefix ps s

abbrev shifted : Option ℕ → Option ℕ
shifted none = none
shifted (some n) = some (suc n)

-- strings.Index; `none` is -1.
unfoldable pub index : Bytes → Bytes → Option ℕ
unfolding has_prefix
index pat [] = if has_prefix pat [] then some 0 else none
index pat (x ∷ s) =
    let rest = index pat s in if has_prefix pat (x ∷ s) then some 0 else shifted rest

abbrev pub is_empty : Bytes → Bool
is_empty [] = true
is_empty (x ∷ s) = false

pub has_prefix-append : (p s : Bytes) → has_prefix p (p ++ s) ≡ true
unfolding has_prefix
has_prefix-append [] s = refl
has_prefix-append (x ∷ p) s = ground (arith, has_prefix-append p s)

-- bytes.TrimRight and strings.TrimRight, by one byte
unfoldable pub trim_right : ℕ → Bytes → Bytes
trim_right t [] = []
trim_right t (x ∷ s) = let rest = trim_right t s in if x == t && is_empty rest then [] else x ∷ rest

-- strings.TrimLeft, by one byte
unfoldable pub trim_left : ℕ → Bytes → Bytes
trim_left c [] = []
trim_left c (x ∷ s) = let rest = trim_left c s in if x == c then rest else x ∷ s

abbrev pub to_first : ℕ → List Bytes → List Bytes
to_first x [] = (x ∷ []) ∷ []
to_first x (part ∷ parts) = (x ∷ part) ∷ parts

-- strings.Split by one byte
unfoldable pub split_on : ℕ → Bytes → List Bytes
split_on c [] = [] ∷ []
split_on c (x ∷ s) = let rest = split_on c s in if x == c then [] ∷ rest else to_first x rest

-- strings.ContainsAny
abbrev is_one_of : ℕ → Bytes → Bool
is_one_of x [] = false
is_one_of x (c ∷ cs) = x == c || is_one_of x cs

unfoldable pub contains_any : Bytes → Bytes → Bool
contains_any chars [] = false
contains_any chars (x ∷ s) = is_one_of x chars || contains_any chars s
