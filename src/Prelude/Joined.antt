-- ===== src/Prelude/Joined.antt =====
-- Texts that a NUL byte joins, as the keys of maps are.
use mathlib.Core.Path.{◌≡◌, refl}
use mathlib.Core.Bool.{Bool, true, false, not, ◌&&◌}
use mathlib.Core.List.{[], ◌∷◌, ◌++◌}
use native.Mathlib.Omega.{arith}
use nvda_remote_go.Prelude.Tests.{◌==◌}
use nvda_remote_go.Prelude.Text.{Bytes, bytes_eq, is_empty}

abbrev pub has_no_nul : Bytes → Bool
has_no_nul [] = true
has_no_nul (x ∷ s) = not (x == 0) && has_no_nul s

-- A text before the first NUL byte, and what follows it.
pub first_part :
    (a b c d : Bytes)
    → has_no_nul a ≡ true
    → has_no_nul b ≡ true
    → bytes_eq (a ++ 0 ∷ c) (b ++ 0 ∷ d) ≡ (bytes_eq a b && bytes_eq c d)
unfolding bytes_eq
first_part [] [] c d p q = ground arith
first_part [] (y ∷ b) c d p q = ground arith
first_part (x ∷ a) [] c d p q = ground arith
first_part (x ∷ a) (y ∷ b) c d p q = ground (arith, first_part a b c d)

not_in : (s c d : Bytes) → has_no_nul s ≡ true → bytes_eq s (c ++ 0 ∷ d) ≡ false
unfolding bytes_eq
not_in [] [] d h = refl
not_in [] (x ∷ c) d h = refl
not_in (x ∷ s) [] d h = ground (arith, h)
not_in (x ∷ s) (y ∷ c) d h = ground (arith, h, not_in s c d)

not_of : (s c d : Bytes) → has_no_nul s ≡ true → bytes_eq (c ++ 0 ∷ d) s ≡ false
unfolding bytes_eq
not_of [] [] d h = refl
not_of [] (x ∷ c) d h = refl
not_of (x ∷ s) [] d h = ground (arith, h)
not_of (x ∷ s) (y ∷ c) d h = ground (arith, h, not_of s c d)

-- A text before the last NUL byte, and what follows it.
pub last_part :
    (a b c d : Bytes)
    → has_no_nul c ≡ true
    → has_no_nul d ≡ true
    → bytes_eq (a ++ 0 ∷ c) (b ++ 0 ∷ d) ≡ (bytes_eq a b && bytes_eq c d)
unfolding bytes_eq
last_part [] [] c d p q = ground arith
last_part [] (y ∷ b) c d p q = ground (arith, not_in c b d p)
last_part (x ∷ a) [] c d p q = ground (arith, not_of d a c q)
last_part (x ∷ a) (y ∷ b) c d p q = ground (arith, last_part a b c d)

pub same_empty : (s t : Bytes) → bytes_eq s t ≡ true → is_empty s ≡ is_empty t
unfolding bytes_eq
same_empty [] [] h = refl
same_empty [] (y ∷ t) h = cc
same_empty (x ∷ s) [] h = cc
same_empty (x ∷ s) (y ∷ t) h = refl
