-- ===== src/Admin/Duplicates.antt =====
-- server/admin.go `markDuplicates`: the connections that most likely come from one computer.
use nvda_remote_go.Prelude.{
  ℕ, suc, ◌+◌, ◌≡◌, refl, ◌∙◌, true, false, leb, ap, Bytes, Bool, Option, none, some, List, [], ◌∷◌,
  ◌++◌, map, not, ◌&&◌, ltb, is_empty, bytes_eq, has_no_nul, first_part, last_part, same_empty,
  lookup, put, lookup-put, bytes_eq_iff, arith, if◌then◌else◌, codes,
}

-- The fields of `adminClientInfo` that this reads and writes.
pub record ClientInfo : Type 0 where
  pub ip : Bytes
  pub role : Bytes
  pub channel : Bytes
  pub duplicate : Bool

unfoldable pub role_label : Bytes → Bytes
role_label t =
    if bytes_eq t (codes "master")
    then codes "master"
    else if bytes_eq t (codes "slave")
    then codes "slave"
    else codes "-"

unfoldable pub duplicate_key : ClientInfo → Bytes
duplicate_key i = i.ip ++ 0 ∷ (i.channel ++ 0 ∷ i.role)

abbrev counted : Option ℕ → ℕ
counted none = 0
counted (some n) = n

abbrev pub count_of : Bytes → List (Bytes × ℕ) → ℕ
count_of key counts = counted (lookup key counts)

-- The first loop, over a map of counts.
unfoldable pub count_keys : List ClientInfo → List (Bytes × ℕ) → List (Bytes × ℕ)
unfolding duplicate_key
count_keys [] counts = counts
count_keys (i ∷ is) counts = count_keys is (
    if is_empty i.channel
    then counts
    else put (duplicate_key i) (suc (count_of (duplicate_key i) counts)) counts)

-- The flag of an entry, by how many share a key.
abbrev pub flagged : (Bytes → ℕ) → ClientInfo → ClientInfo
flagged counts i = record i {
  duplicate = not (is_empty i.channel) && ltb 1 (counts (duplicate_key i));
}

unfoldable pub mark_duplicates : List ClientInfo → List ClientInfo
unfolding count_keys
mark_duplicates infos = map (flagged (λ key. count_of key (count_keys infos []))) infos

-- Those in a channel that have the key.
abbrev pub sharing : Bytes → List ClientInfo → ℕ
sharing key [] = 0
sharing key (i ∷ is) =
    (if not (is_empty i.channel) && bytes_eq (duplicate_key i) key then 1 else 0) + sharing key is

count_of-count_keys :
    (key : Bytes) (is : List ClientInfo) (counts : List (Bytes × ℕ))
    → count_of key (count_keys is counts) ≡ count_of key counts + sharing key is
unfolding count_keys
count_of-count_keys key [] counts = omega arith
count_of-count_keys key (i ∷ is) counts = ground (
  arith,
  count_of-count_keys key is counts,
  count_of-count_keys key is
      (put (duplicate_key i) (suc (count_of (duplicate_key i) counts)) counts),
  lookup-put (duplicate_key i) key (suc (count_of (duplicate_key i) counts)) counts,
  bytes_eq_iff (duplicate_key i) key,
)

count_of-all :
    (key : Bytes) (is : List ClientInfo) → count_of key (count_keys is []) ≡ sharing key is
unfolding lookup
count_of-all key is = omega (arith, count_of-count_keys key is [])

-- Two connections from one address, in one channel, in one role.
unfoldable pub is_alike : ClientInfo → ClientInfo → Bool
is_alike i j = bytes_eq i.ip j.ip && bytes_eq i.channel j.channel && bytes_eq i.role j.role

unfoldable pub alike : ClientInfo → List ClientInfo → ℕ
unfolding is_alike
alike i [] = 0
alike i (j ∷ js) = (if is_alike j i then 1 else 0) + alike i js

-- Addresses and roles have no NUL byte.
abbrev pub IsPlain : ClientInfo → Type 0
IsPlain i = (has_no_nul i.ip ≡ true) × (has_no_nul i.role ≡ true)

abbrev pub AllPlain : List ClientInfo → Type 0
AllPlain [] = Unit {0}
AllPlain (i ∷ is) = IsPlain i × AllPlain is

-- The labels that the dashboard gives are such roles.
pub role_label-has_no_nul : (t : Bytes) → has_no_nul (role_label t) ≡ true
unfolding role_label
role_label-has_no_nul t = ground arith

key-is_alike :
    (i j : ClientInfo)
    → IsPlain i
    → IsPlain j
    → bytes_eq (duplicate_key i) (duplicate_key j) ≡ is_alike i j
unfolding duplicate_key is_alike
key-is_alike i j p q =
    first_part i.ip j.ip (i.channel ++ 0 ∷ i.role) (j.channel ++ 0 ∷ j.role) p.0 q.0
    ∙ ap (λ b. bytes_eq i.ip j.ip && b) (last_part i.channel j.channel i.role j.role p.1 q.1)
    ∙ ground arith

sharing-alike :
    (i : ClientInfo) (js : List ClientInfo)
    → IsPlain i
    → AllPlain js
    → is_empty i.channel ≡ false
    → sharing (duplicate_key i) js ≡ alike i js
unfolding alike is_alike
sharing-alike i [] p q h = refl
sharing-alike i (j ∷ js) p q h =
    ground
      (arith, h, key-is_alike j i q.0 p, same_empty j.channel i.channel, sharing-alike i js p q.1 h)

marked_by :
    (infos is : List ClientInfo)
    → AllPlain infos
    → AllPlain is
    → map (flagged (λ key. count_of key (count_keys infos []))) is
      ≡ map
          (λ (i : ClientInfo). record i {
            duplicate = not (is_empty i.channel) && leb 2 (alike i infos);
          })
          is
marked_by infos [] p q = refl
marked_by infos (i ∷ is) p q = ground (
  arith,
  count_of-all (duplicate_key i) infos,
  sharing-alike i infos q.0 p,
  marked_by infos is p q.1,
)

-- Where no address and no role has a NUL byte, a connection is marked as a duplicate exactly if it
-- is in a channel and at least two of the connections, itself among them, have its address, its
-- channel and its role; nothing else of it changes.
pub mark_duplicates_lem :
    (infos : List ClientInfo)
    → AllPlain infos
    → mark_duplicates infos
      ≡ map
          (λ (i : ClientInfo). record i {
            duplicate = not (is_empty i.channel) && leb 2 (alike i infos);
          })
          infos
unfolding mark_duplicates
mark_duplicates_lem infos p = marked_by infos infos p p
