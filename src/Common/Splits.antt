-- ===== src/Common/Splits.antt =====
-- The functions of Go's `strings` that cut texts apart and put them together.
use Prim.Native.Nat.{ℕ, zero, suc, ◌-◌}
use mathlib.Core.Bool.{Bool, true, false}
use mathlib.Core.List.{List, [], ◌∷◌, ◌++◌}
use myapptest.Common.Tests.{nat_beq, if◌then◌else◌}
use myapptest.Common.Lists.{length, any}
use myapptest.Common.Texts.{Text, has_prefix, is_space}

-- Is a code point among those of a text?
abbrev pub is_one_of : Text → ℕ → Bool
is_one_of set c = any (nat_beq c) set

-- `strings.ContainsAny(s, set)`, the set first.
abbrev pub contains_any : Text → Text → Bool
contains_any set s = any (is_one_of set) s

unfoldable pub put_first : ℕ → List Text → List Text
put_first c [] = (c ∷ []) ∷ []
put_first c (part ∷ parts) = (c ∷ part) ∷ parts

-- `strings.Split(s, sep)` for a single code point, which comes first.
unfoldable pub split_on : ℕ → Text → List Text
unfolding put_first
split_on sep [] = [] ∷ []
split_on sep (c ∷ s) =
    let parts = split_on sep s in if nat_beq c sep then [] ∷ parts else put_first c parts

-- `strings.Join(parts, sep)`, the separator first.
unfoldable pub join_with : Text → List Text → Text
join_with sep [] = []
join_with sep (part ∷ []) = part
join_with sep (part ∷ next ∷ parts) = part ++ sep ++ join_with sep (next ∷ parts)

-- `strings.ReplaceAll(s, old, new)` for an `old` that is not empty: `skip` code points of a match
-- are still to be passed over.
unfoldable pub replace_from : ℕ → Text → Text → Text → Text
unfolding has_prefix
replace_from skip old new [] = []
replace_from zero old new (c ∷ s) = elim (has_prefix old (c ∷ s)) [
  | true ↦ new ++ replace_from (length old - 1) old new s
  | false ↦ c ∷ replace_from zero old new s
]
replace_from (suc skip) old new (c ∷ s) = replace_from skip old new s

unfoldable pub replace_all : Text → Text → Text → Text
unfolding replace_from
replace_all old new s = replace_from zero old new s

-- `strings.TrimRight(s, set)`, the set first.
unfoldable pub trim_right_of : Text → Text → Text
trim_right_of set [] = []
trim_right_of set (c ∷ s) =
    let rest = trim_right_of set s in
    elim rest [ [] ↦ if is_one_of set c then [] else c ∷ [] | e ∷ r ↦ c ∷ e ∷ r ]

unfoldable pub trim_left_of : Text → Text → Text
trim_left_of set [] = []
trim_left_of set (c ∷ s) = let rest = trim_left_of set s in if is_one_of set c then rest else c ∷ s

-- `strings.Trim(s, set)`, the set first.
unfoldable pub trim_of : Text → Text → Text
unfolding trim_left_of trim_right_of
trim_of set s = trim_right_of set (trim_left_of set s)

abbrev pub drop : ℕ → Text → Text
drop zero s = s
drop (suc n) [] = []
drop (suc n) (c ∷ s) = drop n s

-- `strings.Fields`: the words between the spaces. The flag tells whether a word goes on.
unfoldable pub fields_from : (going_on : Bool) → Text → List Text
unfolding is_space put_first
fields_from going_on [] = elim going_on [ true ↦ [] ∷ [] | false ↦ [] ]
fields_from going_on (c ∷ s) =
    let ended = fields_from false s in
    let longer = put_first c (fields_from true s) in
    if is_space c then (if going_on then [] ∷ ended else ended) else longer

unfoldable pub fields : Text → List Text
unfolding fields_from
fields s = fields_from false s
