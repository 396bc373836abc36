-- ===== src/Base/Text.antt =====
-- Go's strings functions on ASCII texts.
pub mod Trimmed
use mathlib.Core.Bool.{Bool, true, false, ◌&&◌, ◌||◌}
use mathlib.Core.List.{List, [], ◌∷◌, map}
use Prim.Native.Nat.{ℕ, ◌+◌, ◌-◌, ◌^◌}
use mathlib.Core.Option.{Option, none, some}
use kitchen_ops.Base.Tests.{Bytes, ltb, leb, ◌==◌, if◌then◌else◌, ℤ, pos, negsuc}
use kitchen_ops.Base.Decimal.{parse_uint}

-- strings.TrimSpace
abbrev pub is_space : ℕ → Bool
is_space c = (c == 32) || (leb 9 c && leb c 13)

abbrev pub trim_left : Bytes → Bytes
trim_left [] = []
trim_left (c ∷ text) = let rest = trim_left text in if is_space c then rest else c ∷ text

-- Before a trimmed rest, a space stays only if something follows it.
abbrev pub drop_space : ℕ → Bytes → Bytes
drop_space c [] = if is_space c then [] else c ∷ []
drop_space c (d ∷ rest) = c ∷ d ∷ rest

abbrev pub trim_right : Bytes → Bytes
trim_right [] = []
trim_right (c ∷ text) = drop_space c (trim_right text)

abbrev pub to_lower : Bytes → Bytes
to_lower text = map (λ c. if leb 65 c && leb c 90 then c + 32 else c) text

abbrev pub has_prefix : Bytes → Bytes → Bool
has_prefix text [] = true
has_prefix [] (k ∷ key) = false
has_prefix (c ∷ text) (k ∷ key) = (c == k) && has_prefix text key

-- strings.Contains
abbrev pub contains : Bytes → Bytes → Bool
contains [] key = has_prefix [] key
contains (c ∷ text) key = let rest = contains text key in has_prefix (c ∷ text) key || rest

-- strings.TrimSpace
abbrev pub trim_space : Bytes → Bytes
trim_space text = trim_right (trim_left text)

-- strings.Split(text, sep) for a separator of one byte: always one part at least.
abbrev pub add_to_first : ℕ → List Bytes → List Bytes
add_to_first c [] = (c ∷ []) ∷ []
add_to_first c (part ∷ parts) = (c ∷ part) ∷ parts

abbrev pub split : ℕ → Bytes → List Bytes
split sep [] = [] ∷ []
split sep (c ∷ text) =
    let rest = split sep text in if c == sep then [] ∷ rest else add_to_first c rest

-- strconv.Atoi: a sign, and digits of a number that 64 bits can hold.
abbrev pub signed_value : Bool → Option ℕ → Option ℤ
signed_value negative none = none
signed_value true (some n) =
    if ltb (2 ^ 63) n then none else (if n == 0 then some (pos 0) else some (negsuc (n - 1)))
signed_value false (some n) = if ltb n (2 ^ 63) then some (pos n) else none

unfoldable pub parse_int : Bytes → Option ℤ
parse_int [] = none
parse_int (c ∷ text) =
    if c == 45
    then signed_value true (parse_uint text)
    else (if c == 43
        then signed_value false (parse_uint text)
        else signed_value false (parse_uint (c ∷ text)))
