-- ===== src/Config.antt =====
-- internal/config/env.go: typed values of environment variables. `getenv` stands for os.Getenv.
pub mod Lists
use kitchen_ops.Base.{
  Bool, true, false, ◌||◌, none, some, List, [], ◌∷◌, Bytes, ℤ, codes, bytes_eq, if◌then◌else◌,
  Option,
}
use kitchen_ops.Base.Text.{trim_space, to_lower, split, parse_int}

-- v != ""
abbrev pub has_text : Bytes → Bool
has_text [] = false
has_text (c ∷ text) = true

abbrev pub int_or : Option ℤ → ℤ → ℤ
int_or none fallback = fallback
int_or (some n) fallback = n

-- The loop over the parts.
unfoldable pub clean_parts : List Bytes → List Bytes
clean_parts [] = []
clean_parts (p ∷ parts) =
    let rest = clean_parts parts in if has_text (trim_space p) then trim_space p ∷ rest else rest

module _ (getenv : Bytes → Bytes) where
  unfoldable pub env_or_default : Bytes → Bytes → Bytes
  env_or_default key fallback =
      let v = trim_space (getenv key) in if has_text v then v else fallback

  unfoldable pub env_bool : Bytes → Bool → Bool
  env_bool key fallback =
      let val = to_lower (trim_space (getenv key)) in
      if has_text val
      then bytes_eq val (codes "1")
        || bytes_eq val (codes "true")
        || bytes_eq val (codes "yes")
        || bytes_eq val (codes "y")
      else fallback

  unfoldable pub env_int : Bytes → ℤ → ℤ
  env_int key fallback =
      let v = trim_space (getenv key) in
      if has_text v then int_or (parse_int v) fallback else fallback

  unfoldable pub env_csv : Bytes → Bytes → List Bytes
  env_csv key fallback = clean_parts (split 44 (env_or_default key fallback))
