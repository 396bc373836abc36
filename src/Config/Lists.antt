-- ===== src/Config/Lists.antt =====
-- What EnvCSV makes of a list of texts.
use kitchen_ops.Base.{
  ◌≡◌, refl, true, false, List, [], ◌∷◌, ◌++◌, Bytes, ◌==◌, All, All-map, All-append, Bool-cases,
  inl, inr, ap, ◌∙◌,
}
use kitchen_ops.Base.Text.{is_space, trim_space, split}
use kitchen_ops.Base.Text.Trimmed.{trim_space_idem, trim_space_solid}
use kitchen_ops.Config.{has_text, clean_parts, env_or_default, env_csv}

-- A part that EnvCSV may return.
abbrev pub IsClean : Bytes → Type 0
IsClean p = (trim_space p ≡ p) × (has_text p ≡ true)

clean_parts-All : (parts : List Bytes) → All IsClean (clean_parts parts)
unfolding clean_parts
clean_parts-All [] = tt
clean_parts-All (p ∷ parts) = elim (Bool-cases (has_text (trim_space p))) [
  | inl text ↦ rw text ((trim_space_idem p, text), clean_parts-All parts)
  | inr empty ↦ rw empty (clean_parts-All parts)
]

-- A text without commas and white space, such as the address of a broker.
abbrev pub IsPlain : Bytes → Type 0
IsPlain p = (has_text p ≡ true) × All (λ c. (is_space c ≡ false) × ((c == 44) ≡ false)) p

-- The texts of a list that is not empty, with commas between them.
abbrev pub join : Bytes → List Bytes → Bytes
join p [] = p
join p (q ∷ parts) = p ++ 44 ∷ join q parts

split-plain :
    (p : Bytes) → All (λ c. (is_space c ≡ false) × ((c == 44) ≡ false)) p → split 44 p ≡ p ∷ []
split-plain [] h = refl
split-plain (c ∷ p) h = rw (h.0.1, split-plain p h.1) refl

split-append :
    (p rest : Bytes)
    → All (λ c. (is_space c ≡ false) × ((c == 44) ≡ false)) p
    → split 44 (p ++ 44 ∷ rest) ≡ p ∷ split 44 rest
split-append [] rest h = refl
split-append (c ∷ p) rest h = rw (h.0.1, split-append p rest h.1) refl

split-join :
    (p : Bytes) (parts : List Bytes)
    → IsPlain p
    → All IsPlain parts
    → split 44 (join p parts) ≡ p ∷ parts
split-join p [] h hs = split-plain p h.1
split-join p (q ∷ parts) h hs =
    split-append p (join q parts) h.1 ∙ ap (λ rest. p ∷ rest) (split-join q parts hs.0 hs.1)

solid : (p : Bytes) → IsPlain p → All (λ c. is_space c ≡ false) p
solid p h = All-map _ _ p (λ c k. k.0) h.1

join-solid :
    (p : Bytes) (parts : List Bytes)
    → IsPlain p
    → All IsPlain parts
    → All (λ c. is_space c ≡ false) (join p parts)
join-solid p [] h hs = solid p h
join-solid p (q ∷ parts) h hs =
    All-append _ p (44 ∷ join q parts) (solid p h) (refl, join-solid q parts hs.0 hs.1)

join-has_text :
    (p : Bytes) (parts : List Bytes) → has_text p ≡ true → has_text (join p parts) ≡ true
join-has_text p [] h = h
join-has_text [] (q ∷ parts) h = cc
join-has_text (c ∷ p) (q ∷ parts) h = refl

clean_parts-plain : (parts : List Bytes) → All IsPlain parts → clean_parts parts ≡ parts
unfolding clean_parts
clean_parts-plain [] h = refl
clean_parts-plain (p ∷ parts) h =
    rw (trim_space_solid p (solid p h.0), h.0.0, clean_parts-plain parts h.1) refl

module _ (getenv : Bytes → Bytes) (key fallback : Bytes) where
  -- Every text that EnvCSV returns is trimmed and not empty.
  pub env_csv-AreClean : All IsClean (env_csv getenv key fallback)
  unfolding env_csv
  env_csv-AreClean = clean_parts-All (split 44 (env_or_default getenv key fallback))

  -- Where the variable is one or more texts without commas and white space, with commas between
  -- them, EnvCSV returns those texts.
  pub env_csv-join :
      (p : Bytes) (parts : List Bytes)
      → IsPlain p
      → All IsPlain parts
      → getenv key ≡ join p parts
      → env_csv getenv key fallback ≡ p ∷ parts
  unfolding env_csv env_or_default
  env_csv-join p parts h hs set =
      rw
        (
          set,
          trim_space_solid (join p parts) (join-solid p parts h hs),
          join-has_text p parts h.0,
          split-join p parts h hs,
        )
        (clean_parts-plain (p ∷ parts) (h, hs))
