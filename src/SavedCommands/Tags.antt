-- ===== src/SavedCommands/Tags.antt =====
-- The tags of a favorite: normalizeTags of internal/commands/service.go.
use mathlib.Core.Path.{subst}
use myapptest.Common.{
  Bool, true, false, List, [], ◌∷◌, map, Text, ◌≡◌, refl, sym, ap, ◌∙◌, ◌⊎◌, inl, inr, arith, All,
  any, Bool-cases, is_empty, trim_space, trim_space_idem, list_beq, nat_eq, ◌||◌, ==_self, list_eq,
}
use myapptest.SavedCommands.Favorites.{tags_from, normalize_tags}

module _ (to_lower : Text → Text) where
  abbrev is_among : Text → List Text → Bool
  is_among tag seen = any (list_beq (to_lower tag)) seen

  -- Tags without spaces around them, none of them empty, and none the same as one before it or one
  -- that was seen, in lower case.
  pub AreNormalTags : (seen : List Text) → List Text → Type 0
  AreNormalTags seen [] = Unit
  AreNormalTags seen (tag ∷ tags) =
      (trim_space tag ≡ tag)
      × (is_empty tag ≡ false)
      × (is_among tag seen ≡ false)
      × AreNormalTags (to_lower tag ∷ seen) tags

  tags_from-nil : (seen : List Text) → tags_from to_lower seen [] ≡ []
  unfolding tags_from
  tags_from-nil seen = refl

  tags_from-skipped :
      (seen : List Text) (tag : Text) (tags : List Text)
      → (is_empty (trim_space tag) || is_among (trim_space tag) seen) ≡ true
      → tags_from to_lower seen (tag ∷ tags) ≡ tags_from to_lower seen tags
  unfolding tags_from
  tags_from-skipped seen tag tags h = rw h refl

  tags_from-kept :
      (seen : List Text) (tag : Text) (tags : List Text)
      → is_empty (trim_space tag) ≡ false
      → is_among (trim_space tag) seen ≡ false
      → tags_from to_lower seen (tag ∷ tags)
        ≡ trim_space tag ∷ tags_from to_lower (to_lower (trim_space tag) ∷ seen) tags
  unfolding tags_from
  tags_from-kept seen tag tags e h = rw (e, h) refl

  -- A tag is left out, or kept.
  tags_from-cases :
      (seen : List Text) (tag : Text) (tags : List Text)
      → (((is_empty (trim_space tag) ≡ true) ⊎ (is_among (trim_space tag) seen ≡ true))
          × (tags_from to_lower seen (tag ∷ tags) ≡ tags_from to_lower seen tags))
        ⊎ ((is_empty (trim_space tag) ≡ false)
            × (is_among (trim_space tag) seen ≡ false)
            × (tags_from to_lower seen (tag ∷ tags)
                ≡ trim_space tag ∷ tags_from to_lower (to_lower (trim_space tag) ∷ seen) tags))
  tags_from-cases seen tag tags = elim (Bool-cases (is_empty (trim_space tag))) [
    | inl e ↦ inl (inl e, tags_from-skipped seen tag tags (rw e refl))
    | inr e ↦ elim (Bool-cases (is_among (trim_space tag) seen)) [
      | inl h ↦ inl (inr h, tags_from-skipped seen tag tags (rw (e, h) refl))
      | inr h ↦ inr (e, h, tags_from-kept seen tag tags e h)
    ]
  ]

  tags_from-AreNormalTags :
      (seen tags : List Text) → AreNormalTags seen (tags_from to_lower seen tags)
  unfolding AreNormalTags tags_from
  tags_from-AreNormalTags seen [] = tt
  tags_from-AreNormalTags seen (tag ∷ tags) = elim (tags_from-cases seen tag tags) [
    | inl (h, e) ↦ subst (AreNormalTags seen) (sym e) (tags_from-AreNormalTags seen tags)
    | inr (f, h, e) ↦
        subst (AreNormalTags seen) (sym e) (
          trim_space_idem tag,
          f,
          h,
          tags_from-AreNormalTags (to_lower (trim_space tag) ∷ seen) tags,
        )
  ]

  tags_from-same :
      (seen tags : List Text) → AreNormalTags seen tags → tags_from to_lower seen tags ≡ tags
  unfolding AreNormalTags
  tags_from-same seen [] h = tags_from-nil seen
  tags_from-same seen (tag ∷ tags) (t, e, f, h) =
      tags_from-kept seen tag tags (rw t e) (rw t f)
      ∙ rw t (ap (λ (rest : List Text). tag ∷ rest) (tags_from-same (to_lower tag ∷ seen) tags h))

  -- A tag that is not blank has its lower case among those of the tags that are kept, or was seen.
  pub IsKept : (seen kept : List Text) → Text → Type 0
  IsKept seen kept tag =
      (is_empty (trim_space tag) ≡ true)
      ⊎ ((is_among (trim_space tag) seen ≡ true)
          ⊎ (is_among (trim_space tag) (map to_lower kept) ≡ true))

  IsKept-later :
      (seen kept : List Text) (tag other : Text)
      → IsKept (to_lower other ∷ seen) kept tag
      → IsKept seen (other ∷ kept) tag
  unfolding IsKept
  IsKept-later seen kept tag other (inl e) = inl e
  IsKept-later seen kept tag other (inr (inl h)) =
      elim (Bool-cases (list_beq (to_lower (trim_space tag)) (to_lower other))) [
        | inl g ↦ inr (inr (rw g refl))
        | inr g ↦ inr (inl (ground (arith, g)))
      ]
  IsKept-later seen kept tag other (inr (inr h)) = inr (inr (ground (arith, h)))

  IsKept-tail :
      (seen kept tags : List Text) (other : Text)
      → All (IsKept (to_lower other ∷ seen) kept) tags
      → All (IsKept seen (other ∷ kept)) tags
  IsKept-tail seen kept [] other h = tt
  IsKept-tail seen kept (tag ∷ tags) other (h, hs) =
      (IsKept-later seen kept tag other h, IsKept-tail seen kept tags other hs)

  IsKept-first : (seen kept : List Text) (tag : Text) → IsKept seen (trim_space tag ∷ kept) tag
  unfolding IsKept
  IsKept-first seen kept tag = inr (inr (rw (==_self (to_lower (trim_space tag))) refl))

  tags_from-IsKept : (seen tags : List Text) → All (IsKept seen (tags_from to_lower seen tags)) tags
  unfolding IsKept
  tags_from-IsKept seen [] = tt
  tags_from-IsKept seen (tag ∷ tags) = elim (tags_from-cases seen tag tags) [
    | inl (h, e) ↦
        subst (λ kept. All (IsKept seen kept) (tag ∷ tags)) (sym e)
          (elim h [ inl f ↦ inl f | inr f ↦ inr (inl f) ], tags_from-IsKept seen tags)
    | inr (f, h, e) ↦
        let rest = tags_from to_lower (to_lower (trim_space tag) ∷ seen) tags in
        subst (λ kept. All (IsKept seen kept) (tag ∷ tags)) (sym e)
          (
            IsKept-first seen rest tag,
            IsKept-tail seen rest tags (trim_space tag)
                (tags_from-IsKept (to_lower (trim_space tag) ∷ seen) tags),
          )
  ]

  -- The tags of a favorite have no spaces around them, none is empty, and no two are the same in
  -- lower case. Each tag that was given is blank or is the same as one of them in lower case. Tags
  -- that are normal already are left as they are, in their order.
  pub normalize_tags_lem :
      (tags : List Text)
      → AreNormalTags [] (normalize_tags to_lower tags)
        × All (IsKept [] (normalize_tags to_lower tags)) tags
        × (AreNormalTags [] tags → normalize_tags to_lower tags ≡ tags)
  unfolding normalize_tags
  normalize_tags_lem tags =
      (tags_from-AreNormalTags [] tags, tags_from-IsKept [] tags, tags_from-same [] tags)
