-- ===== src/RemotePath/Plain.antt =====
-- Paths of plain parts, which cleanRemotePath and joinRemotePath of internal/sftpmanager/path.go
-- take as they are written.
use mathlib.Core.List.{append_assoc, append-nil}
use myapptest.Common.{
  ℕ, true, false, List, [], ◌∷◌, ◌++◌, Text, codes, ◌≡◌, refl, sym, ap, ◌∙◌, arith, nat_beq, nat_eq,
  list_beq, All, is_empty, contains_any, has_prefix, replace_all, replace_from, split_on, put_first,
  join_with, trim_space, trim_right, trim_left-word, is_space,
}
use myapptest.RemotePath.{clean_parts, reversed, path_clean, with_slashes}

-- A part of a path that names something in a directory.
unfoldable pub IsPart : Text → Type 0
IsPart name =
    (is_empty name ≡ false)
    × (list_beq name (codes ".") ≡ false)
    × (list_beq name (codes "..") ≡ false)
    × (contains_any (codes "/") name ≡ false)
    × (contains_any (codes "\\") name ≡ false)

-- Each part after a slash.
unfoldable pub render : List Text → Text
render [] = []
render (part ∷ parts) = b'/' ∷ (part ++ render parts)

-- Without a backslash, nothing is replaced.
pub replaced_same :
    (s : Text) → contains_any (codes "\\") s ≡ false → replace_all (codes "\\") (codes "/") s ≡ s
unfolding replace_all replace_from has_prefix
replaced_same [] h = refl
replaced_same (c ∷ s) h = ground (arith, h, replaced_same s)

first_other : (c : ℕ) (x : Text) → contains_any (codes "/") (c ∷ x) ≡ false → nat_beq c b'/' ≡ false
first_other c x h = ground arith

rest_other :
    (c : ℕ) (x : Text)
    → contains_any (codes "/") (c ∷ x) ≡ false
    → contains_any (codes "/") x ≡ false
rest_other c x h = ground arith

-- A part is cut off at the slash after it.
split_on-part :
    (x t : Text)
    → contains_any (codes "/") x ≡ false
    → split_on b'/' (x ++ b'/' ∷ t) ≡ x ∷ split_on b'/' t
unfolding split_on put_first
split_on-part [] t h = refl
split_on-part (c ∷ x) t h = rw (first_other c x h, split_on-part x t (rest_other c x h)) refl

split_on-last : (x : Text) → contains_any (codes "/") x ≡ false → split_on b'/' x ≡ x ∷ []
unfolding split_on put_first
split_on-last [] h = refl
split_on-last (c ∷ x) h = rw (first_other c x h, split_on-last x (rest_other c x h)) refl

split_on-render :
    (x : Text) (xs : List Text) → All IsPart (x ∷ xs) → split_on b'/' (x ++ render xs) ≡ x ∷ xs
unfolding IsPart render
split_on-render x [] ((_, _, _, h, _), _) = ap (split_on b'/') (append-nil x) ∙ split_on-last x h
split_on-render x (y ∷ ys) ((_, _, _, h, _), hs) =
    split_on-part x (y ++ render ys) h ∙ ap (λ (zs : List Text). x ∷ zs) (split_on-render y ys hs)

clean_parts-plain :
    (before parts : List Text)
    → All IsPart before
    → All IsPart parts
    → clean_parts true before parts ≡ reversed parts before
unfolding clean_parts reversed IsPart
clean_parts-plain before [] b h = refl
clean_parts-plain [] (x ∷ xs) b ((e, d, dd, s, k), h) =
    rw (e, d, dd) (clean_parts-plain (x ∷ []) xs ((e, d, dd, s, k), tt) h)
clean_parts-plain (y ∷ before) (x ∷ xs) b ((e, d, dd, s, k), h) =
    rw (e, d, dd) (clean_parts-plain (x ∷ y ∷ before) xs ((e, d, dd, s, k), b) h)

reversed_back : (xs ys zs : List Text) → reversed (reversed xs ys) zs ≡ reversed ys (xs ++ zs)
unfolding reversed
reversed_back [] ys zs = refl
reversed_back (x ∷ xs) ys zs = reversed_back xs (x ∷ ys) zs

join_with-render :
    (x : Text) (xs : List Text) → b'/' ∷ join_with (codes "/") (x ∷ xs) ≡ render (x ∷ xs)
unfolding join_with render
join_with-render x [] = ap (λ (s : Text). b'/' ∷ s) (sym (append-nil x))
join_with-render x (y ∷ ys) =
    ap (λ (s : Text). b'/' ∷ s) (append_assoc x (codes "/") (join_with (codes "/") (y ∷ ys)))
    ∙ ap (λ (s : Text). b'/' ∷ (x ++ s)) (join_with-render y ys)

unreversed : (xs : List Text) → reversed [] (xs ++ []) ≡ xs
unfolding reversed
unreversed xs = append-nil xs

first_skipped : (parts : List Text) → clean_parts true [] ([] ∷ parts) ≡ clean_parts true [] parts
unfolding clean_parts
first_skipped parts = refl

rooted-clean :
    (s : Text)
    → path_clean (b'/' ∷ s)
      ≡ b'/' ∷ join_with (codes "/") (reversed (clean_parts true [] ([] ∷ split_on b'/' s)) [])
unfolding path_clean has_prefix split_on
rooted-clean s = refl

pub path_clean-render :
    (x : Text) (xs : List Text)
    → All IsPart (x ∷ xs)
    → path_clean (render (x ∷ xs)) ≡ render (x ∷ xs)
unfolding path_clean render has_prefix split_on
path_clean-render x xs h =
    rooted-clean (x ++ render xs)
    ∙ ap
        (λ (parts : List Text).
          b'/' ∷ join_with (codes "/") (reversed (clean_parts true [] ([] ∷ parts)) []))
        (split_on-render x xs h)
    ∙ ap (λ (parts : List Text). b'/' ∷ join_with (codes "/") (reversed parts []))
        (first_skipped (x ∷ xs) ∙ clean_parts-plain [] (x ∷ xs) tt h)
    ∙ ap (λ (parts : List Text). b'/' ∷ join_with (codes "/") parts)
        (reversed_back (x ∷ xs) [] [] ∙ unreversed (x ∷ xs))
    ∙ join_with-render x xs

-- A path, with no space around it.
unfoldable pub IsPlain : Text → Type 0
IsPlain path =
    (part : Text) × (parts : List Text) × All IsPart (part ∷ parts)
    × (path ≡ render (part ∷ parts))
    × (trim_right path ≡ path)

no_backslash_part :
    (x t : Text)
    → contains_any (codes "\\") x ≡ false
    → contains_any (codes "\\") t ≡ false
    → contains_any (codes "\\") (x ++ t) ≡ false
no_backslash_part [] t h g = g
no_backslash_part (c ∷ x) t h g = ground (arith, h, g, no_backslash_part x t)

no_backslash :
    (parts : List Text) → All IsPart parts → contains_any (codes "\\") (render parts) ≡ false
unfolding IsPart render
no_backslash [] h = refl
no_backslash (x ∷ xs) ((_, _, _, _, k), h) = no_backslash_part x (render xs) k (no_backslash xs h)

trim_space-rooted : (s : Text) → trim_right (b'/' ∷ s) ≡ b'/' ∷ s → trim_space (b'/' ∷ s) ≡ b'/' ∷ s
unfolding trim_space is_space
trim_space-rooted s h = ap trim_right (trim_left-word b'/' s refl) ∙ h

pub with_slashes-render :
    (x : Text) (xs : List Text)
    → All IsPart (x ∷ xs)
    → trim_right (render (x ∷ xs)) ≡ render (x ∷ xs)
    → with_slashes (render (x ∷ xs)) ≡ render (x ∷ xs)
unfolding with_slashes render
with_slashes-render x xs h t =
    ap trim_space (replaced_same (render (x ∷ xs)) (no_backslash (x ∷ xs) h))
    ∙ trim_space-rooted (x ++ render xs) t
