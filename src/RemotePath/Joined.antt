-- ===== src/RemotePath/Joined.antt =====
-- That joinRemotePath of internal/sftpmanager/path.go puts a name after a slash.
use mathlib.Core.Path.{subst}
use mathlib.Core.List.{append_assoc, append-nil}
use myapptest.Common.{
  ℕ, Bool, true, false, false≢true, List, [], ◌∷◌, ◌++◌, Text, codes, ◌≡◌, refl, sym, ap, ◌∙◌, inl,
  inr, arith, nat_beq_comm, if◌then◌else◌, ◌||◌, ◌&&◌, not, nat_beq, nat_eq, list_beq, list_beq_iff,
  All, Bool-cases, is_empty, contains_any, has_prefix, trim_space, trim_left, trim_right,
  trim_right_idem,
}
use myapptest.RemotePath.{
  path_clean, path_join, with_slashes, clean_remote_path, join_remote_path, same_text, is_rooted,
}
use myapptest.RemotePath.Deleting.{safe_remote_child_name}
use myapptest.RemotePath.Plain.{
  IsPart, IsPlain, render, path_clean-render, with_slashes-render, replaced_same,
}

clean_of : Text → Text
clean_of value =
    if is_empty value || same_text value (codes ".")
    then codes "."
    else if same_text value (codes "/")
    then codes "/"
    else if is_rooted value && not (is_rooted (path_clean value))
    then b'/' ∷ path_clean value
    else path_clean value

clean_of-rooted : (s : Text) → path_clean (b'/' ∷ s) ≡ b'/' ∷ s → clean_of (b'/' ∷ s) ≡ b'/' ∷ s
unfolding clean_of has_prefix
clean_of-rooted s h = elim (Bool-cases (same_text (b'/' ∷ s) (codes "/"))) [
  | inl e ↦
      ap
        (λ b.
          if b
          then codes "/"
          else if not (is_rooted (path_clean (b'/' ∷ s)))
          then b'/' ∷ path_clean (b'/' ∷ s)
          else path_clean (b'/' ∷ s))
        e
      ∙ sym ((list_beq_iff (b'/' ∷ s) (codes "/")).0 e)
  | inr e ↦
      ap
        (λ b.
          if b
          then codes "/"
          else if not (is_rooted (path_clean (b'/' ∷ s)))
          then b'/' ∷ path_clean (b'/' ∷ s)
          else path_clean (b'/' ∷ s))
        e
      ∙ ap (λ p. if not (is_rooted p) then b'/' ∷ p else p) h
]

clean_remote_path-render :
    (x : Text) (xs : List Text)
    → All IsPart (x ∷ xs)
    → trim_right (render (x ∷ xs)) ≡ render (x ∷ xs)
    → clean_remote_path (render (x ∷ xs)) ≡ render (x ∷ xs)
unfolding clean_remote_path render clean_of
clean_remote_path-render x xs h t =
    ap clean_of (with_slashes-render x xs h t)
    ∙ clean_of-rooted (x ++ render xs) (path_clean-render x xs h)

render-join :
    (parts : List Text) (name : Text) → render (parts ++ name ∷ []) ≡ render parts ++ b'/' ∷ name
unfolding render
render-join [] name = ap (λ (s : Text). b'/' ∷ s) (append-nil name)
render-join (x ∷ xs) name =
    ap (λ (s : Text). b'/' ∷ (x ++ s)) (render-join xs name)
    ∙ ap (λ (s : Text). b'/' ∷ s) (sym (append_assoc x (render xs) (b'/' ∷ name)))

All-join : (xs : List Text) (y : Text) → All IsPart xs → IsPart y → All IsPart (xs ++ y ∷ [])
All-join [] y h p = (p, tt)
All-join (x ∷ xs) y (q, h) p = (q, All-join xs y h p)

trim_right-cons : (c d : ℕ) (t s : Text) → trim_right s ≡ d ∷ t → trim_right (c ∷ s) ≡ c ∷ d ∷ t
unfolding trim_right
trim_right-cons c d t s h = rw h refl

trim_right-after :
    (s : Text) (d : ℕ) (t : Text)
    → trim_right (d ∷ t) ≡ d ∷ t
    → trim_right (s ++ d ∷ t) ≡ s ++ d ∷ t
trim_right-after [] d t h = h
trim_right-after (c ∷ []) d t h = trim_right-cons c d t (d ∷ t) h
trim_right-after (c ∷ b ∷ s) d t h =
    trim_right-cons c b (s ++ d ∷ t) (b ∷ s ++ d ∷ t) (trim_right-after (b ∷ s) d t h)

trimmed_right : (s : Text) → trim_space s ≡ s → trim_right s ≡ s
unfolding trim_space
trimmed_right s h = ap trim_right (sym h) ∙ trim_right_idem (trim_left s) ∙ h

join_of : (parent below : Text) → Text
join_of parent below =
    if is_empty below
    then parent
    else if is_rooted below || same_text parent (codes ".")
    then clean_remote_path below
    else clean_remote_path (path_join parent below)

not_rooted : (d : ℕ) (t : Text) → contains_any (codes "/") (d ∷ t) ≡ false → nat_beq b'/' d ≡ false
not_rooted d t h = nat_beq_comm b'/' d ∙ ground arith

join_of-part :
    (s : Text) (d : ℕ) (t : Text)
    → contains_any (codes "/") (d ∷ t) ≡ false
    → join_of (b'/' ∷ s) (d ∷ t) ≡ clean_remote_path (path_clean (b'/' ∷ s ++ codes "/" ++ d ∷ t))
unfolding join_of has_prefix path_join
join_of-part s d t h =
    ap
      (λ b.
        if b && true || false
        then clean_remote_path (d ∷ t)
        else clean_remote_path (path_clean (b'/' ∷ s ++ codes "/" ++ d ∷ t)))
      (not_rooted d t h)

-- The last part of a path of plain parts may be followed by another.
rendered_join :
    (x : Text) (xs : List Text) (d : ℕ) (t : Text)
    → All IsPart (x ∷ xs)
    → IsPart (d ∷ t)
    → trim_right (render (x ∷ xs)) ≡ render (x ∷ xs)
    → trim_right (d ∷ t) ≡ d ∷ t
    → with_slashes (d ∷ t) ≡ d ∷ t
    → (join_remote_path (render (x ∷ xs)) (d ∷ t) ≡ render (x ∷ xs) ++ b'/' ∷ d ∷ t)
      × IsPlain (render (x ∷ xs) ++ b'/' ∷ d ∷ t)
unfolding join_remote_path join_of IsPlain IsPart render
rendered_join x xs d t h (e, o, oo, s, k) pt nt w =
    let parts = xs ++ (d ∷ t) ∷ [] in
    let good = All-join (x ∷ xs) (d ∷ t) h (e, o, oo, s, k) in
    let shape = render-join (x ∷ xs) (d ∷ t) in
    let trimmed = trim_right-after (render (x ∷ xs) ++ codes "/") d t nt in
    let glued = append_assoc (render (x ∷ xs)) (codes "/") (d ∷ t) in
    let whole = subst (λ p. trim_right p ≡ p) (glued ∙ sym shape) trimmed in
    (
      ap (λ p. join_of p (with_slashes (d ∷ t))) (clean_remote_path-render x xs h pt)
          ∙ ap (join_of (render (x ∷ xs))) w
          ∙ join_of-part (x ++ render xs) d t s
          ∙ ap (λ p. clean_remote_path (path_clean p)) (glued ∙ sym shape)
          ∙ ap clean_remote_path (path_clean-render x parts good)
          ∙ clean_remote_path-render x parts good whole
          ∙ shape,
      (x, parts, good, sym shape, subst (λ p. trim_right p ≡ p) glued trimmed),
    )

part_join :
    (x : Text) (xs : List Text) (name : Text)
    → All IsPart (x ∷ xs)
    → IsPart name
    → trim_right (render (x ∷ xs)) ≡ render (x ∷ xs)
    → trim_space name ≡ name
    → (join_remote_path (render (x ∷ xs)) name ≡ render (x ∷ xs) ++ b'/' ∷ name)
      × IsPlain (render (x ∷ xs) ++ b'/' ∷ name)
unfolding IsPart with_slashes
part_join x xs [] h (e, _, _, _, _) pt nt = absurd (false≢true (sym e))
part_join x xs (d ∷ t) h (e, o, oo, s, k) pt nt =
    rendered_join x xs d t h (e, o, oo, s, k) pt (trimmed_right (d ∷ t) nt)
      (ap trim_space (replaced_same (d ∷ t) k) ∙ nt)

-- A name without spaces around it, in a directory whose path is plain.
pub join_remote_path-IsPlain :
    (path name : Text)
    → IsPlain path
    → IsPart name
    → trim_space name ≡ name
    → (join_remote_path path name ≡ path ++ b'/' ∷ name) × IsPlain (path ++ b'/' ∷ name)
unfolding IsPlain
join_remote_path-IsPlain path name (x, xs, h, e, t) part trimmed =
    subst (λ p. (join_remote_path p name ≡ p ++ b'/' ∷ name) × IsPlain (p ++ b'/' ∷ name)) (sym e)
      (part_join x xs name h part (subst (λ p. trim_right p ≡ p) e t) trimmed)

all_pass :
    (a b c d e : Bool)
    → (not a && not b && not c && not d && not e) ≡ true
    → (a ≡ false) × (b ≡ false) × (c ≡ false) × (d ≡ false) × (e ≡ false)
all_pass a b c d e h = ground arith

-- The names that deleteDirectoryRecursive follows name a part of a path.
pub safe-IsPart : (name : Text) → safe_remote_child_name name ≡ true → IsPart name
unfolding safe_remote_child_name IsPart
safe-IsPart name h =
    all_pass (is_empty name) (list_beq name (codes ".")) (list_beq name (codes ".."))
      (contains_any (codes "/") name) (contains_any (codes "\\") name) h
