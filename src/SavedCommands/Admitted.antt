-- ===== src/SavedCommands/Admitted.antt =====
-- Which favorites CreateFavorite and UpdateFavorite of internal/commands/service.go take, and what
-- they write.
use myapptest.Common.{
  ◌≤◌, ℤ, is_positive, Bool, true, false, false≢true, Option, none, some, Text, ◌≡◌, refl, sym, ap,
  ◌∙◌, ◌⊎◌, ◌↔◌, inl, inr, arith, Bool-cases, Option-cases, is_empty, trim_space, trim_space-empty,
  IsBlank, length, pos, [],
}
use myapptest.SavedCommands.{CommandScope, normalize_history_command}
use myapptest.SavedCommands.Normal.{normalize_history_command_idem}
use myapptest.SavedCommands.Safety.{CommandSafetyResult, safe, unsafe}
use myapptest.SavedCommands.Store.{Store, CommandFavorite, SaveCommandFavoriteRequest}
use myapptest.SavedCommands.Clean.{IsClean, MayBeFavorite}
use myapptest.SavedCommands.Tags.{AreNormalTags, normalize_tags_lem}
use myapptest.SavedCommands.Favorites.{
  FavoriteError, SaveError, check_scope, validate_favorite, check_favorite_safety, admit_of,
  admit_favorite, if_admitted, new_favorite, saved, create_favorite, normalize_tags,
}

-- A scope with the id that it is about.
pub HasScope : CommandScope → (server_id group_id : Option ℤ) → Type 0
HasScope CommandScope.global server_id group_id = Unit
HasScope CommandScope.group server_id group_id =
    (id : ℤ) × (group_id ≡ some id) × (is_positive id ≡ true)
HasScope CommandScope.server server_id group_id =
    (id : ℤ) × (server_id ≡ some id) × (is_positive id ≡ true)
HasScope CommandScope.builtin server_id group_id = ⊥
HasScope (CommandScope.other name) server_id group_id = ⊥

pub IsValidFavorite : SaveCommandFavoriteRequest → Type 0
unfolding normalize_history_command HasScope
IsValidFavorite request =
    (¬ IsBlank request.title)
    × (is_empty (normalize_history_command request.command) ≡ false)
    × (length (normalize_history_command request.command) ≤ 32768)
    × HasScope request.scope request.server_id request.group_id

check_scope-none :
    (scope : CommandScope) (server_id group_id : Option ℤ)
    → (check_scope scope server_id group_id ≡ none) ↔ HasScope scope server_id group_id
unfolding check_scope HasScope
check_scope-none CommandScope.global server_id group_id = (λ h. tt, λ h. refl)
check_scope-none CommandScope.group server_id none = (λ h. cc, λ (id, e, p). cc)
check_scope-none CommandScope.group server_id (some id) =
    (λ h. (id, refl, ground arith), λ (other, e, p). ground arith)
check_scope-none CommandScope.server none group_id = (λ h. cc, λ (id, e, p). cc)
check_scope-none CommandScope.server (some id) group_id =
    (λ h. (id, refl, ground arith), λ (other, e, p). ground arith)
check_scope-none CommandScope.builtin server_id group_id = (λ h. cc, λ h. absurd h)
check_scope-none (CommandScope.other name) server_id group_id = (λ h. cc, λ h. absurd h)

validate_favorite-cases :
    (request : SaveCommandFavoriteRequest)
    → (validate_favorite request ≡ none) ↔ (
        (is_empty (trim_space request.title) ≡ false)
        × (is_empty (normalize_history_command request.command) ≡ false)
        × (length (normalize_history_command request.command) ≤ 32768)
        × (check_scope request.scope request.server_id request.group_id ≡ none))
unfolding validate_favorite
validate_favorite-cases request = (λ h. ground arith, λ (t, c, l, s). ground arith)

filled : (title : Text) → ¬ IsBlank title → is_empty (trim_space title) ≡ false
filled title b = elim (Bool-cases (is_empty (trim_space title))) [
  | inl h ↦ absurd (b ((trim_space-empty title).0 h))
  | inr h ↦ h
]

-- The check of a favorite finds no error just where the title is not blank, the command is not
-- empty and has at most 32768 code points when it is normal, and the scope is global, or a group or
-- a server with an id that is positive.
pub validate_favorite-none :
    (request : SaveCommandFavoriteRequest)
    → (validate_favorite request ≡ none) ↔ IsValidFavorite request
unfolding IsValidFavorite
validate_favorite-none request =
    let (to, from) = validate_favorite-cases request in
    let (to_scope, from_scope) =
      check_scope-none request.scope request.server_id request.group_id in
    let title = trim_space-empty request.title in
    (
      λ h. let (t, c, l, s) = to h in (λ b. false≢true (sym t ∙ title.1 b), c, l, to_scope s),
      λ (t, c, l, s). from (filled request.title t, c, l, from_scope s),
    )

-- What a request is that a favorite is made of.
unfoldable pub IsAdmitted : SaveCommandFavoriteRequest → Type 0
unfolding normalize_history_command
IsAdmitted request =
    IsValidFavorite request
    × ((request.allow_sensitive ≡ true) ⊎ IsClean (normalize_history_command request.command))

admit_of-none :
    (to_lower : Text → Text) {E : Type 0} (error : Option FavoriteError) (allow : Bool)
    (checked : CommandSafetyResult)
    → admit_of to_lower {E = E} error allow checked ≡ none
    → (error ≡ none) × ((allow ≡ true) ⊎ (checked ≡ safe))
unfolding admit_of
admit_of-none to_lower (some e) allow checked h = cc
admit_of-none to_lower none true checked h = (refl, inl refl)
admit_of-none to_lower none false safe h = (refl, inr refl)
admit_of-none to_lower none false (unsafe reason) h = cc

pub admit_favorite-none :
    (to_lower : Text → Text) {E : Type 0} (request : SaveCommandFavoriteRequest)
    → admit_favorite to_lower {E = E} request ≡ none
    → IsAdmitted request
unfolding admit_favorite check_favorite_safety IsClean IsAdmitted
admit_favorite-none to_lower {E = E} request h =
    let (v, a) =
      admit_of-none to_lower {E = E} (validate_favorite request) request.allow_sensitive
        (check_favorite_safety request.command) h in
    (
      (validate_favorite-none request).0 v,
      elim a [
        | inl allowed ↦ inl allowed
        | inr s ↦ inr (s, normalize_history_command_idem request.command)
      ],
    )

module _ {W E : Type 0} (store : Store W E) (to_lower : Text → Text) where
  -- A favorite of a valid request: its command is the normal form of the one that was given, and
  -- safe unless the request allows a command that may hold a secret; its tags are normal; and it
  -- has not been used.
  pub IsFavoriteOf : SaveCommandFavoriteRequest → (id now : Text) → CommandFavorite → Type 0
  unfolding IsClean
  IsFavoriteOf request id now favorite =
      IsValidFavorite request
      × (favorite.id ≡ id)
      × (favorite.title ≡ trim_space request.title)
      × (favorite.command ≡ normalize_history_command request.command)
      × MayBeFavorite request.allow_sensitive favorite.command
      × (favorite.scope ≡ request.scope)
      × (favorite.server_id ≡ request.server_id)
      × (favorite.group_id ≡ request.group_id)
      × AreNormalTags to_lower [] favorite.tags
      × (favorite.use_count ≡ pos 0)
      × (favorite.created_at ≡ now)
      × (favorite.updated_at ≡ now)

  new_favorite-IsFavoriteOf :
      (request : SaveCommandFavoriteRequest) (id now : Text)
      → IsAdmitted request
      → IsFavoriteOf request id now (new_favorite to_lower request id now)
  unfolding new_favorite IsAdmitted IsFavoriteOf MayBeFavorite normalize_tags
  new_favorite-IsFavoriteOf request id now (valid, allowed) = (
    valid,
    refl,
    refl,
    refl,
    (normalize_history_command_idem request.command, allowed),
    refl,
    refl,
    refl,
    (normalize_tags_lem to_lower request.tags).0,
    refl,
    refl,
    refl,
  )

  -- CreateFavorite returns an error and leaves the store as it was, or its request is valid and the
  -- store is given a favorite of it, with its command normalised. That command is safe, unless the
  -- request allows a command that may hold a secret.
  pub create_favorite-cases :
      (request : SaveCommandFavoriteRequest) (id now : Text) (w : W)
      → ((e : SaveError E) × (create_favorite to_lower store request id now w ≡ (inl e, w)))
        ⊎ ((favorite : CommandFavorite) × IsFavoriteOf request id now favorite
            × (create_favorite to_lower store request id now w
                ≡ saved to_lower store (store.create_command_favorite w favorite)))
  unfolding create_favorite if_admitted
  create_favorite-cases request id now w =
      let written = store.create_command_favorite w (new_favorite to_lower request id now) in
      elim (Option-cases (admit_favorite to_lower {E = E} request)) [
        | inl h ↦ inr (
          new_favorite to_lower request id now,
          new_favorite-IsFavoriteOf request id now (admit_favorite-none to_lower request h),
          ap (λ admitted. if_admitted to_lower store admitted w written) h,
        )
        | inr (e, h) ↦ inl (e, ap (λ admitted. if_admitted to_lower store admitted w written) h)
      ]
