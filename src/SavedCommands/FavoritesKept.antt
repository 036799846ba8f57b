-- ===== src/SavedCommands/FavoritesKept.antt =====
-- What CreateFavorite and UpdateFavorite of internal/commands/service.go write to the store.
use myapptest.Common.{
  ℤ, Option, none, some, Text, ◌≡◌, refl, ◌⊎◌, inl, inr, Bool-cases, is_empty, trim_space,
}
use myapptest.SavedCommands.{normalize_history_command}
use myapptest.SavedCommands.Normal.{normalize_history_command_idem}
use myapptest.SavedCommands.Store.{Store, CommandFavorite, SaveCommandFavoriteRequest}
use myapptest.SavedCommands.Favorites.{
  SaveError, admit_favorite, if_admitted, new_favorite, normal_request, saved, create_favorite,
  update_favorite,
}
use myapptest.SavedCommands.Clean.{MayBeFavorite, Keeps}
use myapptest.SavedCommands.Admitted.{IsAdmitted, admit_favorite-none}

module _ {W E : Type 0} (store : Store W E) (sha256_hex : Text → Text) (to_lower : Text → Text)
    (limit : Option ℤ) (I : W → Type 0) (k : Keeps store sha256_hex limit I) where
  admitted-MayBeFavorite :
      (request : SaveCommandFavoriteRequest)
      → admit_favorite to_lower {E = E} request ≡ none
      → MayBeFavorite request.allow_sensitive (normalize_history_command request.command)
  unfolding MayBeFavorite IsAdmitted
  admitted-MayBeFavorite request h =
      let (valid, allowed) = admit_favorite-none to_lower request h in
      (normalize_history_command_idem request.command, allowed)

  saved-kept : (r : (E ⊎ CommandFavorite) × W) → I r.1 → I (saved to_lower store r).1
  unfolding saved
  saved-kept (inl e, w) i = i
  saved-kept (inr favorite, w) i = i

  if_admitted-kept :
      (admitted : Option (SaveError E)) (w : W) (written : (E ⊎ CommandFavorite) × W)
      → I w
      → (admitted ≡ none → I written.1)
      → I (if_admitted to_lower store admitted w written).1
  unfolding if_admitted
  if_admitted-kept (some e) w written i f = i
  if_admitted-kept none w written i f = saved-kept written (f refl)

  pub create_favorite-kept :
      (request : SaveCommandFavoriteRequest) (id now : Text) (w : W)
      → I w
      → I (create_favorite to_lower store request id now w).1
  unfolding create_favorite new_favorite
  create_favorite-kept request id now w i =
      if_admitted-kept (admit_favorite to_lower request) w
        (store.create_command_favorite w (new_favorite to_lower request id now)) i
        (λ h.
          k.create_favorite_kept w (new_favorite to_lower request id now) request.allow_sensitive i
            (admitted-MayBeFavorite request h))

  update_admitted-kept :
      (request : SaveCommandFavoriteRequest) (w : W)
      → I w
      → I
          (if_admitted to_lower store
            (admit_favorite to_lower request)
            w
            (store.update_command_favorite w (normal_request to_lower request))).1
  unfolding normal_request
  update_admitted-kept request w i =
      if_admitted-kept (admit_favorite to_lower request) w
        (store.update_command_favorite w (normal_request to_lower request)) i
        (λ h.
          k.update_favorite_kept w (normal_request to_lower request) i
            (admitted-MayBeFavorite request h))

  pub update_favorite-kept :
      (request : SaveCommandFavoriteRequest) (w : W)
      → I w
      → I (update_favorite to_lower store request w).1
  unfolding update_favorite
  update_favorite-kept request w i = elim (Bool-cases (is_empty (trim_space request.id))) [
    | inl h ↦ rw h i
    | inr h ↦ rw h (update_admitted-kept (record request { id = trim_space request.id }) w i)
  ]
