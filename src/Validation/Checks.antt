-- ===== src/Validation/Checks.antt =====
-- internal/domain/validation.go: what each check of `ValidateConnection` lets through.
use myapptest.Common.{
  ℤ, pos, int_eq, int_beq_iff, ◌≤ℤ◌, true, false, Option, none, some, ◌≡◌, ◌≢◌, ◌↔◌, ◌⊎◌, inl, inr,
  arith, IsBlank, trim_space-empty, Text, trim_space, is_empty, Bool-cases, is_positive,
  Option-cases, refl, String, Bool, false≢true, true≢false, ap, sym, ◌∙◌, if◌then◌else◌, not, ◌&&◌,
  ◌==◌,
}
use myapptest.Domain.{AuthType}
use myapptest.Validation.{
  SaveConnectionRequest, ConnectionMode, PrivateKeySource, ValidationError, check_route,
  check_key_source, check_refresh_interval,
}

-- Another server is named to go over.
abbrev pub IsJump : SaveConnectionRequest → Type 0
IsJump r = (server : ℤ) × (r.jump_server_id ≡ some server) × (pos 1 ≤ℤ server) × (server ≢ r.id)

-- The target is reached directly, or over another server.
abbrev pub IsRoute : SaveConnectionRequest → ConnectionMode → Type 0
IsRoute r mode =
    (mode ≡ ConnectionMode.direct)
    ⊎ (mode ≡ ConnectionMode.other "")
    ⊎ ((mode ≡ ConnectionMode.jump) × IsJump r)

abbrev pub IsVaulted : SaveConnectionRequest → Type 0
IsVaulted r = (id : ℤ) × (r.key_vault_id ≡ some id) × (pos 1 ≤ℤ id)

-- A private key is a named file, or an entry of the vault.
abbrev pub IsKey : SaveConnectionRequest → PrivateKeySource → Type 0
IsKey r source =
    (((source ≡ PrivateKeySource.local_file) ⊎ (source ≡ PrivateKeySource.other ""))
      × ¬ IsBlank r.private_key_path)
    ⊎ ((source ≡ PrivateKeySource.key_vault) × IsVaulted r)

abbrev pub IsAuth : SaveConnectionRequest → AuthType → Type 0
IsAuth r auth =
    (auth ≡ AuthType.password) ⊎ ((auth ≡ AuthType.private_key) × IsKey r r.private_key_source)

abbrev pub IsPort : ℤ → Type 0
IsPort port = (pos 1 ≤ℤ port) × (port ≤ℤ pos 65535)

abbrev pub IsInterval : ℤ → Type 0
IsInterval x = (x ≡ pos 1) ⊎ (x ≡ pos 2) ⊎ (x ≡ pos 5)

pub check_refresh-none : (x : ℤ) → (check_refresh_interval x ≡ none) ↔ IsInterval x
unfolding check_refresh_interval
check_refresh-none x =
    ground (arith, int_beq_iff x (pos 1), int_beq_iff x (pos 2), int_beq_iff x (pos 5))

server_test :
    (server id : ℤ)
    → ((if not (is_positive server)
          then some ValidationError.jump_server_required
          else if is_positive id && server == id
          then some ValidationError.jump_server_is_target
          else none)
        ≡ none)
      ↔ ((pos 1 ≤ℤ server) × (server ≢ id))
server_test server id = ground (arith, int_beq_iff server id)

check_jump : (r : SaveConnectionRequest) → (check_route r ConnectionMode.jump ≡ none) ↔ IsJump r
unfolding check_route
check_jump r = elim (Option-cases r.jump_server_id) [
  | inl e ↦ rw e (ground arith)
  | inr (server, e) ↦ (
    rw e (λ h. let (p, n) = (server_test server r.id).0 h in (server, refl, p, n)),
    λ (x, ex, p, n). rw ex ((server_test x r.id).1 (p, n)),
  )
]

is_unknown_mode : ConnectionMode → Bool
is_unknown_mode (ConnectionMode.other (String.◌∷◌ c s)) = true
is_unknown_mode _ = false

pub check_route-none :
    (r : SaveConnectionRequest) (m : ConnectionMode) → (check_route r m ≡ none) ↔ IsRoute r m
unfolding check_route is_unknown_mode
check_route-none r ConnectionMode.direct = (λ h. inl refl, λ h. refl)
check_route-none r (ConnectionMode.other String.[]) = (λ h. inr (inl refl), λ h. refl)
check_route-none r (ConnectionMode.other (String.◌∷◌ c s)) = (
  λ h. ground arith,
  λ h. elim h [
    | inl e ↦ absurd (true≢false (ap is_unknown_mode e))
    | inr (inl e) ↦ absurd (true≢false (ap is_unknown_mode e))
    | inr (inr (e, _)) ↦ absurd (true≢false (ap is_unknown_mode e))
  ],
)
check_route-none r ConnectionMode.jump = (
  λ h. inr (inr (refl, (check_jump r).0 h)),
  λ h. elim h [
    | inl e ↦ ground arith
    | inr (inl e) ↦ ground arith
    | inr (inr (_, j)) ↦ (check_jump r).1 j
  ],
)

pub required_test :
    (s : Text) (e : ValidationError) (rest : Option ValidationError)
    → ((if is_empty (trim_space s) then some e else rest) ≡ none) ↔ ((¬ IsBlank s) × (rest ≡ none))
required_test s e rest = elim (Bool-cases (is_empty (trim_space s))) [
  | inl h ↦ rw h (λ x. ground arith, λ (b, x). absurd (b ((trim_space-empty s).0 h)))
  | inr h ↦ rw h (λ x. (λ b. false≢true (sym h ∙ (trim_space-empty s).1 b), x), λ (b, x). x)
]

vault_test :
    (r : SaveConnectionRequest)
    → (check_key_source r PrivateKeySource.key_vault ≡ none) ↔ IsVaulted r
unfolding check_key_source
vault_test r = elim (Option-cases r.key_vault_id) [
  | inl e ↦ rw e (ground arith)
  | inr (id, e) ↦ (rw e (λ h. (id, refl, ground arith)), λ (x, ex, p). rw ex (ground arith))
]

is_unknown_source : PrivateKeySource → Bool
is_unknown_source (PrivateKeySource.other (String.◌∷◌ c s)) = true
is_unknown_source _ = false

pub check_key_source-none :
    (r : SaveConnectionRequest) (source : PrivateKeySource)
    → (check_key_source r source ≡ none) ↔ IsKey r source
unfolding check_key_source is_unknown_source
check_key_source-none r PrivateKeySource.local_file = (
  λ h. inl (inl refl, ((required_test r.private_key_path _ none).0 h).0),
  λ h. elim h [
    | inl (_, b) ↦ (required_test r.private_key_path _ none).1 (b, refl)
    | inr (e, _) ↦ ground arith
  ],
)
check_key_source-none r (PrivateKeySource.other String.[]) = (
  λ h. inl (inr refl, ((required_test r.private_key_path _ none).0 h).0),
  λ h. elim h [
    | inl (_, b) ↦ (required_test r.private_key_path _ none).1 (b, refl)
    | inr (e, _) ↦ ground arith
  ],
)
check_key_source-none r PrivateKeySource.key_vault = (
  λ h. inr (refl, (vault_test r).0 h),
  λ h. elim h [ inl (e, _) ↦ ground arith | inr (_, v) ↦ (vault_test r).1 v ],
)
check_key_source-none r (PrivateKeySource.other (String.◌∷◌ c s)) = (
  λ h. ground arith,
  λ h. elim h [
    | inl (inl e, _) ↦ absurd (true≢false (ap is_unknown_source e))
    | inl (inr e, _) ↦ absurd (true≢false (ap is_unknown_source e))
    | inr (e, _) ↦ absurd (true≢false (ap is_unknown_source e))
  ],
)
