-- ===== src/Tunnel/Request.antt =====
-- `normalizeStartRequest` and the guard of `Start`.
use myapptest.Common.{
  ℤ, pos, ◌≤ℤ◌, true, false, [], Text, trim_space, trim_space_idem, is_empty, ◌≡◌, refl, sym, ap,
  ◌∙◌, arith, inl, inr, ◌⊎◌, Bool-cases, Bool, ◌&&◌, not, list_eq, nat_eq, if◌then◌else◌, is_space,
  trim_left, trim_right, codes,
}
use myapptest.Tunnel.{
  TunnelType, StartRequest, StartError, fill, check, normalize_start_request, requires_public_bind,
  admit, listen_host, is_any_host, default_host, default_tunnel_name,
}

abbrev pub IsPort : ℤ → Type 0
IsPort port = (pos 1 ≤ℤ port) × (port ≤ℤ pos 65535)

-- A tunnel of a type that the program has, with a port to listen at and a target, which a dynamic
-- tunnel has none of.
abbrev pub IsStartable : StartRequest → TunnelType → Type 0
IsStartable r TunnelType.local =
    IsPort r.bind_port × (is_empty r.target_host ≡ false) × IsPort r.target_port
IsStartable r TunnelType.remote =
    IsPort r.remote_bind_port × (is_empty r.target_host ≡ false) × IsPort r.target_port
IsStartable r TunnelType.dynamic =
    IsPort r.bind_port × (r.target_host ≡ []) × (r.target_port ≡ pos 0)
IsStartable r (TunnelType.other _) = ⊥

default_host_trimmed :
    (s : Text)
    → default_host (trim_space (default_host (trim_space s))) ≡ default_host (trim_space s)
unfolding trim_space
default_host_trimmed s = elim (Bool-cases (is_empty (trim_space s))) [
  | inl h ↦ rw h refl
  | inr h ↦ rw (h, trim_space_idem s, h) refl
]

name_trimmed :
    (s : Text) (t : TunnelType)
    → let name = if is_empty (trim_space s) then default_tunnel_name t else trim_space s in
      (trim_space name ≡ name) × (is_empty name ≡ false)
unfolding trim_space trim_left trim_right is_space
name_trimmed s t = elim (Bool-cases (is_empty (trim_space s))) [
  | inl h ↦ rw h (default_name t)
  | inr h ↦ rw h (trim_space_idem s, h)
]
  where
    default_name :
        (t : TunnelType)
        → (trim_space (default_tunnel_name t) ≡ default_tunnel_name t)
          × (is_empty (default_tunnel_name t) ≡ false)
    default_name TunnelType.local = (refl, refl)
    default_name TunnelType.remote = (refl, refl)
    default_name TunnelType.dynamic = (refl, refl)
    default_name (TunnelType.other _) = (refl, refl)

-- A request is filled as it is, whatever its target, when the target has no space around it.
fill_idem :
    (r : StartRequest) (host : Text) (port : ℤ)
    → trim_space host ≡ host
    → let n = record (fill r) { target_host = host; target_port = port } in fill n ≡ n
unfolding fill
fill_idem r host port h =
    let (a, b) = name_trimmed r.name r.type in
    rw (a, b, default_host_trimmed r.bind_host, default_host_trimmed r.remote_bind_host, h) refl

fill-type : (r : StartRequest) → (fill r).type ≡ r.type
unfolding fill
fill-type r = refl

fill-target :
    (r : StartRequest)
    → fill r
      ≡ record (fill r) { target_host = trim_space r.target_host; target_port = r.target_port }
unfolding fill
fill-target r = refl

trim_nothing : trim_space [] ≡ []
unfolding trim_space trim_left trim_right
trim_nothing = refl

check-inr :
    (r : StartRequest) (t : TunnelType) (n : StartRequest)
    → check r t ≡ inr n
    → IsStartable n t
      × (n.type ≡ r.type)
      × ((n ≡ r)
          ⊎ ((t ≡ TunnelType.dynamic) × (n ≡ record r { target_host = []; target_port = pos 0 })))
unfolding check
check-inr r TunnelType.local n h = ground (arith, h)
check-inr r TunnelType.remote n h = ground (arith, h)
check-inr r TunnelType.dynamic n h = ground (arith, h)
check-inr r (TunnelType.other t) n h = ground (arith, h)

check-IsStartable : (n : StartRequest) (t : TunnelType) → IsStartable n t → check n t ≡ inr n
unfolding check
check-IsStartable n TunnelType.local h = ground (arith, h)
check-IsStartable n TunnelType.remote h = ground (arith, h)
check-IsStartable n TunnelType.dynamic (p, host, port) =
    port_valid ∙ ap inr (rw⁻¹ host (rw⁻¹ port refl))
  where
    port_valid :
        check n TunnelType.dynamic ≡ inr (record n { target_host = []; target_port = pos 0 })
    port_valid = ground (arith, p)
check-IsStartable n (TunnelType.other t) h = absurd h

-- What a filled request keeps, whatever target it is given.
kept :
    (r n : StartRequest) (host : Text) (port : ℤ)
    → trim_space host ≡ host
    → n ≡ record (fill r) { target_host = host; target_port = port }
    → (fill n ≡ n) × (n.server_id ≡ r.server_id) × (n.confirm_public_bind ≡ r.confirm_public_bind)
unfolding fill
kept r n host port h e = rw e (fill_idem r host port h, refl, refl)

normalized :
    (r n : StartRequest)
    → normalize_start_request r ≡ inr n
    → IsStartable n n.type
      × (normalize_start_request n ≡ inr n)
      × (n.server_id ≡ r.server_id)
      × (n.confirm_public_bind ≡ r.confirm_public_bind)
unfolding normalize_start_request
normalized r n h =
    let (valid, type, shape) = check-inr (fill r) r.type n h in
    let startable : IsStartable n n.type = rw (type ∙ fill-type r) valid in
    let facts : (fill n ≡ n)
        × (n.server_id ≡ r.server_id)
        × (n.confirm_public_bind ≡ r.confirm_public_bind) =
      elim shape [
        | inl e ↦
            kept r n (trim_space r.target_host) r.target_port (trim_space_idem r.target_host)
              (e ∙ fill-target r)
        | inr (_, e) ↦ kept r n [] (pos 0) trim_nothing e
      ] in
    let (again, server, confirm) = facts in
    (startable, rw again (check-IsStartable n n.type startable), server, confirm)

guarded :
    (public confirm : Bool) (m n : StartRequest)
    → (if public && not confirm then inl StartError.public_bind_requires_confirmation else inr m)
      ≡ inr n
    → (m ≡ n) × (public ≡ true → confirm ≡ true)
guarded public confirm m n h = ground (arith, h)

admitted :
    (x : StartError ⊎ StartRequest) (n : StartRequest)
    → (elim x [
      | inl e ↦ inl e
      | inr m ↦
          if requires_public_bind m && not m.confirm_public_bind
          then inl StartError.public_bind_requires_confirmation
          else inr m
    ])
      ≡ inr n
    → (x ≡ inr n) × (is_any_host (listen_host n) ≡ true → n.confirm_public_bind ≡ true)
unfolding requires_public_bind
admitted (inl e) n h = ground (arith, h)
admitted (inr m) n h =
    let (e, confirmed) = guarded (is_any_host (listen_host m)) m.confirm_public_bind m n h in
    (ap inr e, rw⁻¹ e confirmed)

-- The two ways to write the address that stands for every one.
pub IsEveryAddress : Text → Type 0
IsEveryAddress host = (host ≡ codes "0.0.0.0") ⊎ (host ≡ codes "::")

-- A tunnel listens at its host on the server where it is remote, and on this machine otherwise.
pub ListensEverywhere : StartRequest → TunnelType → Type 0
unfolding IsEveryAddress
ListensEverywhere r TunnelType.local = IsEveryAddress r.bind_host
ListensEverywhere r TunnelType.remote = IsEveryAddress r.remote_bind_host
ListensEverywhere r TunnelType.dynamic = IsEveryAddress r.bind_host
ListensEverywhere r (TunnelType.other _) = ⊥

any_host : (host : Text) → IsEveryAddress host → is_any_host host ≡ true
unfolding IsEveryAddress
any_host host (inl e) = ap is_any_host e
any_host host (inr e) = ap is_any_host e

bound_host : StartRequest → TunnelType → Text
bound_host r t = elim t [ TunnelType.remote ↦ r.remote_bind_host | _ ↦ r.bind_host ]

ListensEverywhere-listen_host :
    (r : StartRequest) (t : TunnelType)
    → r.type ≡ t
    → ListensEverywhere r t
    → is_any_host (listen_host r) ≡ true
unfolding ListensEverywhere bound_host
ListensEverywhere-listen_host r TunnelType.local e h =
    ap (λ t. is_any_host (bound_host r t)) e ∙ any_host r.bind_host h
ListensEverywhere-listen_host r TunnelType.remote e h =
    ap (λ t. is_any_host (bound_host r t)) e ∙ any_host r.remote_bind_host h
ListensEverywhere-listen_host r TunnelType.dynamic e h =
    ap (λ t. is_any_host (bound_host r t)) e ∙ any_host r.bind_host h
ListensEverywhere-listen_host r (TunnelType.other _) e h = absurd h

-- The request that a tunnel is made with is of a type that the program has, with valid ports and a
-- target where the type has one; it is for the connection; to normalise it again changes nothing;
-- and it listens at 0.0.0.0 or ::, written so, on the server for a remote tunnel and on this machine
-- for the others, only if the user has confirmed that.
pub admit_lem :
    (connection : ℤ) (r n : StartRequest)
    → admit connection r ≡ inr n
    → IsStartable n n.type
      × (n.server_id ≡ connection)
      × (normalize_start_request n ≡ inr n)
      × (ListensEverywhere n n.type → r.confirm_public_bind ≡ true)
unfolding admit
admit_lem connection r n h =
    let (e, confirmed) =
      admitted (normalize_start_request (record r { server_id = connection })) n h in
    let (startable, again, server, confirm) =
      normalized (record r { server_id = connection }) n e in
    (
      startable,
      server,
      again,
      λ a. sym confirm ∙ confirmed (ListensEverywhere-listen_host n n.type refl a),
    )
