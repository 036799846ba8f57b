-- ===== src/Tunnel/Tests.antt =====
-- Tunnels at concrete inputs.
use myapptest.Common.{
  ℕ, arith, some, List, pos, true, false, [], ◌∷◌, ◌≡◌, refl, inl, inr, codes, trim_space,
}
use myapptest.Tunnel.{TunnelType, StartRequest, StartError, admit, normalize_start_request}
use myapptest.Tunnel.Request.{IsStartable, ListensEverywhere, admit_lem}
use myapptest.Tunnel.Socks.{
  Address, Target, Outcome, read_full, read_port, read_socks_connect, handle_socks_conn,
  no_authentication, write_socks_reply,
}
use myapptest.Tunnel.Handshake.{encode, IsAddress, handle_socks_conn-encode}
use myapptest.Tunnel.Accepted.{IsBytes, read_socks_connect-some}

abbrev request : StartRequest
request = record {
  server_id = pos 0;
  profile_id = pos 0;
  type = TunnelType.dynamic;
  name = codes " ";
  bind_host = codes " 0.0.0.0 ";
  bind_port = pos 1080;
  target_host = codes "ignored";
  target_port = pos 9;
  remote_bind_host = [];
  remote_bind_port = pos 0;
  confirm_public_bind = true;
}

abbrev admitted_request : StartRequest
admitted_request = record request {
  server_id = pos 4;
  name = codes "动态 SOCKS5";
  bind_host = codes "0.0.0.0";
  target_host = [];
  target_port = pos 0;
  remote_bind_host = codes "127.0.0.1";
}

unconfirmed :
    admit (pos 4) (record request { confirm_public_bind = false })
    ≡ inl StartError.public_bind_requires_confirmation
unfolding admit trim_space
unconfirmed = refl

admitted : admit (pos 4) request ≡ inr admitted_request
unfolding admit trim_space
admitted = refl

admit_lem_example :
    IsStartable admitted_request TunnelType.dynamic
    × (pos 4 ≡ pos 4)
    × (normalize_start_request admitted_request ≡ inr admitted_request)
    × (ListensEverywhere admitted_request TunnelType.dynamic → true ≡ true)
admit_lem_example = admit_lem (pos 4) request admitted_request admitted

-- A connect to example.org:443 is greeted with the method 0, and followed by two more bytes.
abbrev example_org : Target
example_org = record { address = Address.domain (codes "example.org"); port = 443 }

abbrev sent : List ℕ
sent = encode (0 ∷ []) 0 example_org (22 ∷ 3 ∷ [])

accepted :
    (read_socks_connect true sent) ≡ (no_authentication ∷ [], some (example_org, 22 ∷ 3 ∷ []))
unfolding read_socks_connect read_full read_port
accepted = refl

not_a_connect :
    (read_socks_connect true (5 ∷ 0 ∷ 5 ∷ 2 ∷ 0 ∷ 1 ∷ [])).0
    ≡ no_authentication ∷ write_socks_reply 7 ∷ []
unfolding read_socks_connect read_full
not_a_connect = refl

handle_socks_conn-encode_example :
    handle_socks_conn true (λ _. true) sent
    ≡ (no_authentication ∷ write_socks_reply 0 ∷ [], Outcome.proxied example_org (22 ∷ 3 ∷ []))
handle_socks_conn-encode_example =
    handle_socks_conn-encode (λ _. true) (0 ∷ []) 0 example_org (22 ∷ 3 ∷ []) tt

sent-IsBytes : IsBytes sent
sent-IsBytes = ground arith

read_socks_connect-some_example :
    (true ≡ true)
    × IsAddress example_org.address
    × (methods : List ℕ) × (reserved : ℕ) × (sent
        ≡ encode methods reserved example_org (22 ∷ 3 ∷ []))
read_socks_connect-some_example =
    read_socks_connect-some true sent (no_authentication ∷ []) example_org (22 ∷ 3 ∷ [])
      sent-IsBytes accepted
