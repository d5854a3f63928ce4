-- ===== src/Api/Confidential.antt =====
-- What the replies of src/g_one/api.py depend on.
use project_g_one.Models.{VpnNetwork}
use project_g_one.Api.Deployments.{list_client_deployments}
use project_g_one.Api.Support.{list_support_requests}
use project_g_one.Api.Devices.{list_devices}
use project_g_one.Api.Files.{list_file_servers}
use project_g_one.Api.Vpn.{list_vpn_peers, read_vpn_network, get_vpn_network, network_response}
use project_g_one.Api.Roles.{list_audit_events, list_roles}
use project_g_one.Api.Tokens.{list_tokens}
use mathlib.Core.Path.{fun_ext}
use project_g_one.Prelude.{
  ◌≡◌, refl, sym, ap, ◌∙◌, String, Bool, true, false, List, [], ◌∷◌, map, where_true, find_first,
  sort_by, map-sort_by, take, any, ◌&&◌, ◌||◌, ◌==◌, arith, Bool-cases, inl, inr, ltb, Option, none,
  some,
}
use project_g_one.Outside.{Outside}
use project_g_one.Settings.{Settings}
use project_g_one.Auth.{Principal, is_disjoint, require_role, has_role}
use project_g_one.Models.Tables.{Kind, RowOf, Database, tenant_of}
use project_g_one.Session.{
  Handler, ◌>>◌, returned, raise_if, run_request, start, ◌>>=◌, pure, select_all, select_or, World,
  lift, Failure, or_raise, http,
}
use project_g_one.Api.Replies.{read_user, read_token, read_event, read_peer, read_file_server}
use project_g_one.Api.Queries.{
  ready, Query, Reply, users_reply, answer, replied, tokens_reply, audit_events_reply, peers_reply,
  file_servers_reply, network_reply,
}
use project_g_one.Api.Users.{list_users}
use project_g_one.Api.Visible.{visible, conceal, where_true-visible, find_first-visible}

module _ {A : Type 0} where
  map_same : (c : A → A) → ((x : A) → c x ≡ x) → (xs : List A) → map c xs ≡ xs
  map_same c same [] = refl
  map_same c same (x ∷ xs) = rw (same x, map_same c same xs) refl

module _ {A B : Type 0} where
  map-map_same :
      (f : A → B) (c : A → A)
      → ((x : A) → f (c x) ≡ f x)
      → (xs : List A) → map f (map c xs) ≡ map f xs
  map-map_same f c same [] = refl
  map-map_same f c same (x ∷ xs) = rw (same x, map-map_same f c same xs) refl

  shown :
      (test own : A → Bool) (before : A → A → Bool) (f : A → B) (c : A → A)
      → ((x : A) → test (c x) ≡ test x)
      → ((x : A) → test x ≡ true → own x ≡ true)
      → ((x y : A) → before (c x) (c y) ≡ before x y)
      → ((x : A) → f (c x) ≡ f x)
      → (xs : List A)
      → map f (sort_by before (where_true test (map c (where_true own xs))))
        ≡ map f (sort_by before (where_true test xs))
  shown test own before f c same mine order keep xs =
      ap (λ ys. map f (sort_by before ys)) (where_true-visible test own c same mine xs)
      ∙ ap (map f) (sym (map-sort_by before c order (where_true test xs)))
      ∙ map-map_same f c keep (sort_by before (where_true test xs))

first_of_both : (b c : Bool) → (b && c) ≡ true → b ≡ true
first_of_both true c h = refl
first_of_both false c h = h

module _ {A : Type 0} where
  -- A query that asks for a role first replies alike where the rest does.
  after_role :
      (p : Principal) (roles : List String) (f : A → Reply) (m : Handler A) (db db' : Database)
      → (run_request (replied f m) db).0 ≡ (run_request (replied f m) db').0
      → (run_request (replied f (require_role p roles >> m)) db).0
        ≡ (run_request (replied f (require_role p roles >> m)) db').0
  unfolding run_request start replied require_role raise_if ◌>>=◌ pure
  after_role p roles f m db db' h = elim (Bool-cases (is_disjoint p.roles roles)) [
    | inl e ↦ rw e refl
    | inr e ↦ rw e h
  ]

module _ (o : Outside) (settings : Settings) (p : Principal) (db : Database) where
  abbrev Alike : Query → Type 0
  Alike q =
      (run_request (answer o settings p q) (visible p.tenant_id db)).0
      ≡ (run_request (answer o settings p q) db).0

  -- Rows without a secret are found as they are.
  same_rows :
      (k : Kind) (test : RowOf k → Bool)
      → ((r : RowOf k) → conceal k r ≡ r)
      → ((r : RowOf k) → test r ≡ true → (tenant_of k r == p.tenant_id) ≡ true)
      → where_true test ((visible p.tenant_id db).rows k) ≡ where_true test (db.rows k)
  same_rows k test same mine =
      where_true-visible test (λ r. tenant_of k r == p.tenant_id) (conceal k)
        (λ r. ap test (same r)) mine (db.rows k)
      ∙ map_same (conceal k) same (where_true test (db.rows k))

  users-Alike : Alike Query.users
  unfolding answer list_users run_request start replied ◌>>=◌ pure select_all
  users-Alike = after_role p ("tenant_admin" ∷ []) _ _ _ _ (
      ap (λ found. returned (users_reply found))
        (shown (λ u. u.tenant_id == p.tenant_id) (λ u. u.tenant_id == p.tenant_id)
          (λ a b. ltb a.created_at b.created_at) read_user (conceal Kind.users) (λ u. refl)
          (λ u h. h) (λ a b. refl) (λ u. refl) (db.rows Kind.users)))

  tokens-Alike : Alike Query.tokens
  unfolding answer list_tokens run_request start replied ◌>>=◌ pure select_all
  tokens-Alike = after_role p ("tenant_admin" ∷ []) _ _ _ _ (
      ap (λ found. returned (tokens_reply found))
        (shown (λ t. t.tenant_id == p.tenant_id) (λ t. t.tenant_id == p.tenant_id)
          (λ a b. ltb b.created_at a.created_at) read_token (conceal Kind.api_tokens) (λ t. refl)
          (λ t h. h) (λ a b. refl) (λ t. refl) (db.rows Kind.api_tokens)))

  audit_events-Alike : Alike Query.audit_events
  unfolding answer list_audit_events run_request start replied ◌>>=◌ pure select_all
  audit_events-Alike = after_role p ("tenant_admin" ∷ "auditor" ∷ []) _ _ _ _ (
      ap
        (λ found. returned (
          audit_events_reply
            (map read_event (take 200 (sort_by (λ a b. ltb b.occurred_at a.occurred_at) found)))))
        (same_rows Kind.audit_events (λ e. e.tenant_id == p.tenant_id) (λ e. refl) (λ e h. h)))

  vpn_peers-Alike : Alike Query.vpn_peers
  unfolding answer list_vpn_peers run_request start replied ◌>>=◌ pure select_all
  vpn_peers-Alike = after_role p ("tenant_admin" ∷ "support" ∷ []) _ _ _ _ (
      ap
        (λ found.
          returned
            (peers_reply (map read_peer (sort_by (λ a b. ltb a.created_at b.created_at) found))))
        (same_rows Kind.peers (λ q. q.tenant_id == p.tenant_id) (λ q. refl) (λ q h. h)))

  file_servers-Alike : Alike Query.file_servers
  unfolding answer list_file_servers run_request start replied ◌>>=◌ pure select_all
  file_servers-Alike = after_role p ("tenant_admin" ∷ []) _ _ _ _ (
      ap
        (λ found. returned (
          file_servers_reply
            (map read_file_server (sort_by (λ a b. o.name_before a.name b.name) found))))
        (same_rows Kind.file_servers (λ s. s.tenant_id == p.tenant_id && s.enabled) (λ s. refl)
          (λ s h. first_of_both _ _ h)))

  client_deployments-Alike : Alike Query.client_deployments
  unfolding answer list_client_deployments run_request start replied ◌>>=◌ pure select_all
  client_deployments-Alike =
      rw
        (same_rows Kind.profiles (λ c. c.tenant_id == p.tenant_id && c.enabled) (λ c. refl)
          (λ c h. first_of_both _ _ h))
        refl

  devices-Alike : Alike Query.devices
  unfolding answer list_devices run_request start replied ◌>>=◌ pure select_all
  devices-Alike =
      rw
        (same_rows Kind.devices
          (λ d.
            d.tenant_id == p.tenant_id
            && (has_role p "tenant_admin" || has_role p "support" || d.owner_id == p.subject))
          (λ d. refl) (λ d h. first_of_both _ _ h))
        refl

  support_requests-Alike : Alike Query.support_requests
  unfolding answer list_support_requests run_request start replied ◌>>=◌ pure select_all
  support_requests-Alike =
      let owned : RowOf Kind.devices → Bool =
        λ d. d.tenant_id == p.tenant_id && d.owner_id == p.subject in
      rw
        (
          same_rows Kind.devices owned (λ d. refl) (λ d h. first_of_both _ _ h),
          same_rows Kind.support_requests
              (λ r.
                r.tenant_id == p.tenant_id
                && (has_role p "tenant_admin"
                    || has_role p "support"
                    || any (λ d. r.target_device_id == d.id)
                        (where_true owned (db.rows Kind.devices))))
              (λ r. refl) (λ r h. first_of_both _ _ h),
        )
        refl

  network_response_alike :
      (n : VpnNetwork) (w w' : World)
      → (replied network_reply (network_response o settings n) w).0
        ≡ (replied network_reply (network_response o settings n) w').0
  unfolding replied network_response ◌>>=◌ pure lift
  network_response_alike n w w' = ground (arith)

  network_found_alike :
      (e : Failure) (found : Option VpnNetwork) (w w' : World)
      → (replied network_reply (lift (or_raise e found) >>= network_response o settings) w).0
        ≡ (replied network_reply (lift (or_raise e found) >>= network_response o settings) w').0
  unfolding replied ◌>>=◌ pure lift
  network_found_alike e none w w' = refl
  network_found_alike e (some n) w w' = network_response_alike n w w'

  vpn_network-Alike : Alike Query.vpn_network
  unfolding answer read_vpn_network get_vpn_network run_request start replied ◌>>=◌ pure lift
      select_or
  vpn_network-Alike =
      rw
        (find_first-visible (λ n. n.tenant_id == p.tenant_id) (λ n. n.tenant_id == p.tenant_id)
          (conceal Kind.networks) (λ n. refl) (λ n h. h) (λ n. refl) (db.rows Kind.networks))
        (network_found_alike (http 404 "VPN network not configured")
          (find_first (λ n. n.tenant_id == p.tenant_id) (db.rows Kind.networks))
          (start (visible p.tenant_id db)) (start db))

  answer-Alike : (q : Query) → Alike q
  unfolding answer run_request start pure replied list_roles ready ◌>>=◌
  answer-Alike Query.me = refl
  answer-Alike Query.roles = after_role p ("tenant_admin" ∷ []) _ _ _ _ refl
  answer-Alike Query.users = users-Alike
  answer-Alike Query.tokens = tokens-Alike
  answer-Alike Query.devices = devices-Alike
  answer-Alike Query.support_requests = support_requests-Alike
  answer-Alike Query.audit_events = audit_events-Alike
  answer-Alike Query.file_servers = file_servers-Alike
  answer-Alike Query.client_deployments = client_deployments-Alike
  answer-Alike Query.vpn_network = vpn_network-Alike
  answer-Alike Query.vpn_peers = vpn_peers-Alike
  answer-Alike Query.healthz = refl
  answer-Alike Query.readyz = refl

-- What a principal is told by a route that only reads is the same on two databases that agree on the
-- rows of its tenant, up to the hashes of passwords and tokens, whatever else they hold.
pub answer-visible :
    (o : Outside) (settings : Settings) (p : Principal) (q : Query) (db db' : Database)
    → ((k : Kind) → (visible p.tenant_id db).rows k ≡ (visible p.tenant_id db').rows k)
    → (run_request (answer o settings p q) db).0 ≡ (run_request (answer o settings p q) db').0
answer-visible o settings p q db db' same =
    sym (answer-Alike o settings p db q)
    ∙ ap
        (λ rows.
          (run_request (answer o settings p q) (record { rows = rows; initialized = none })).0)
        (fun_ext same)
    ∙ answer-Alike o settings p db' q
