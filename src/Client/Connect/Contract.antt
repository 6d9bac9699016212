-- ===== src/Client/Connect/Contract.antt =====
-- The calls of client against the routes of internal/api.
use hambo.Base.{
  String, Bool, false, ◌<>◌, Option, some, ok, ◌≡◌, ◌≢◌, refl, dec_string, arith, Option-cases,
  Result-cases, inl, inr,
}
use hambo.Api.Routes
use hambo.Api.Routes.{Route, Guard, unguarded, certified, admins, nodes, find_route, routes}
use hambo.Client.Connect.{
  Url, Config, Client, Call, fetch_ca, join_node, health, create_node_session, report_node_status,
  watch_node, create_token, create_container, method_of, path_of, parse_server_url, check_url,
  new_client,
}

-- Which handler a call is meant for, and who may make it.
abbrev pub meant_for : Call → Routes.Handler × Guard
meant_for fetch_ca = (Routes.get_ca, unguarded)
meant_for join_node = (Routes.join_node, unguarded)
meant_for health = (Routes.health, certified)
meant_for create_node_session = (Routes.create_node_session, nodes)
meant_for report_node_status = (Routes.report_node_status, nodes)
meant_for watch_node = (Routes.watch_node, nodes)
meant_for create_token = (Routes.create_token, admins)
meant_for create_container = (Routes.create_container, admins)

pub find_route-Call :
    (call : Call)
    → ((find_route (method_of call) ("/" <> path_of call) routes).handler ≡ (meant_for call).0)
      × ((find_route (method_of call) ("/" <> path_of call) routes).guard ≡ (meant_for call).1)
unfolding find_route method_of path_of dec_string
find_route-Call fetch_ca = (refl, refl)
find_route-Call join_node = (refl, refl)
find_route-Call health = (refl, refl)
find_route-Call create_node_session = (refl, refl)
find_route-Call report_node_status = (refl, refl)
find_route-Call watch_node = (refl, refl)
find_route-Call create_token = (refl, refl)
find_route-Call create_container = (refl, refl)

check_url_inv :
    (u v : Url)
    → check_url u ≡ ok v
    → (v ≡ u) × (u.scheme ≡ "https") × (u.hostname ≢ "") × (u.has_user ≡ false)
unfolding check_url
check_url_inv u v h = ground arith

-- Every client speaks HTTPS with a named host, and sends no password of its URL.
pub new_client-https :
    (parse : String → Option Url) (appends : String → Bool) (pairs : String → String → Bool)
    (cfg : Config) (c : Client)
    → new_client parse appends pairs cfg ≡ ok c
    → (parse cfg.server_url ≡ some c.base_url)
      × (c.base_url.scheme ≡ "https")
      × (c.base_url.hostname ≢ "")
      × (c.base_url.has_user ≡ false)
      × (c.root_cas ≡ cfg.ca_cert_pem)
      × (c.certificate ≡ (cfg.client_cert_pem, cfg.client_key_pem))
unfolding new_client parse_server_url
new_client-https parse appends pairs cfg c h = elim (Option-cases (parse cfg.server_url)) [
  | inl e ↦ absurd (ground arith)
  | inr (u, e) ↦ elim (Result-cases (check_url u)) [
    | inr (x, p) ↦ absurd (ground arith)
    | inl (v, p) ↦ ground (arith, check_url_inv u v p)
  ]
]
