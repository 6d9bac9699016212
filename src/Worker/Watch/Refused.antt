-- ===== src/Worker/Watch/Refused.antt =====
-- The watch loop of internal/worker/worker.go against the server: internal/pki issues the node's
-- certificate, and internal/api checks it before each watch.
use hambo.Base.{
  Bool, not, ◌&&◌, ◌||◌, Kind, nat_eq, Option, none, some, unauthenticated, missing,
  invalid_argument, method_not_allowed, conflict, internal, unavailable, Option-cases, Bool-cases,
  failure, ℕ, String, true, false, ◌<>◌, List, [], ◌∷◌, ◌++◌, Result, err, Error, not_found, errdef,
  permission_denied, ◌≡◌, ◌≢◌, ◌⊎◌, inl, inr, refl, ap, ◌∙◌, arith, All, dec_string,
}
use hambo.Pki.{Ca, node_template}
use hambo.Pki.Identity.{cut_prefix-append}
use hambo.Model.Node.{Node}
use hambo.Api.Http.{ErrorResponse, Response, write_error_json, write_json}
use hambo.Api.Auth.{
  presented, Access, refused, granted, node_only, require_group, require_certificate, contains,
}
use hambo.Api.Routes.{Reached, dispatch, pass, find_route}
use hambo.Client.{
  Exchange, is_success, read_response_error, decode_response_error, error_from_status,
}
use hambo.Client.Connect
use hambo.Client.Connect.{open_stream_reader, Call, method_of, path_of}
use hambo.Worker.Heartbeat.Superseded.{delivered}
use hambo.Worker.Watch
use hambo.Worker.Watch.{
  Read, Reading, broken, over, open_still, read_on, read_all, is_refusal, WatchEnding, stops, fails,
  reconnects, reads_on, after_failure, after_reading, after_opening, watch_once, run_watch,
}

abbrev pub unregistered : Response
unregistered = write_error_json 403 "node is not registered"

dispatch-unregistered :
    (get : String → Result Node) (ca : Ca) (now : ℕ) (node_id : String)
    → node_id ≢ ""
    → get node_id ≡ err not_found
    → dispatch get (presented (node_template ca now node_id)) "GET" "/nodes/self/watch"
      ≡ refused unregistered
unfolding dispatch pass find_route node_only require_group require_certificate contains
    node_template dec_string
dispatch-unregistered get ca now node_id some_id gone =
    ground (arith, cut_prefix-append "hambo:node:" node_id)

delivered-unregistered :
    open_stream_reader (delivered unregistered)
    ≡ err (errdef permission_denied "node is not registered")
unfolding open_stream_reader read_response_error decode_response_error error_from_status
    write_error_json write_json
delivered-unregistered = refl

refused-ends :
    (c : Watch.Connection) (e : Error)
    → open_stream_reader c.opened ≡ err e
    → c.over_at_start ≡ false
    → c.over_after ≡ false
    → is_refusal e ≡ true
    → watch_once c ≡ fails e
unfolding watch_once after_opening after_failure
refused-ends c e h a b r = ground arith

abbrev pub answer_of : Access Reached → Response → Response
answer_of (refused r) otherwise = r
answer_of (granted reached) otherwise = otherwise

-- If a node that was issued a certificate is not registered any more, and the server's answer to
-- its next watch arrives as the server wrote it, while the worker's context is not over, then the
-- worker's watch loop ends with a permission error, without another connection.
pub run_watch-unregistered :
    (get : String → Result Node) (ca : Ca) (now : ℕ) (node_id : String) (c : Watch.Connection)
    (later : List Watch.Connection) (otherwise : Response)
    → node_id ≢ ""
    → get node_id ≡ err not_found
    → c.over_at_start ≡ false
    → c.over_after ≡ false
    → c.opened
      ≡ delivered (
          answer_of
            (dispatch get
              (presented (node_template ca now node_id))
              (method_of Connect.watch_node)
              ("/" <> path_of Connect.watch_node))
            otherwise)
    → run_watch (c ∷ later) ≡ fails (errdef permission_denied "node is not registered")
unfolding run_watch is_refusal method_of path_of
run_watch-unregistered get ca now node_id c later otherwise some_id gone start after call =
    let is =
      ap open_stream_reader (
        call
        ∙ ap (λ a. delivered (answer_of a otherwise))
            (dispatch-unregistered get ca now node_id some_id gone))
      ∙ delivered-unregistered in
    ground (
      arith,
      refused-ends c (errdef permission_denied "node is not registered") is start after refl,
    )

-- A status that does not say that the client may not watch.
abbrev pub can_pass : ℕ → Bool
can_pass code =
    not (is_success code) && not (nat_eq code 401) && not (nat_eq code 403) && not (nat_eq code 404)

-- An exchange that fails for a reason that can pass: nothing was sent, or the status of the answer
-- can pass.
abbrev pub is_passing : Exchange (Unit {0}) → Bool
is_passing x = not x.made || not x.sent || can_pass x.status

error_from_status-can_pass :
    (code : ℕ) (k : Kind) (message : String)
    → can_pass code ≡ true
    → error_from_status code ≡ some k
    → is_refusal (errdef k message) ≡ false
unfolding error_from_status is_refusal
error_from_status-can_pass code unauthenticated message p h = absurd (ground arith)
error_from_status-can_pass code permission_denied message p h = absurd (ground arith)
error_from_status-can_pass code missing message p h = absurd (ground arith)
error_from_status-can_pass code invalid_argument message p h = refl
error_from_status-can_pass code method_not_allowed message p h = refl
error_from_status-can_pass code conflict message p h = refl
error_from_status-can_pass code internal message p h = refl
error_from_status-can_pass code unavailable message p h = refl

-- An error that is no refusal.
abbrev Passes : Error → Type 0
Passes e = is_refusal e ≡ false

decode_response_error-Passes :
    (code : ℕ) (body : Option ErrorResponse)
    → can_pass code ≡ true
    → Passes (decode_response_error code body)
unfolding decode_response_error is_refusal
decode_response_error-Passes code none p = refl
decode_response_error-Passes code (some r) p = elim (Option-cases (error_from_status code)) [
  | inl none_is ↦ ground arith
  | inr (k, is) ↦ ground (arith, error_from_status-can_pass code k r.message p is)
]

open_stream_reader-Passes :
    (x : Exchange (Unit {0}))
    → is_passing x ≡ true
    → (e : Error) × (open_stream_reader x ≡ err e) × Passes e
unfolding open_stream_reader read_response_error is_refusal
open_stream_reader-Passes x p = elim (Bool-cases x.made) [
  | inr m ↦ (failure "create request", ground arith, refl)
  | inl m ↦ elim (Bool-cases x.sent) [
    | inr s ↦ (failure "send streaming request", ground arith, refl)
    | inl s ↦ (
      read_response_error x.status x.failed x.cancelled x.drained,
      ground arith,
      ground (arith, decode_response_error-Passes x.status x.failed (ground arith)),
    )
  ]
]

-- A connection that fails for a reason that can pass, or whose stream breaks.
pub record Passing (c : Watch.Connection) : Type 0 where
  pub fails_by :
      (is_passing c.opened ≡ true)
      ⊎ ((c.opened.made ≡ true)
          × (c.opened.sent ≡ true)
          × (is_success c.opened.status ≡ true)
          × (text : String) × (read_all c.reads ≡ broken (failure text)))
  pub at_start : c.over_at_start ≡ false
  pub after : c.over_after ≡ false
  pub after_delay : c.over_after_delay ≡ false

Passing-reconnects : (c : Watch.Connection) → Passing c → watch_once c ≡ reconnects
unfolding watch_once after_opening after_reading after_failure open_stream_reader is_refusal
Passing-reconnects c p = elim p.fails_by [
  | inl e ↦
      let x = open_stream_reader-Passes c.opened e in
      ground (arith, x.1, x.2, p.at_start, p.after, p.after_delay)
  | inr (m, s, is, text, b) ↦ ground (arith, p.at_start, p.after, p.after_delay)
]

-- After any number of connections that could not be made, or were answered with a status that is no
-- success and none of 401, 403 and 404, or whose streams broke, while the context is not over, the
-- watch loop goes on with the connections that follow as if it began with them.
pub run_watch-persists :
    (cs later : List Watch.Connection) → All Passing cs → run_watch (cs ++ later) ≡ run_watch later
unfolding run_watch
run_watch-persists [] later p = refl
run_watch-persists (c ∷ cs) later p =
    ground (arith, Passing-reconnects c p.0, run_watch-persists cs later p.1)
