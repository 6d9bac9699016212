-- ===== src/Tests/Workers.antt =====
-- A worker that enrolls in two runs.
use hambo.Base.{
  differ, ℕ, String, true, false, List, [], ◌∷◌, ◌≡◌, ◌≢◌, ◌⊎◌, inl, refl, none, some, ok, err,
  Error, failure, dec_string, arith,
}
use hambo.Base.Text.{trim_space, is_space, split_dots, prepend}
use hambo.Token.{Token, parse, ca_fingerprint}
use hambo.Client.Enrollment.{Crypto, CaReply, JoinReply, decoded, fetch_and_verify_ca, join_node}
use hambo.Worker.State.{State, Disk, no_file, file, load_state, save_state}
use hambo.Worker.Join.{JoinConfig, Run, pending_state, completed, enroll, join}
use hambo.Worker.Join.Resume.{IsSound, fresh, MakesKeys, join-IsSound, join-again, join-resumes}
use hambo.Api.Join.{join_tx}
use hambo.Api.Join.Handler.{answer}
use hambo.Worker.Join.{request_of}
use hambo.Worker.Join.Resume.{IsPending}
use hambo.Worker.Join.ExactlyOnce.{arrived, result_of, join-join_tx}
use hambo.Tests.Joins.{issue, answered, joined_db, joined_db-reached, unused}
use hambo.Tests.Fixtures.{collections, collections-AreLawful, busy_db, unused_token}

abbrev pub bytes : List ℕ
bytes =
    1 ∷ 2 ∷ 3 ∷ 4 ∷ 5 ∷ 6 ∷ 7 ∷ 8 ∷ 9 ∷ 10 ∷ 11 ∷ 12 ∷ 13 ∷ 14 ∷ 15 ∷ 16 ∷ 17 ∷ 18 ∷ 19 ∷ 20 ∷ 21
    ∷ 22 ∷ 23 ∷ 24 ∷ 25 ∷ 26 ∷ 27 ∷ 28 ∷ 29 ∷ 30 ∷ 31 ∷ 32 ∷ []

-- A certificate is its bytes, and all fingerprints are one.
abbrev pub crypto : Crypto (List ℕ)
crypto = record {
  pem_decode = λ b. some ("CERTIFICATE", b);
  parse_certificate = λ b. some b;
  raw = λ c. c;
  encode = λ b. "fp";
  decode = λ s. some bytes;
  sha256 = λ b. b;
  pem = λ c. "PEM";
  pairs = λ c k. true;
}

abbrev pub cfg : JoinConfig
cfg = record { server_url = "https://server"; token = "fp.secret"; name = "worker" }

abbrev without_token : JoinConfig
without_token = record cfg { token = "" }

abbrev pub ca_reply : CaReply
ca_reply = record { made = true; sent = true; status = 200; body = some (7 ∷ []) }

abbrev pub joined : JoinReply
joined = record {
  encoded = true;
  made = true;
  sent = true;
  status = 201;
  failed = none;
  cancelled = false;
  drained = true;
  body = decoded (record { node_id = "n"; certificate = "cert" });
}

abbrev pub good_run : Run (List ℕ)
good_run = record {
  locks = true;
  key_and_csr = ok ("key", 1 ∷ []);
  first_save = true;
  last_save = true;
  ca_reply = ca_reply;
  join_reply = λ ca secret request. joined;
}

-- The server is not reached.
abbrev lost_run : Run (List ℕ)
lost_run = record good_run { ca_reply = record ca_reply { sent = false } }

good_run-MakesKeys : MakesKeys crypto good_run
good_run-MakesKeys key csr e =
    (λ k. differ "key" "" (unfold dec_string in refl) (ground arith), ground arith)

lost_run-MakesKeys : MakesKeys crypto lost_run
lost_run-MakesKeys key csr e =
    (λ k. differ "key" "" (unfold dec_string in refl) (ground arith), ground arith)

prints : (ca : List ℕ) → crypto.pem ca ≢ ""
prints ca = differ "PEM" "" (unfold dec_string in refl)

abbrev pending_file : State
pending_file = pending_state cfg "key" (1 ∷ [])

pub completed_file : Disk
unfolding completed
completed_file =
    file (completed crypto (7 ∷ []) (record { node_id = "n"; certificate = "cert" }) pending_file)

pub joins :
    join crypto good_run cfg no_file
    ≡ (ok (record { node_id = "n"; already_configured = false }), completed_file)
unfolding completed_file join load_state save_state enroll trim_space is_space parse split_dots
    prepend fetch_and_verify_ca join_node ca_fingerprint dec_string
joins = refl

is_lost : (e : Error) × (join crypto lost_run cfg no_file ≡ (err e, file pending_file))
unfolding join load_state save_state enroll trim_space is_space parse split_dots prepend
    fetch_and_verify_ca dec_string
is_lost = (failure "fetch CA certificate", refl)

join-IsSound_example : IsSound (join crypto good_run cfg no_file).1
join-IsSound_example = join-IsSound crypto good_run cfg no_file good_run-MakesKeys prints fresh

join-again_example :
    join crypto good_run without_token completed_file
    ≡ (ok (record { node_id = "n"; already_configured = true }), completed_file)
join-again_example =
    join-again crypto good_run good_run cfg without_token no_file completed_file
      (record { node_id = "n"; already_configured = false }) good_run-MakesKeys prints fresh joins
      refl refl refl

join-resumes_example :
    (file pending_file ≡ no_file)
    ⊎ ((key : String) × (csr : List ℕ) × (t : Token) × (lost_run.key_and_csr ≡ ok (key, csr))
        × (parse crypto.decode cfg.token ≡ ok t)
        × (join crypto good_run without_token (file pending_file)
            ≡ enroll crypto good_run
                (pending_state cfg key csr)
                t
                (file (pending_state cfg key csr))))
join-resumes_example =
    join-resumes crypto lost_run good_run cfg without_token (file pending_file) is_lost.0
      lost_run-MakesKeys is_lost.1 refl refl refl (inl refl)

-- The first answer was lost; the second run has the server's answer.
again : Run (List ℕ)
again = record good_run {
  join_reply = λ ca secret request. arrived (
      answer (
        result_of (join_tx collections issue 120 "k" "h" "r" (request_of pending_file) joined_db)));
}

pending_file-IsPending : IsPending pending_file
unfolding dec_string
pending_file-IsPending = record {
  no_node = refl;
  no_ca = refl;
  no_certificate = refl;
  some_token = differ "fp.secret" "" refl;
  some_key = differ "key" "" refl;
  some_csr = refl;
}

join-join_tx_example :
    (join crypto again without_token (file pending_file) ≡ (
      ok (record { node_id = "n"; already_configured = false }),
      file (completed crypto (7 ∷ []) answered.response pending_file),
    ))
    × (join_tx collections issue 120 "k" "h" "r" (request_of pending_file) joined_db
        ≡ ok (record { status_code = 200; response = answered.response }, joined_db))
unfolding again parse split_dots prepend fetch_and_verify_ca ca_fingerprint dec_string
join-join_tx_example =
    join-join_tx crypto collections issue collections-AreLawful 110 120 "n" "k" "h" "r" answered
      busy_db joined_db unused_token again without_token pending_file
      (record { ca_fingerprint = "fp"; secret = "secret" }) (7 ∷ []) unused (omega arith)
      joined_db-reached pending_file-IsPending refl refl (inl refl) refl (differ "secret" "" refl)
      (differ "n" "" refl) (differ "cert" "" refl) refl refl refl refl refl
