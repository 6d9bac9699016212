-- ===== src/Tests/Watching.antt =====
-- Workers that watch and that start, and the calls of the client.
use hambo.Base.{
  String, true, false, [], ◌∷◌, ◌<>◌, ◌++◌, some, Result, ok, err, not_found, errdef,
  permission_denied, failure, ◌≡◌, refl, inl, inr, differ, dec_string,
}
use hambo.Model.Node.{Node}
use hambo.Pki.{Ca, node_template}
use hambo.Api.Http.{Response, write_error_json}
use hambo.Api.Routes.{dispatch}
use hambo.Client.Connect.{Url, check_url, create_container, method_of, path_of, open_stream_reader}
use hambo.Client.Connect
use hambo.Resources.{hold, data_dir_lock}
use hambo.Worker.Heartbeat.Superseded.{delivered}
use hambo.Worker.State.{State, file, no_file}
use hambo.Worker.Start.{flocked, StartCalls, lock_data_dir, with_state, start}
use hambo.Worker.Start.Joined.{join-start}
use hambo.Worker.Watch
use hambo.Worker.Watch.{Read, read_all, run_watch, fails, is_refusal}
use hambo.Api.Auth.{presented}
use hambo.Worker.Watch.Refused.{answer_of, run_watch-unregistered, Passing, run_watch-persists}
use hambo.Tests.Workers.{crypto, good_run, cfg, completed_file, joins}

abbrev ca : Ca
ca = record { not_before = 0; not_after = 1000 }

abbrev get : String → Result Node
get node_id = err not_found

abbrev otherwise : Response
otherwise = write_error_json 500 "unused"

abbrev refused_watch : Watch.Connection
refused_watch = record {
  over_at_start = false;
  opened = delivered (
      answer_of
        (dispatch get (presented (node_template ca 5 "n1")) (method_of Connect.watch_node)
          ("/" <> path_of Connect.watch_node))
        otherwise);
  reads = [];
  over_after = false;
  over_after_delay = false;
}

run_watch-unregistered_example :
    run_watch (refused_watch ∷ []) ≡ fails (errdef permission_denied "node is not registered")
run_watch-unregistered_example =
    run_watch-unregistered get ca 5 "n1" refused_watch [] otherwise
      (differ "n1" "" (unfold dec_string in refl)) refl refl refl refl

-- The server is not reached, and then the stream breaks.
abbrev lost : Watch.Connection
lost = record refused_watch { opened = record (delivered otherwise) { sent = false } }

lost-Passing : Passing lost
lost-Passing = record { fails_by = inl refl; at_start = refl; after = refl; after_delay = refl }

-- The server answers that it failed.
abbrev failing : Watch.Connection
failing = record refused_watch { opened = record (delivered otherwise) { status = 500 } }

failing-Passing : Passing failing
failing-Passing = record { fails_by = inl refl; at_start = refl; after = refl; after_delay = refl }

abbrev broken_stream : Watch.Connection
broken_stream = record refused_watch {
  opened = record (delivered otherwise) { status = 200 };
  reads =
      record { result = ok tt; over_after = false }
      ∷ record { result = err (failure "unexpected EOF"); over_after = false }
      ∷ [];
}

broken_stream-Passing : Passing broken_stream
unfolding read_all
broken_stream-Passing = record {
  fails_by = inr (refl, refl, refl, "unexpected EOF", refl);
  at_start = refl;
  after = refl;
  after_delay = refl;
}

run_watch-persists_example :
    run_watch ((lost ∷ failing ∷ broken_stream ∷ []) ++ refused_watch ∷ [])
    ≡ run_watch (refused_watch ∷ [])
run_watch-persists_example =
    run_watch-persists (lost ∷ failing ∷ broken_stream ∷ []) (refused_watch ∷ [])
      (lost-Passing, (failing-Passing, (broken_stream-Passing, tt)))

abbrev url : Url
url = record { scheme = "https"; hostname = "server"; has_user = false; text = "https://server" }

abbrev start_calls : StartCalls
start_calls = record {
  lock = record { makes_dir = true; opens = true; flock = flocked };
  parse_url = λ s. some url;
  appends = λ s. true;
  pairs = λ c k. true;
  docker = ok tt;
  runs = λ c. [];
}

lock_works : lock_data_dir start_calls.lock ≡ ok tt
unfolding lock_data_dir
lock_works = refl

join-start_example :
    (s : State) × (completed_file ≡ file s)
    × (s.node_id ≡ "n")
    × (s.server_url ≡ cfg.server_url)
    × (start start_calls completed_file ≡ hold data_dir_lock [] (with_state start_calls s))
join-start_example =
    join-start start_calls crypto good_run cfg no_file completed_file
      (record { node_id = "n"; already_configured = false }) joins lock_works
