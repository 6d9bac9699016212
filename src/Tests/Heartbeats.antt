-- ===== src/Tests/Heartbeats.antt =====
-- The heartbeat of a worker.
use hambo.Base.{
  differ, String, true, false, [], ◌∷◌, ◌≡◌, refl, none, some, ok, errdef, conflict, dec_string,
  arith,
}
use hambo.Base.Text.{trim_space, is_space}
use hambo.Store.Memory.{find, erase, put}
use hambo.Store.Collection.{get_tx, update_tx}
use hambo.Api.Report.Handler.{report_handler}
use hambo.Api.Session.{renewed, session_tx}
use hambo.Client.{Exchange, do_call}
use hambo.Worker.Heartbeat.{Beat, fails, goes_on, report_of, beat, run_heartbeat, begin_heartbeat}
use hambo.Worker.Heartbeat.Sequence.{Numbered, begin_heartbeat-Numbered}
use hambo.Worker.Heartbeat.Superseded.{delivered, as_json, no_longer_current, session_tx-ends_beat}
use hambo.Tests.Fixtures.{Db, collections, collections-AreLawful, no_faults, node_named, busy_db}

abbrev created_session : Exchange String
created_session = record {
  made = true;
  sent = true;
  status = 201;
  failed = none;
  output = some "s1";
  cancelled = false;
  drained = true;
}

abbrev quiet_beat : Beat
quiet_beat = record {
  runtime_ready = true;
  over_after_ping = false;
  call = record {
    made = true;
    sent = true;
    status = 204;
    failed = none;
    output = some tt;
    cancelled = false;
    drained = true;
  };
  over_after_report = false;
  over_at_tick = false;
}

two_beats :
    begin_heartbeat created_session (quiet_beat ∷ quiet_beat ∷ [])
    ≡ ok (report_of "s1" 1 quiet_beat ∷ report_of "s1" 2 quiet_beat ∷ [], goes_on 3)
unfolding begin_heartbeat run_heartbeat beat do_call
two_beats = refl

begin_heartbeat-Numbered_example :
    (session_id : String) × (do_call created_session ≡ ok session_id)
    × Numbered session_id 1 (report_of "s1" 1 quiet_beat ∷ report_of "s1" 2 quiet_beat ∷ [])
begin_heartbeat-Numbered_example =
    begin_heartbeat-Numbered created_session (quiet_beat ∷ quiet_beat ∷ [])
      (report_of "s1" 1 quiet_beat ∷ report_of "s1" 2 quiet_beat ∷ []) (goes_on 3) two_beats

abbrev quoted : String → String
quoted s = s

abbrev session_db : Db
session_db = record busy_db {
  nodes = some (("a", renewed "s2" (node_named "a")) ∷ ("b", node_named "b") ∷ []);
}

session_db-reached : session_tx collections "a" "s2" busy_db ≡ ok (tt, session_db)
unfolding session_tx get_tx update_tx find put erase dec_string
session_db-reached = refl

refused_beat : Beat
refused_beat = record quiet_beat {
  call =
      delivered
        (report_handler quoted collections no_faults 110 (some "a")
          (as_json (report_of "s1" 5 quiet_beat)) session_db).0;
}

session_tx-ends_beat_example :
    beat "s1" 5 refused_beat
    ≡ (report_of "s1" 5 refused_beat ∷ [], fails (errdef conflict no_longer_current))
unfolding refused_beat
session_tx-ends_beat_example =
    session_tx-ends_beat quoted collections collections-AreLawful no_faults 110 "a" "s1" "s2" 5
      refused_beat busy_db session_db refl
      (differ (trim_space "s1") "" (unfold trim_space is_space dec_string in refl))
      (λ e. absurd (omega (arith, e))) (differ "s1" "s2" (unfold dec_string in refl))
      session_db-reached refl refl refl
