-- ===== src/Tests/Watchers.antt =====
-- The watchers of the nodes.
use hambo.Base.{List, [], ◌∷◌, dec_string}
use hambo.Watch.{NodeWatcher, new_node_watcher, channel_of, forget, watch, notify}
use hambo.Watch.Valid.{Call, watches, notifies, apply, run}

abbrev before : List Call
before = watches "a" ∷ notifies "a" ∷ watches "b" ∷ []

abbrev after : List Call
after = notifies "b" ∷ watches "a" ∷ notifies "a" ∷ []

watched : NodeWatcher
unfolding run apply watch notify channel_of forget dec_string
watched = (watch "a" (run before new_node_watcher)).1
