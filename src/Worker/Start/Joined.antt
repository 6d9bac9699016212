-- ===== src/Worker/Start/Joined.antt =====
-- `Join` of internal/worker/join.go, and then `Start` of start.go in the same directory.
use hambo.Base.{[], ok, err, Error, failure, ◌≡◌, ◌≢◌, refl, arith}
use hambo.Resources.{data_dir_lock, api_client, docker_client, after, hold, stopped}
use hambo.Resources.Balanced.{Balanced, quiet, hold-Balanced, after-Balanced}
use hambo.Client.Enrollment.{Crypto}
use hambo.Client.Connect.{Client, new_client}
use hambo.Worker.State.{State, Disk, no_file, file, load_state}
use hambo.Worker.Join.{JoinConfig, JoinResult, Run, join, completed, pending_state}
use hambo.Worker.Join.Outcome.{unchanged, begun, enrolled, was_complete, join-Outcome}
use hambo.Worker.Start.{
  StartCalls, lock_data_dir, check_joined, config_of, with_client, with_state, start,
}

module _ (calls : StartCalls) where
  with_client-Balanced : (c : Client) → Balanced (with_client calls c).0
  unfolding with_client
  with_client-Balanced c =
      hold-Balanced api_client [] (after calls.docker λ u. hold docker_client [] ([], calls.runs c))
        (after-Balanced calls.docker (λ u. hold docker_client [] ([], calls.runs c))
          λ u. hold-Balanced docker_client [] ([], calls.runs c) quiet)

  with_state-Balanced : (s : State) → Balanced (with_state calls s).0
  unfolding with_state
  with_state-Balanced s =
      after-Balanced (new_client calls.parse_url calls.appends calls.pairs (config_of s))
        (with_client calls) with_client-Balanced

  pub start-Balanced : (d : Disk) → Balanced (start calls d).0
  unfolding start
  start-Balanced d = after-Balanced (lock_data_dir calls.lock) _ λ u.
      hold-Balanced data_dir_lock []
        (after (load_state d) λ saved. after (check_joined saved) (with_state calls))
        (after-Balanced (load_state d) _
          λ saved. after-Balanced (check_joined saved) (with_state calls) with_state-Balanced)

  start_complete :
      (s : State)
      → lock_data_dir calls.lock ≡ ok tt
      → s.node_id ≢ ""
      → start calls (file s) ≡ hold data_dir_lock [] (with_state calls s)
  unfolding start after check_joined load_state
  start_complete s l n = ground arith

  start-pending :
      (s : State)
      → lock_data_dir calls.lock ≡ ok tt
      → s.node_id ≡ ""
      → start calls (file s)
        ≡ hold data_dir_lock []
            (stopped (failure "worker enrollment is incomplete: run hambo-worker join again"))
  unfolding start after check_joined load_state
  start-pending s l n = ground arith

  start-no_file :
      lock_data_dir calls.lock ≡ ok tt
      → start calls no_file
        ≡ hold data_dir_lock []
            (stopped (failure "worker has not joined: run hambo-worker join first"))
  unfolding start after check_joined load_state
  start-no_file l = ground arith

  module _ {X : Type 0} (crypto : Crypto X) where
    -- If a run of `Join` succeeds, then a `Start` in the same directory that gets its lock goes on,
    -- with the lock held, from a state that has the node ID that `Join` reported and the server of
    -- `Join`.
    pub join-start :
        (run : Run X) (cfg : JoinConfig) (d d' : Disk) (r : JoinResult)
        → join crypto run cfg d ≡ (ok r, d')
        → lock_data_dir calls.lock ≡ ok tt
        → (s : State) × (d' ≡ file s)
          × (s.node_id ≡ r.node_id)
          × (s.server_url ≡ cfg.server_url)
          × (start calls d' ≡ hold data_dir_lock [] (with_state calls s))
    unfolding completed
    join-start run cfg d d' r h l = elim (join-Outcome crypto run cfg d) [
      | unchanged e is ↦ absurd (ground arith)
      | begun e key csr t fresh made some_token parsed is ↦ absurd (ground arith)
      | enrolled s ca x n c same_url same_name before is ↦
          let s' = completed crypto ca x s in
          (s', ground arith, ground arith, ground arith, ground (arith, start_complete s' l n))
      | was_complete s e n k c ca same_url same_name is ↦
          (s, ground arith, ground arith, ground arith, ground (arith, start_complete s l n))
    ]

    pub join-start_refused :
        (run : Run X) (cfg : JoinConfig) (d' : Disk) (e : Error)
        → join crypto run cfg no_file ≡ (err e, d')
        → lock_data_dir calls.lock ≡ ok tt
        → (x : Error) × (start calls d' ≡ hold data_dir_lock [] (stopped x))
    join-start_refused run cfg d' e h l = elim (join-Outcome crypto run cfg no_file) [
      | unchanged y is ↦ (
        failure "worker has not joined: run hambo-worker join first",
        ground (arith, start-no_file l),
      )
      | begun y key csr t fresh made some_token parsed is ↦ (
        failure "worker enrollment is incomplete: run hambo-worker join again",
        ground (arith, start-pending (pending_state cfg key csr) l refl),
      )
      | enrolled s ca x n c same_url same_name before is ↦ absurd (ground arith)
      | was_complete s y n k c ca same_url same_name is ↦ absurd (ground arith)
    ]
