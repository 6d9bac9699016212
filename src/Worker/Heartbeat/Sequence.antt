-- ===== src/Worker/Heartbeat/Sequence.antt =====
-- The numbers of the reports that `runHeartbeat` of internal/worker/worker.go sends.
use hambo.Base.{
  ℕ, ◌+◌, ◌%◌, ◌^◌, ◌<◌, String, List, [], ◌∷◌, ◌++◌, ◌≡◌, ◌≢◌, refl, arith, nat_eq, Bool-cases,
  inl, inr, ◌⊎◌, sym, ◌∙◌, subst, ok, Error, failure, Result-cases,
}
use hambo.Api.Report.{ReportNodeStatusRequest}
use hambo.Client.{Exchange, do_call}
use hambo.Worker.Heartbeat.{
  Beat, Ending, stops, fails, goes_on, report_of, beat, run_heartbeat, begin_heartbeat, next_tick,
  after_report, after_call, after_failure,
}

-- Reports of one session that are numbered one by one from a number on, within 64 bits.
abbrev pub Numbered : String → ℕ → List ReportNodeStatusRequest → Type 0
Numbered session_id n [] = Unit {0}
Numbered session_id n (r ∷ rs) =
    (r.session_id ≡ session_id) × (r.sequence ≡ n) × (n < 2 ^ 64) × Numbered session_id (n + 1) rs

-- The round after a number has the next one, or 0 after the last.
after_report-goes_on : (n m : ℕ) (b : Beat) → after_report n b ≡ goes_on m → m ≡ (n + 1) % 2 ^ 64
unfolding after_report after_call after_failure next_tick
after_report-goes_on n m b h = ground (arith, h)

wrapped :
    (n : ℕ) → n < 2 ^ 64 → ((n + 1) % 2 ^ 64 ≡ 0) ⊎ (((n + 1) % 2 ^ 64 ≡ n + 1) × (n + 1 < 2 ^ 64))
wrapped n h = grind arith

module _ (session_id : String) where
  -- What is sent from an ending on: it is numbered from its number on, and nothing is sent from
  -- the 0 on that comes after the last.
  abbrev Follows : Ending → List ReportNodeStatusRequest → Type 0
  Follows stops rs = rs ≡ []
  Follows (fails e) rs = rs ≡ []
  Follows (goes_on n) rs = (n ≡ 0 → rs ≡ []) × (n < 2 ^ 64 → Numbered session_id n rs)

  none-Numbered : (n : ℕ) (rs : List ReportNodeStatusRequest) → rs ≡ [] → Numbered session_id n rs
  none-Numbered n rs e = subst (Numbered session_id n) (sym e) tt

  Follows-Numbered :
      (n : ℕ) (e : Ending) (later : List ReportNodeStatusRequest)
      → n < 2 ^ 64
      → ((m : ℕ) → e ≡ goes_on m → m ≡ (n + 1) % 2 ^ 64)
      → Follows e later
      → Numbered session_id (n + 1) later
  Follows-Numbered n stops later h next f = none-Numbered (n + 1) later f
  Follows-Numbered n (fails e) later h next f = none-Numbered (n + 1) later f
  Follows-Numbered n (goes_on m) later h next f = elim (wrapped n h) [
    | inl z ↦ none-Numbered (n + 1) later (f.0 (next m refl ∙ z))
    | inr (same, small) ↦
        subst (λ k. Numbered session_id k later) (next m refl ∙ same)
          (f.1 (omega (arith, next m refl, same, small)))
  ]

  -- A round sends nothing and ends the loop, or sends the report of its number.
  beat_cases :
      (n : ℕ) (b : Beat)
      → ((e : Error) × (beat session_id n b ≡ ([], fails e)))
        ⊎ ((n ≢ 0)
            × ((beat session_id n b ≡ ([], stops))
                ⊎ (beat session_id n b ≡ (report_of session_id n b ∷ [], after_report n b))))
  unfolding beat
  beat_cases n b = elim (Bool-cases (nat_eq n 0)) [
    | inl z ↦ inl (failure "node status sequence exhausted", rw z refl)
    | inr z ↦ elim (Bool-cases b.over_after_ping) [
      | inl o ↦ inr (ground arith, inl (rw (z, o) refl))
      | inr o ↦ inr (ground arith, inr (rw (z, o) refl))
    ]
  ]

  -- All that a round and the rest send, by what the round comes to.
  abbrev Sends : ℕ → List ReportNodeStatusRequest → List ReportNodeStatusRequest × Ending → Type 0
  Sends n later x = Follows x.1 later → Follows (goes_on n) (x.0 ++ later)

  beat-Sends :
      (n : ℕ) (b : Beat) (later : List ReportNodeStatusRequest)
      → Sends n later (beat session_id n b)
  beat-Sends n b later = elim (beat_cases n b) [
    | inl (e, is) ↦ subst (Sends n later) (sym is) (λ f. (λ z. f, λ h. none-Numbered n later f))
    | inr (nz, inl is) ↦
        subst (Sends n later) (sym is) (λ f. (λ z. f, λ h. none-Numbered n later f))
    | inr (nz, inr is) ↦ subst (Sends n later) (sym is) (λ f. (
      λ z. absurd (nz z),
      λ h. (
        refl,
        refl,
        h,
        Follows-Numbered n (after_report n b) later h (λ m. after_report-goes_on n m b) f,
      ),
    ))
  ]

  run_heartbeat-Follows :
      (ending : Ending) (bs : List Beat) → Follows ending (run_heartbeat session_id ending bs).0
  unfolding run_heartbeat
  run_heartbeat-Follows stops [] = refl
  run_heartbeat-Follows (fails e) [] = refl
  run_heartbeat-Follows (goes_on n) [] = (λ z. refl, λ h. tt)
  run_heartbeat-Follows stops (b ∷ bs) = refl
  run_heartbeat-Follows (fails e) (b ∷ bs) = refl
  run_heartbeat-Follows (goes_on n) (b ∷ bs) =
      beat-Sends n b (run_heartbeat session_id (beat session_id n b).1 bs).0
        (run_heartbeat-Follows (beat session_id n b).1 bs)

-- The reports that a worker's heartbeat sends, whatever its rounds meet, are all of the session
-- that was created, and are numbered 1, 2, 3 and so on within 64 bits: the number never wraps
-- around.
pub begin_heartbeat-Numbered :
    (session : Exchange String) (beats : List Beat) (sent : List ReportNodeStatusRequest)
    (ending : Ending)
    → begin_heartbeat session beats ≡ ok (sent, ending)
    → (session_id : String) × (do_call session ≡ ok session_id) × Numbered session_id 1 sent
unfolding begin_heartbeat
begin_heartbeat-Numbered session beats sent ending h = elim (Result-cases (do_call session)) [
  | inr (e, p) ↦ absurd (ground arith)
  | inl (session_id, p) ↦ (
    session_id,
    p,
    subst (Numbered session_id 1) (ground arith)
        ((run_heartbeat-Follows session_id (goes_on 1) beats).1 (omega arith)),
  )
]
