-- ===== src/Sync/Poll/Kept.antt =====
-- A round of the polling fallback of src/sync.rs reports a local edit before it pulls.
use propmonitor.Base.{
  ℕ, ◌==◌, ==→eq, le→leb, ◌≤◌, true, if◌then◌else◌, some, [], ◌∷◌, ◌++◌, append_assoc, ok, ◌≡◌,
  refl, ap, ap₂, ◌∙◌, Bool-cases, inl, inr, arith,
}
use propmonitor.Float.{Float}
use propmonitor.Config.{MicrowavepropConfig}
use propmonitor.App.{
  App, Outcome, set_version, write_config_file, persist_in, persist_found, persist_config_version,
}
use propmonitor.Sync.{SyncConfig, applied_version, decide_push, stale, report_body}
use propmonitor.Sync.Report.{acked}
use propmonitor.Sync.Push.{push_as, apply_push_read, apply_push}
use propmonitor.Sync.Session.{status_body}
use propmonitor.Sync.Poll.{
  Reply, no_reply, replied, accept, post_config, get_config, put_status, Round, Polling,
  record_version, reported, poll_report, pulled, pull_reply, poll_config, poll_status, poll_cycle,
}

module _ (fl : Float) where
  open fl use {F}

  persist_in-config :
      (out : Outcome) (app : App F) (mw : MicrowavepropConfig) (version : ℕ)
      → app.config.microwaveprop ≡ some mw
      → (persist_in fl out app mw version).0.config ≡ set_version app.config mw version
  unfolding persist_in write_config_file
  persist_in-config out app mw version e = elim (Bool-cases (mw.config_version == version)) [
    | inl known ↦ rw known (
        ap (λ o. record app.config { microwaveprop = o }) e
        ∙ ap (set_version app.config mw) (==→eq mw.config_version version known))
    | inr newer ↦ rw newer (elim (Bool-cases out.write_ok) [
      | inl written ↦ rw written refl
      | inr failed ↦ rw failed refl
    ])
  ]

  record_version-config :
      (out : Outcome) (app : App F) (mw : MicrowavepropConfig) (version : ℕ)
      → app.config.microwaveprop ≡ some mw
      → (record_version fl out app version).config ≡ set_version app.config mw version
  unfolding record_version persist_config_version persist_found
  record_version-config out app mw version e =
      ap (λ o. (persist_found fl out app o version).0.config) e
      ∙ persist_in-config out app mw version e

  apply_push-stale :
      (out : Outcome) (app : App F) (version : ℕ) (pushed : SyncConfig F)
      → version ≤ applied_version app.config
      → apply_push fl out app version pushed ≡ (app, ok stale)
  unfolding apply_push apply_push_read decide_push push_as
  apply_push-stale out app version pushed h =
      rw (le→leb version (applied_version app.config) h) refl

  pulled-stale :
      (out : Outcome) (app : App F) (version : ℕ) (pushed : SyncConfig F)
      → version ≤ applied_version app.config
      → (pulled fl out app (ok (version, pushed))).0 ≡ app
  unfolding pulled
  pulled-stale out app version pushed h = ap (λ r. r.0) (apply_push-stale out app version pushed h)

  pull_reply-stale :
      (out : Outcome) (app : App F) (reply : Reply (ℕ × SyncConfig F)) (version : ℕ)
      (pushed : SyncConfig F)
      → accept reply ≡ ok (version, pushed)
      → version ≤ applied_version app.config
      → (pull_reply fl out app reply).0 ≡ app
  unfolding pull_reply
  pull_reply-stale out app (no_reply e) version pushed h k =
      ap (λ r. (pulled fl out app r).0) h ∙ pulled-stale out app version pushed k
  pull_reply-stale out app (replied status body) version pushed h k =
      elim (Bool-cases (status == 304)) [
        | inl known ↦ rw known refl
        | inr new ↦
            rw new (ap (λ r. (pulled fl out app r).0) h ∙ pulled-stale out app version pushed k)
      ]

  -- The round after a report that was accepted.
  abbrev after_report : Round F → Polling F → ℕ → Polling F
  after_report r p accepted = record {
    app = record_version fl r.record_outcome p.app accepted;
    report = acked p.report;
    requests = p.requests ++ post_config (report_body p.app.config) ∷ [];
  }

  poll_report-accepted :
      (r : Round F) (p : Polling F) (accepted : ℕ)
      → p.report.pending ≡ true
      → accept r.report_reply ≡ ok accepted
      → poll_report fl r p ≡ after_report r p accepted
  unfolding poll_report reported
  poll_report-accepted r p accepted owes a =
      ap
        (λ b.
          if b
          then reported fl r
              (record p { requests = p.requests ++ post_config (report_body p.app.config) ∷ [] })
              (accept r.report_reply)
          else p)
        owes
      ∙ ap
          (reported fl r
            (record p { requests = p.requests ++ post_config (report_body p.app.config) ∷ [] }))
          a

  -- A round that owes a report sends it first. If the website accepts it at a version, and then
  -- offers a configuration of that version or an older one, the node runs what it ran before the
  -- round, marked with that version, whether or not the file could be written; and the pull asked
  -- for what is newer than that version.
  pub poll_cycle-kept :
      (r : Round F) (p : Polling F) (mw : MicrowavepropConfig) (accepted offered : ℕ)
      (pushed : SyncConfig F)
      → p.report.pending ≡ true
      → p.app.config.microwaveprop ≡ some mw
      → accept r.report_reply ≡ ok accepted
      → accept r.config_reply ≡ ok (offered, pushed)
      → offered ≤ accepted
      → let p' = poll_cycle fl r p in
        (p'.app.config ≡ set_version p.app.config mw accepted)
        × (p'.report ≡ acked p.report)
        × (p'.requests
            ≡ p.requests
              ++ post_config (report_body p.app.config)
                ∷ get_config accepted
                ∷ put_status (status_body r.local_ip p.app.config.http.bind r.uploader r.store)
                ∷ [])
  unfolding poll_cycle poll_config poll_status
  poll_cycle-kept r p mw accepted offered pushed owes e a c le =
      let app' = record_version fl r.record_outcome p.app accepted in
      let config : app'.config ≡ set_version p.app.config mw accepted =
        record_version-config r.record_outcome p.app mw accepted e in
      let known : applied_version app'.config ≡ accepted =
        ap applied_version config ∙ (unfold applied_version in refl) in
      let kept : (pull_reply fl r.push_outcome app' r.config_reply).0 ≡ app' =
        pull_reply-stale r.push_outcome app' r.config_reply offered pushed c
          (omega (arith, known, le)) in
      rw (poll_report-accepted r p accepted owes a) (
        ap (λ b. b.config) kept ∙ config,
        refl,
        ap₂
              (λ v bind.
                ((p.requests ++ post_config (report_body p.app.config) ∷ []) ++ get_config v ∷ [])
                ++ put_status (status_body r.local_ip bind r.uploader r.store) ∷ [])
              known (ap (λ b. b.config.http.bind) kept ∙ ap (λ cfg. cfg.http.bind) config)
            ∙ append_assoc (p.requests ++ post_config (report_body p.app.config) ∷ []) _ _
            ∙ append_assoc p.requests _ _,
      )
