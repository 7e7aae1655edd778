-- ===== src/Api/Ingest/Completing.antt =====
-- `ingest` and the jobs that it starts, src/heron/api/ingest.py and src/heron/worker/runner.py.
use heron_mail.Prelude.{
  ==_iff, All, Bool, Bool-cases, List, String, [], any, ap, ap₂, arith, false, first?,
  first?_passes, inl, inr, is_some, leb, length, map, next_id, not, or_assoc, or_false, refl,
  select, some, subst, suc, sym, true, ℕ, ◌&&◌, ◌++◌, ◌<◌, ◌==◌, ◌||◌, ◌∙◌, ◌∷◌, ◌≡◌, ◌≤◌,
}
use heron_mail.Result.{Error, Result, bind-ok, ok, ok-injective, ◌>>=◌}
use heron_mail.Analyzer.{Pipeline}
use heron_mail.Api.{job_out}
use heron_mail.Api.Ingest.{
  IngestRequest, IngestResponse, Ingested, find_gaps, ingest, ingested, queue_found,
}
use heron_mail.Api.Ingest.Queueing.{jobs_for, queue_gaps_lem}
use heron_mail.Collector.{Library, Mailbox, Store}
use heron_mail.Coverage.{covers, get_gaps, is_for, record_coverage}
use heron_mail.Coverage.Gaps.{compute_gaps-IsTidy}
use heron_mail.Coverage.Hull.{IsWhole, ranges}
use heron_mail.Coverage.Reading.{gaps_of, gaps_of-exact, get_gaps_lem, nil_of_covers, sorted_rows}
use heron_mail.Coverage.Record.{IsTidy, covers-record_coverage, div_second, record_coverage-IsTidy}
use heron_mail.Coverage.Whole.{gaps_of-IsWhole}
use heron_mail.Jobs.{job_id}
use heron_mail.Models.{Account, Job, Vault}
use heron_mail.Runner.{job_ranges, run_job}
use heron_mail.Runner.Settling.{Completed}
use heron_mail.Storage.{get_account}
use heron_mail.Timeutil.{
  DateRange, Zones, aware, from_utc_storage_string, in_range, local_date_range, new_range, stamp,
  widened_for_imap_search,
}

account_of_found :
    (vault : Vault) (id : ℕ) (account : Account)
    → get_account vault id ≡ some account
    → account.id ≡ id
unfolding get_account
account_of_found vault id account e =
    (==_iff account.id id).0 (first?_passes (λ (a : Account). a.id == id) vault.accounts account e)

known_account :
    (accounts : List Account) (id : ℕ)
    → is_some (first? (λ (a : Account). a.id == id) accounts) ≡ true
    → any (λ (a : Account). a.id == id) accounts ≡ true
known_account [] id h = cc
known_account (a ∷ accounts) id h = elim (Bool-cases (a.id == id)) [
  | inl e ↦ rw e
  | inr e ↦ rw e (known_account accounts id (rw e at h))
]

-- A range of a job, as a gap has it.
abbrev IsSound : DateRange → Type 0
IsSound gap = IsWhole gap × (gap.start < gap.end)

proper_range :
    (gap : DateRange) → gap.start < gap.end → new_range (aware gap.start) (aware gap.end) ≡ ok gap
unfolding new_range
proper_range gap h = let e : leb gap.end gap.start ≡ false = ground arith in rw e

stored_range :
    (gap : DateRange)
    → IsSound gap
    → new_range
        (aware (from_utc_storage_string (stamp gap.start)))
        (aware (from_utc_storage_string (stamp gap.end)))
      ≡ ok gap
unfolding from_utc_storage_string
stored_range gap h =
    ap₂ (λ s e. new_range (aware s) (aware e)) (div_second gap.start h.0.0)
      (div_second gap.end h.0.1)
    ∙ proper_range gap h.1

-- The range of a job that was queued for a gap is the gap.
range_of_job :
    (job : Job) (gap date_range wide : DateRange)
    → job.range_start ≡ stamp gap.start
    → job.range_end ≡ stamp gap.end
    → IsSound gap
    → job_ranges job ≡ ok (date_range, wide)
    → date_range ≡ gap
range_of_job job gap date_range wide p q h e =
    let (r, first, rest) =
      bind-ok
        (new_range (aware (from_utc_storage_string job.range_start))
          (aware (from_utc_storage_string job.range_end)))
        (λ r. widened_for_imap_search r >>= λ wide. ok (r, wide)) (date_range, wide) e in
    let (w, second, last) =
      bind-ok (widened_for_imap_search r) (λ wide. ok (r, wide)) (date_range, wide) rest in
    sym (ap (λ (x : DateRange × DateRange). x.0) (ok-injective (r, w) (date_range, wide) last))
    ∙ ok-injective r gap (
        sym first
        ∙ ap₂
            (λ s t.
              new_range (aware (from_utc_storage_string s)) (aware (from_utc_storage_string t)))
            p q
        ∙ stored_range gap h)

IsSound-gaps :
    (r : DateRange) (gaps : List DateRange)
    → All IsWhole gaps
    → All (λ g. (r.start ≤ g.start) × (g.start < g.end) × (g.end ≤ r.end)) gaps
    → All IsSound gaps
IsSound-gaps r [] w h = tt
IsSound-gaps r (g ∷ gaps) w h = ((w.0, h.0.1), IsSound-gaps r gaps w.1 h.1)

nothing_left : (i c : Bool) → (i && not (c || (i && not c))) ≡ false
nothing_left i c = ground arith

module _ (zones : Zones) (vault : Vault) (tz_name : String) (body : IngestRequest) (now : ℕ)
    (r : DateRange) (tidy : IsTidy vault.coverage)
    (known : is_some (get_account vault body.mailbox_id) ≡ true)
    (local : local_date_range zones body.start_date body.end_date tz_name ≡ ok r) where
  abbrev gaps : List DateRange
  gaps = gaps_of vault.coverage body.mailbox_id body.folder r

  abbrev queued : List Job
  queued = jobs_for (next_id job_id vault.jobs) body.mailbox_id body.folder now gaps

  find_gaps_lem : find_gaps zones vault tz_name body ≡ ok gaps
  unfolding find_gaps
  find_gaps_lem = rw (known, local, get_gaps_lem vault.coverage body.mailbox_id body.folder r tidy)

  -- For a mailbox that is stored and dates that name a range, `ingest` queues a running job for each gap
  -- of that range, in their order and with new ids, changes nothing else, and returns and starts exactly
  -- those jobs.
  pub ingest_lem : ingest zones vault tz_name body now ≡ (
    record vault { jobs = vault.jobs ++ queued },
    ok (record { gaps_found = length gaps; jobs = map job_out queued }, queued),
  )
  unfolding ingest get_account
  ingest_lem =
      ap (queue_found vault body now) find_gaps_lem
      ∙ ap (ingested (length gaps) vault) (
          queue_gaps_lem vault.accounts body.mailbox_id body.folder now gaps vault.jobs
            (known_account vault.accounts body.mailbox_id known))

module _ (lib : Library) (mail : Mailbox) (decrypt : String → Result String) (text : Error → String)
    (p : Pipeline) (batch_size : ℕ) where
  -- The background tasks ran one after another, each at its time, and each job was completed.
  pub data AllCompleted : Store → List Job → Store → Type 0 where
    completed_none : (store : Store) → AllCompleted store [] store
    completed_next :
        (store after : Store) (job : Job) (jobs : List Job) (now : ℕ)
        → Completed store (run_job lib mail decrypt text p store job batch_size now).0 job now
        → AllCompleted (run_job lib mail decrypt text p store job batch_size now).0 jobs after
        → AllCompleted store (job ∷ jobs) after

  abbrev covered_at : Store → ℕ → String → ℕ → Bool
  covered_at store account folder t =
      covers (ranges (select (is_for account folder) store.vault.coverage)) t

  completed_covers :
      (id account : ℕ) (folder : String) (now : ℕ) (gaps : List DateRange) (store after : Store)
      → All IsSound gaps
      → IsTidy store.vault.coverage
      → AllCompleted store (jobs_for id account folder now gaps) after
      → IsTidy after.vault.coverage
        × ((t : ℕ)
            → covered_at after account folder t
              ≡ (covered_at store account folder t || covers gaps t))
  completed_covers id account folder now [] store after h tidy (completed_none _) =
      (tidy, λ t. or_false (covered_at store account folder t))
  completed_covers id account folder now (gap ∷ gaps) store after h tidy
        (completed_next _ _ job _ at c rest) =
      let owner : c.account.id ≡ account =
        account_of_found store.vault account c.account c.of_job in
      let date_range : c.date_range ≡ gap =
        range_of_job job gap c.date_range c.wide refl refl h.0 c.ranges in
      let mid = (run_job lib mail decrypt text p store job batch_size at).0 in
      let recorded : mid.vault.coverage
          ≡ record_coverage store.vault.coverage account folder gap at =
        c.coverage
        ∙ ap₂ (λ a r. record_coverage store.vault.coverage a folder r at) owner date_range in
      let tidy' =
        subst IsTidy (sym recorded)
          (record_coverage-IsTidy store.vault.coverage account folder gap at tidy h.0.1 h.0.0) in
      let (after_tidy, covers_after) =
        completed_covers (suc id) account folder now gaps mid after h.1 tidy' rest in
      (
        after_tidy,
        λ t.
            covers_after t
            ∙ ap (λ b. b || covers gaps t)
                (ap (λ l. covers (ranges (select (is_for account folder) l)) t) recorded
                  ∙ covers-record_coverage store.vault.coverage account folder gap at tidy h.0.1
                      h.0.0 t)
            ∙ or_assoc (covered_at store account folder t) (in_range gap t) (covers gaps t),
      )

  -- Once every job that `ingest` has started is completed, nothing of the requested range is left to
  -- fetch: the next request for it finds no gap. The range is one of whole seconds.
  pub ingest_completed :
      (zones : Zones) (vault : Vault) (tz_name : String) (body : IngestRequest) (now : ℕ)
      (r : DateRange) (files : List (String × String)) (response : IngestResponse) (jobs : List Job)
      (queued_vault : Vault) (after : Store)
      → IsTidy vault.coverage
      → is_some (get_account vault body.mailbox_id) ≡ true
      → local_date_range zones body.start_date body.end_date tz_name ≡ ok r
      → IsWhole r
      → ingest zones vault tz_name body now ≡ (queued_vault, ok (response, jobs))
      → AllCompleted (record { vault = queued_vault; files = files }) jobs after
      → get_gaps after.vault.coverage body.mailbox_id body.folder r ≡ ok []
  ingest_completed zones vault tz_name body now r files response jobs queued_vault after tidy known
        local whole e completed =
      let start : Store = record { vault = queued_vault; files = files } in
      let gaps = gaps_of vault.coverage body.mailbox_id body.folder r in
      let same = sym e ∙ ingest_lem zones vault tz_name body now r tidy known local in
      let unchanged : queued_vault.coverage ≡ vault.coverage =
        ap (λ (x : Ingested). x.0.coverage) same in
      let started =
        ap (λ (x : IngestResponse × List Job). x.1)
          (ok-injective _ _ (ap (λ (x : Ingested). x.1) same)) in
      let sound =
        IsSound-gaps r gaps (gaps_of-IsWhole vault.coverage body.mailbox_id body.folder r whole)
          (compute_gaps-IsTidy r
            (ranges (sorted_rows vault.coverage body.mailbox_id body.folder))).0 in
      let (after_tidy, covers_after) =
        completed_covers (next_id job_id vault.jobs) body.mailbox_id body.folder now gaps start
          after sound (subst IsTidy (sym unchanged) tidy)
          (subst (λ js. AllCompleted start js after) started completed) in
      get_gaps_lem after.vault.coverage body.mailbox_id body.folder r after_tidy
      ∙ ap ok (
          nil_of_covers r (gaps_of after.vault.coverage body.mailbox_id body.folder r)
            (compute_gaps-IsTidy r
              (ranges (sorted_rows after.vault.coverage body.mailbox_id body.folder))).0
            (λ t.
              gaps_of-exact after.vault.coverage body.mailbox_id body.folder r t
              ∙ ap (λ b. in_range r t && not b)
                  (covers_after t
                    ∙ ap₂ (λ a b. a || b)
                        (ap (λ l. covers (ranges (select (is_for body.mailbox_id body.folder) l)) t)
                          unchanged)
                        (gaps_of-exact vault.coverage body.mailbox_id body.folder r t))
              ∙ nothing_left (in_range r t)
                  (covers (ranges (select (is_for body.mailbox_id body.folder) vault.coverage)) t)))
