-- ===== src/Analyzer/Blocking.antt =====
-- What a message that cannot be analysed does to the passes, src/heron/worker/analysis.py.
use heron_mail.Prelude.{List, String, ap, false, length, none, some, ℕ, ◌∙◌, ◌∷◌, ◌≡◌}
use heron_mail.Result.{Error, err, ok, ◌>>=◌}
use heron_mail.Analyses.{emails_missing_analysis}
use heron_mail.Analyzer.{
  Pipeline, analyze, analyze_batch, analyze_file, analyze_pending, analyze_stored_email, analyzed,
  read_bytes, save_result, tally,
}
use heron_mail.Analyzer.Passes.{pass_err}
use heron_mail.Collector.{Store, and_then}
use heron_mail.Models.{Email}

batch_raises :
    (p : Pipeline) (store : Store) (now : ℕ) (row : Email) (rest : List Email) (path raw : String)
    (e : Error)
    → p.resolve row.eml_path ≡ some path
    → read_bytes store.files path ≡ some raw
    → p.extract (p.parse raw) ≡ err e
    → analyze_batch p store (row ∷ rest) now ≡ (store, err e)
unfolding analyze_batch analyze_stored_email analyze
batch_raises p store now row rest path raw e inside stored raises =
    ap
      (λ r.
        and_then r
          (λ s saved. and_then (analyze_batch p s rest now) (λ s' n. (s', ok (tally saved n)))))
      (ap
          (λ o. elim o [
            | none ↦ (store, ok false)
            | some path ↦ analyze_file p store row.id (read_bytes store.files path) now
          ])
          inside
        ∙ ap (λ raw. analyze_file p store row.id raw now) stored
        ∙ ap (λ r. save_result store row.id (r >>= λ iocs. ok (analyzed p (p.parse raw) iocs)) now)
            raises)

-- Where the oldest email without an analysis is one whose extraction raises, `analyze_pending` raises the same
-- and saves nothing, for every batch size with which that email is fetched first.
pub analyze_pending_blocked :
    (p : Pipeline) (store : Store) (batch_size now : ℕ) (row : Email) (rest : List Email)
    (path raw : String) (e : Error)
    → emails_missing_analysis store.vault 0 batch_size ≡ row ∷ rest
    → p.resolve row.eml_path ≡ some path
    → read_bytes store.files path ≡ some raw
    → p.extract (p.parse raw) ≡ err e
    → analyze_pending p store batch_size now ≡ some (store, err e)
unfolding analyze_pending
analyze_pending_blocked p store batch_size now row rest path raw e waiting inside stored raises =
    pass_err (length store.vault.emails) p
      (λ v after_id. emails_missing_analysis v after_id batch_size) store 0 now row rest store e
      waiting (batch_raises p store now row rest path raw e inside stored raises)
