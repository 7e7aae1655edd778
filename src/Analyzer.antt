-- ===== src/Analyzer.antt =====
-- src/heron/worker/analysis.py and src/heron/analysis/pipeline.py.
use mathlib.Core.Option
pub mod Passes
pub mod Blocking
pub mod Tests
use heron_mail.Prelude.{
  Bool, List, Option, String, [], false, if◌then◌else◌, length, map, none, some, str_eq, suc, true,
  zero, ℕ, ◌+◌, ◌∷◌,
}
use heron_mail.Result.{Result, err, ok, ◌>>=◌}
use heron_mail.Analyses.{emails_missing_analysis, emails_with_stale_analysis, record_assessment}
use heron_mail.Collector.{Outcome, Store, and_then}
use heron_mail.Email.{Iocs, ParsedEmail}
use heron_mail.Models.{Email, Vault}
use heron_mail.Rules.{Rule, run_rules}
use heron_mail.Scoring.{Assessment, assess, default_config, rules_version}

-- What the pipeline calls: the parser, the extractor, the registered rules and the digest of their
-- fingerprint. The extractor may raise ValueError, by `int` in `_parse_ip_number`. `resolve` is `_resolve_inside`, which returns the path relative to the directory.
pub record Pipeline : Type 0 where
  pub parse : String → ParsedEmail
  pub extract : ParsedEmail → Result Iocs
  pub rules : List Rule
  pub digest : String → String
  pub resolve : String → Option String

pub record Analyzed : Type 0 where
  pub email : ParsedEmail
  pub iocs : Iocs
  pub assessment : Assessment

-- `analyze` once the indicators are extracted.
abbrev pub analyzed : Pipeline → ParsedEmail → Iocs → Analyzed
analyzed p email iocs = record {
  email = email;
  iocs = iocs;
  assessment =
      assess p.digest (run_rules (record { email = email; iocs = iocs }) p.rules) p.rules
        default_config;
}

unfoldable pub analyze : Pipeline → String → Result Analyzed
unfolding run_rules assess
analyze p raw = let email = p.parse raw in p.extract email >>= λ iocs. ok (analyzed p email iocs)

-- path.read_bytes(): `none` if it raises OSError.
abbrev pub read_bytes : List (String × String) → String → Option String
read_bytes [] path = none
read_bytes ((p, raw) ∷ rest) path = if str_eq p path then some raw else read_bytes rest path

abbrev pub save_analysis : Store → ℕ → Analyzed → ℕ → Outcome Bool
save_analysis store email_id a now =
    elim (record_assessment store.vault email_id a.assessment a.email.subject now) [
      | ok (after, id) ↦ (record store { vault = after }, ok true)
      | err e ↦ (store, err e)
    ]

abbrev pub save_result : Store → ℕ → Result Analyzed → ℕ → Outcome Bool
save_result store email_id (ok a) now = save_analysis store email_id a now
save_result store email_id (err e) now = (store, err e)

abbrev pub analyze_file : Pipeline → Store → ℕ → Option String → ℕ → Outcome Bool
analyze_file p store email_id none now = (store, ok false)
analyze_file p store email_id (some raw) now = save_result store email_id (analyze p raw) now

unfoldable pub analyze_stored_email : Pipeline → Store → Email → ℕ → Outcome Bool
analyze_stored_email p store row now = elim (p.resolve row.eml_path) [
  | none ↦ (store, ok false)
  | some path ↦ analyze_file p store row.id (read_bytes store.files path) now
]

abbrev pub tally : Bool → ℕ → ℕ
tally b n = if b then suc n else n

-- The inner loop of `_run`, with the number of those saved.
unfoldable pub analyze_batch : Pipeline → Store → List Email → ℕ → Outcome ℕ
analyze_batch p store [] now = (store, ok 0)
analyze_batch p store (row ∷ rest) now =
    and_then (analyze_stored_email p store row now)
      (λ s saved. and_then (analyze_batch p s rest now) (λ s' n. (s', ok (tally saved n))))

-- int(batch[-1]["id"])
abbrev pub last_id : Email → List Email → ℕ
last_id row [] = row.id
last_id row (next ∷ rest) = last_id next rest

abbrev pub add_saved : ℕ → Outcome ℕ → Outcome ℕ
add_saved n (store, ok m) = (store, ok (n + m))
add_saved n (store, err e) = (store, err e)

-- `_run` from `after_id` on; `none` if the fuel does not suffice.
unfoldable pub run_pass :
    ℕ → Pipeline → (Vault → ℕ → List Email) → Store → ℕ → ℕ → Option (Outcome ℕ)
run_pass zero p fetch store after_id now = none
run_pass (suc fuel) p fetch store after_id now = elim (fetch store.vault after_id) [
  | [] ↦ some (store, ok 0)
  | row ∷ rest ↦
      let (s, saved) = analyze_batch p store (row ∷ rest) now in
      elim saved [
        | ok n ↦ Option.map (add_saved n) (run_pass fuel p fetch s (last_id row rest) now)
        | err e ↦ some (s, err e)
      ]
]

-- The fuel of a pass: one round more than there are emails.
abbrev pub enough : Store → ℕ
enough store = suc (length store.vault.emails)

unfoldable pub analyze_pending : Pipeline → Store → ℕ → ℕ → Option (Outcome ℕ)
unfolding run_pass
analyze_pending p store batch_size now =
    run_pass (enough store) p (λ v after_id. emails_missing_analysis v after_id batch_size) store 0
      now

unfoldable pub reanalyze_stale : Pipeline → Store → ℕ → ℕ → Option (Outcome ℕ)
unfolding run_pass
reanalyze_stale p store batch_size now =
    let current = rules_version p.digest p.rules default_config in
    run_pass (enough store) p
      (λ v after_id. emails_with_stale_analysis v current after_id batch_size) store 0 now

-- An exception makes it 0; what was saved before stays.
abbrev pub caught : Outcome ℕ → Store × ℕ
caught (store, ok n) = (store, n)
caught (store, err e) = (store, 0)

unfoldable pub analyze_pending_safely : Pipeline → Store → ℕ → Option (Store × ℕ)
unfolding analyze_pending
analyze_pending_safely p store now = Option.map caught (analyze_pending p store 200 now)
