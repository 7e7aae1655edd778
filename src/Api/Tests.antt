-- ===== src/Api/Tests.antt =====
-- Requests to a vault with two mailboxes, and the theorems at them.
use heron_mail.Prelude.{
  List, [], any, false, if◌then◌else◌, is_some, length, map, none, refl, some, str_eq, subst, sym,
  true, ◌*◌, ◌++◌, ◌/◌, ◌∷◌, ◌≡◌,
}
use heron_mail.Result.{err, http_exception, ok}
use heron_mail.Alerts.{acknowledged, resolved, transition}
use heron_mail.Analyses.{set_alert_status}
use heron_mail.Analyses.Tests.{alert}
use heron_mail.Analyzer.{analyze_pending_safely}
use heron_mail.Analyzer.Tests.{pipeline}
use heron_mail.Api.{job_out}
use heron_mail.Api.AlertRoutes.{change_alert_status}
use heron_mail.Api.Ingest.{IngestRequest, IngestResponse, ingest}
use heron_mail.Api.Ingest.Completing.{completed_next, completed_none, ingest_completed, ingest_lem}
use heron_mail.Api.Ingest.Queueing.{jobs_for, queued_job}
use heron_mail.Api.Mailboxes.{
  MailboxCreate, MailboxOut, add_mailbox, get_mailbox, list_mailboxes, not_found,
}
use heron_mail.Api.Mailboxes.Secrecy.{
  add_mailbox-get_mailbox, mailboxes_hide_passwords, with_passwords,
}
use heron_mail.Collector.{Mailbox, Store}
use heron_mail.Collector.Tests.{library}
use heron_mail.Coverage.{get_gaps}
use heron_mail.Coverage.Hull.{IsWhole}
use heron_mail.Coverage.Reading.{gaps_of}
use heron_mail.Coverage.Record.{IsTidy}
use heron_mail.Jobs.{claim_job, create_job, mark_done, start_job}
use heron_mail.Models.{Job, Vault, done}
use heron_mail.Runner.{chunked, finish_job, open_job, run_batches, run_job}
use heron_mail.Runner.Settling.{AllHave, Completed, analysed-SameMail}
use heron_mail.Storage.{create_account, get_account, has_address}
use heron_mail.Storage.Tests.{account, two_accounts, with_email}
use heron_mail.Text.{concat}
use heron_mail.Timeutil.{
  DateRange, Zones, day_length, from_utc_storage_string, local_date_range, new_range,
  widened_for_imap_search,
}

-- Coordinated universal time, in which a date begins at a multiple of a day.
abbrev utc : Zones
utc = record {
  Zone = Unit {0};
  load = λ name. if str_eq name "UTC" then some tt else none;
  midnight = λ zone day. day * day_length;
  date = λ zone t. t / day_length;
  repr = λ name. concat ("'" ∷ name ∷ "'" ∷ []);
}

abbrev request : IngestRequest
request = record { mailbox_id = 1; folder = "INBOX"; start_date = 5; end_date = 6 }

abbrev two_days : DateRange
two_days = record { start = 5 * day_length; end = 7 * day_length }

two_days_local : local_date_range utc 5 6 "UTC" ≡ ok two_days
unfolding local_date_range
two_days_local = refl

two_days-IsWhole : IsWhole two_days
two_days-IsWhole = (refl, refl)

no_segments : IsTidy two_accounts.coverage
no_segments = record { distinct = tt; ordered = tt; apart = λ a f. tt }

abbrev queued_jobs : List Job
queued_jobs = jobs_for 1 1 "INBOX" 9_000_000 (two_days ∷ [])

abbrev answered : IngestResponse
answered = record { gaps_found = 1; jobs = map job_out queued_jobs }

starts_one_job :
    ingest utc two_accounts "UTC" request 9_000_000
    ≡ (record two_accounts { jobs = queued_jobs }, ok (answered, queued_jobs))
unfolding ingest get_account local_date_range get_gaps create_job claim_job
starts_one_job = refl

unknown_mailbox :
    (ingest utc two_accounts "UTC" (record request { mailbox_id = 7 }) 9_000_000).1
    ≡ err (http_exception 404 "Mailbox not found")
unfolding ingest get_account
unknown_mailbox = refl

dates_reversed :
    (ingest utc two_accounts "UTC" (record request { start_date = 8 }) 9_000_000).1
    ≡ err (http_exception 422 "end_day must not be before start_day")
unfolding ingest get_account local_date_range
dates_reversed = refl

known_mailbox : is_some (get_account two_accounts 1) ≡ true
unfolding get_account
known_mailbox = refl

ingest_lem_example : ingest utc two_accounts "UTC" request 9_000_000 ≡ (
  record two_accounts {
    jobs = [] ++ jobs_for 1 1 "INBOX" 9_000_000 (gaps_of [] 1 "INBOX" two_days);
  },
  ok (
    record {
      gaps_found = length (gaps_of [] 1 "INBOX" two_days);
      jobs = map job_out (jobs_for 1 1 "INBOX" 9_000_000 (gaps_of [] 1 "INBOX" two_days));
    },
    jobs_for 1 1 "INBOX" 9_000_000 (gaps_of [] 1 "INBOX" two_days),
  ),
)
ingest_lem_example =
    ingest_lem utc two_accounts "UTC" request 9_000_000 two_days no_segments known_mailbox
      two_days_local

-- A server on which the search finds nothing.
abbrev empty_server : Mailbox
empty_server = record {
  connect = λ host address password. ok tt;
  select_folder = λ folder. ok 7;
  search = λ r. ok [];
  fetch = λ uids. ok [];
}

abbrev started : Store
started = record { vault = record two_accounts { jobs = queued_jobs }; files = [] }

abbrev started_job : Job
started_job = start_job 9_000_000 (queued_job 1 1 "INBOX" two_days 9_000_000)

abbrev ended : Store
ended =
    (run_job library empty_server (λ s. ok s) (λ e. "") pipeline started started_job 50 9_000_000).0

abbrev wide_range : DateRange
wide_range = record { start = 4 * day_length; end = 8 * day_length }

-- The store before the analysis of what was stored.
abbrev finished_store : Store
finished_store = finish_job started (account 1 "a@example.com") started_job two_days 9_000_000

completes : Completed started ended started_job 9_000_000
unfolding run_job get_account new_range from_utc_storage_string widened_for_imap_search open_job
    chunked run_batches finish_job mark_done analyze_pending_safely
completes =
    let same = analysed-SameMail pipeline finished_store 9_000_000 in
    record {
      account = account 1 "a@example.com";
      date_range = two_days;
      wide = wide_range;
      of_job = refl;
      ranges = refl;
      status = subst (AllHave 1 done) (sym same.jobs) (refl, tt);
      coverage = same.coverage;
    }

ingest_completed_example : get_gaps ended.vault.coverage 1 "INBOX" two_days ≡ ok []
ingest_completed_example =
    ingest_completed library empty_server (λ s. ok s) (λ e. "") pipeline 50 utc two_accounts "UTC"
      request 9_000_000 two_days [] answered queued_jobs
      (record two_accounts { jobs = queued_jobs }) ended no_segments known_mailbox two_days_local
      two_days-IsWhole starts_one_job
      (completed_next started ended started_job [] 9_000_000 completes (completed_none ended))

mailboxes_hide_passwords_example :
    (list_mailboxes (with_passwords (λ a. "x") two_accounts) ≡ list_mailboxes two_accounts)
    × (get_mailbox (with_passwords (λ a. "x") two_accounts) 2 ≡ get_mailbox two_accounts 2)
mailboxes_hide_passwords_example = mailboxes_hide_passwords (λ a. "x") two_accounts 2

abbrev new_mailbox : MailboxCreate
new_mailbox = record {
  email_address = "c@example.com";
  imap_host = "imap.example.com";
  imap_port = 993;
  password = "secret";
}

abbrev new_answer : MailboxOut
new_answer = record {
  id = 3;
  email_address = "c@example.com";
  imap_host = "imap.example.com";
  imap_port = 993;
  created_at = 9;
}

abbrev three_accounts : Vault
three_accounts = record two_accounts {
  accounts =
      account 1 "a@example.com"
      ∷ account 2 "b@example.com"
      ∷ record (account 3 "c@example.com") { encrypted_password = "secret"; created_at = 9 }
      ∷ [];
}

adds_mailbox :
    add_mailbox (λ s. s) two_accounts new_mailbox 9_000_000 ≡ ok (three_accounts, new_answer)
unfolding add_mailbox create_account get_account
adds_mailbox = refl

address_taken :
    add_mailbox (λ s. s) two_accounts (record new_mailbox { email_address = "a@example.com" }) 9
    ≡ err (http_exception 409 "a mailbox with this email address already exists")
unfolding add_mailbox create_account
address_taken = refl

add_mailbox-get_mailbox_example :
    (any (has_address "c@example.com") two_accounts.accounts ≡ false)
    × (get_mailbox two_accounts 3 ≡ err not_found)
    × (get_mailbox three_accounts 3 ≡ ok new_answer)
    × (new_answer.email_address ≡ new_mailbox.email_address)
add_mailbox-get_mailbox_example =
    add_mailbox-get_mailbox (λ s. s) two_accounts three_accounts new_mailbox 9_000_000 new_answer
      adds_mailbox

abbrev with_alert : Vault
with_alert = record with_email { alerts = record alert { status = resolved } ∷ [] }

move_refused :
    change_alert_status with_alert 1 acknowledged 6_000_000
    ≡ err (http_exception 409 "cannot move an alert from resolved to acknowledged")
unfolding change_alert_status set_alert_status transition
move_refused = refl
