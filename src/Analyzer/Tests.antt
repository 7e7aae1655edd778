-- ===== src/Analyzer/Tests.antt =====
-- The theorems at a store with one email that is not analysed.
use heron_mail.Prelude.{[], false, none, some, ℕ, ◌∷◌, ◌≡◌}
use heron_mail.Result.{ok}
use heron_mail.Analyzer.{Pipeline, analyze_pending}
use heron_mail.Analyzer.Passes.{SameMail, analyze_pending_ends}
use heron_mail.Collector.{Outcome, Store}
use heron_mail.Email.{Iocs, ParsedEmail}
use heron_mail.Storage.Tests.{with_email}

abbrev pub parsed : ParsedEmail
parsed = record {
  subject = "Hi";
  from_addresses = [];
  reply_to = [];
  to = [];
  cc = [];
  return_path = none;
  message_id = none;
  date_header = none;
  headers = [];
  body_text = "";
  body_html = "";
  body_truncated = false;
  attachments = [];
  defects = [];
}

abbrev pub iocs : Iocs
iocs = record { urls = []; ips = []; domains = []; hashes = []; truncated = false }

-- One rule that finds nothing.
abbrev pub pipeline : Pipeline
pipeline = record {
  parse = λ s. parsed;
  extract = λ e. ok iocs;
  rules = record { id = "quiet"; version = 1; check = λ ctx. ok [] } ∷ [];
  digest = λ s. "0";
  resolve = λ s. some s;
}

abbrev one_email : Store
one_email = record { vault = with_email; files = ("ab/ab12.eml", "raw") ∷ [] }

analyze_pending_ends_example :
    (r : Outcome ℕ) × (analyze_pending pipeline one_email 200 0 ≡ some r) × SameMail one_email r.0
analyze_pending_ends_example = analyze_pending_ends pipeline one_email 200 0
