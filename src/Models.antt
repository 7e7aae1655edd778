-- ===== src/Models.antt =====
-- src/heron/core/models.py: the rows of the tables, and the vault as the list of each table's rows in the
-- order of their ids. A status that a CHECK constraint limits to some words is a data type.
use heron_mail.Prelude.{Bool, List, Option, String, ℕ}
use heron_mail.Alerts.{AlertDraft, AlertStatus}
use heron_mail.Rules.{Severity}
use heron_mail.Scoring.{Verdict}
use heron_mail.Timeutil.{Stamp}

pub record Account : Type 0 where
  pub id : ℕ
  pub email_address : String
  pub imap_host : String
  pub imap_port : ℕ
  pub encrypted_password : String
  pub created_at : Stamp

pub record Email : Type 0 where
  pub id : ℕ
  pub account_id : ℕ
  pub folder : String
  pub uidvalidity : ℕ
  pub uid : ℕ
  pub message_id : Option String
  pub content_hash : String
  pub internal_date : Stamp
  pub header_date : Option Stamp
  pub subject : Option String
  pub from_address : Option String
  pub eml_path : String
  pub created_at : Stamp

pub data JobStatus : Type 0 where
  pending running done failed : JobStatus

pub record Job : Type 0 where
  pub id : ℕ
  pub account_id : ℕ
  pub folder : String
  pub range_start : Stamp
  pub range_end : Stamp
  pub status : JobStatus
  pub checkpoint_uid : Option ℕ
  pub error : Option String
  pub created_at : Stamp
  pub started_at : Option Stamp
  pub finished_at : Option Stamp

-- A row of the table `coverage`.
pub record Segment : Type 0 where
  pub id : ℕ
  pub account_id : ℕ
  pub folder : String
  pub range_start : Stamp
  pub range_end : Stamp
  pub created_at : Stamp

pub record Analysis : Type 0 where
  pub id : ℕ
  pub email_id : ℕ
  pub score : ℕ
  pub verdict : Verdict
  pub rules_version : String
  pub complete : Bool
  pub rule_errors : List String
  pub analyzed_at : Stamp

-- A row of the table `alerts`. `details` is the draft whose JSON form is stored.
pub record Alert : Type 0 where
  pub id : ℕ
  pub email_id : ℕ
  pub status : AlertStatus
  pub severity : Severity
  pub verdict : Verdict
  pub score : ℕ
  pub title : String
  pub summary : String
  pub details : AlertDraft
  pub rules_version : String
  pub created_at : Stamp
  pub updated_at : Stamp
  pub acknowledged_at : Option Stamp
  pub closed_at : Option Stamp

-- The tables that the operations read and write together.
pub record Vault : Type 0 where
  pub accounts : List Account
  pub emails : List Email
  pub jobs : List Job
  pub coverage : List Segment
  pub analyses : List Analysis
  pub alerts : List Alert
