-- ===== src/Collector.antt =====
-- src/heron/ingest/collector.py. What changes is the vault and the directory of raw messages, and a call that
-- raises keeps what it has changed before.
pub mod Storing
pub mod Tests
use heron_mail.Prelude.{
  Bool, List, Option, String, [], any, if◌then◌else◌, none, not, some, str_eq, suc, take, ℕ, ◌++◌,
  ◌+◌, ◌∷◌,
}
use heron_mail.Result.{Result, err, ok, ◌>>=◌, ◌>>◌}
use heron_mail.Models.{Account, Vault}
use heron_mail.Storage.{EmailValues, insert_email_if_new}
use heron_mail.Text.{chars, concat, from_chars}
use heron_mail.Timeutil.{
  DateRange, Datetime, aware, contains, parse_email_date_header, widened_for_imap_search,
}

-- The vault, and the raw messages by their paths relative to `eml_dir`.
pub record Store : Type 0 where
  pub vault : Vault
  pub files : List (String × String)

-- What a call returns or raises, and the store then.
abbrev pub Outcome {ℓ} : Type ℓ → Type ℓ
Outcome A = Store × Result A

-- The next statement, unless one raised.
abbrev pub and_then {ℓ κ} :
    {A : Type ℓ} {B : Type κ} → Outcome A → (Store → A → Outcome B) → Outcome B
and_then (store, ok a) f = f store a
and_then (store, err e) f = (store, err e)

pub record FetchedMessage : Type 0 where
  pub raw_bytes : String
  pub internal_date : Datetime

-- The headers of a message that are read, decoded.
pub record Headers : Type 0 where
  pub message_id : Option String
  pub date : Option String
  pub subject : Option String
  pub from_address : Option String

-- The standard library and the file system: the digest of a message, its headers, the date parser of
-- email.utils, and whether a new file can be written.
pub record Library : Type 0 where
  pub sha256 : String → String
  pub headers : String → Headers
  pub parsedate : String → Option Datetime
  pub write : String → Result (Unit {0})

pub data StoreOutcome : Type 0 where
  stored_new stored_duplicate outside_range : StoreOutcome

abbrev pub file_at : String → String × String → Bool
file_at path (p, _) = str_eq p path

-- Path(content_hash[:2]) / f"{content_hash}.eml"
abbrev pub relative_path : String → String
relative_path hash = concat (from_chars (take 2 (chars hash)) ∷ "/" ∷ hash ∷ ".eml" ∷ [])

unfoldable pub store_raw_message : Library → Store → String → String → Outcome String
store_raw_message lib store hash raw =
    let path = relative_path hash in
    if any (file_at path) store.files
    then (store, ok path)
    else and_then (store, lib.write path)
        (λ s _. (record s { files = s.files ++ (path, raw) ∷ [] }, ok path))

-- A UTC datetime as it is passed on.
abbrev pub as_aware : Option ℕ → Option Datetime
as_aware none = none
as_aware (some t) = some (aware t)

-- The account, the folder, its UIDVALIDITY and the exact range of a fetch.
pub record Target : Type 0 where
  pub account_id : ℕ
  pub folder : String
  pub uidvalidity : ℕ
  pub date_range : DateRange

abbrev pub email_values : Library → Target → ℕ → FetchedMessage → String → ℕ → EmailValues
email_values lib target uid message path now =
    let headers = lib.headers message.raw_bytes in
    record {
      account_id = target.account_id;
      folder = target.folder;
      uidvalidity = target.uidvalidity;
      uid = uid;
      content_hash = lib.sha256 message.raw_bytes;
      internal_date = message.internal_date;
      eml_path = path;
      message_id = headers.message_id;
      header_date = as_aware (parse_email_date_header lib.parsedate headers.date);
      subject = headers.subject;
      from_address = headers.from_address;
      now = now;
    }

abbrev pub insert_message : Store → EmailValues → Outcome StoreOutcome
insert_message store v = elim (insert_email_if_new store.vault v) [
  | ok (after, (row_id, inserted)) ↦
      (record store { vault = after }, ok (if inserted then stored_new else stored_duplicate))
  | err e ↦ (store, err e)
]

unfoldable pub store_if_in_range :
    Library → Store → Target → ℕ → FetchedMessage → ℕ → Outcome StoreOutcome
store_if_in_range lib store target uid message now =
    and_then (store, contains target.date_range message.internal_date)
      (λ s inside.
        if not inside
        then (s, ok outside_range)
        else and_then (store_raw_message lib s (lib.sha256 message.raw_bytes) message.raw_bytes)
            (λ s' path. insert_message s' (email_values lib target uid message path now)))

pub record CollectorResult : Type 0 where
  pub fetched : ℕ
  pub stored_new : ℕ
  pub stored_duplicate : ℕ
  pub outside_range : ℕ

abbrev pub total_in_range : CollectorResult → ℕ
total_in_range r = r.stored_new + r.stored_duplicate

abbrev pub count_outcome : StoreOutcome → CollectorResult → CollectorResult
count_outcome stored_new r = record r { fetched = suc r.fetched; stored_new = suc r.stored_new }
count_outcome stored_duplicate r = record r {
  fetched = suc r.fetched;
  stored_duplicate = suc r.stored_duplicate;
}
count_outcome outside_range r = record r {
  fetched = suc r.fetched;
  outside_range = suc r.outside_range;
}

-- The loop over `fetched.items()` that `Counter` drives, and the counts.
unfoldable pub store_all :
    Library → Store → Target → List (ℕ × FetchedMessage) → ℕ → Outcome CollectorResult
store_all lib store target [] now =
    (store, ok (record { fetched = 0; stored_new = 0; stored_duplicate = 0; outside_range = 0 }))
store_all lib store target ((uid, message) ∷ rest) now =
    and_then (store_if_in_range lib store target uid message now) (λ s outcome.
      and_then (store_all lib s target rest now)
        (λ s' counts. (s', ok (count_outcome outcome counts))))

-- The IMAP server as `ImapClient` shows it, each call of which may raise: the login, the UIDVALIDITY of
-- a folder, the UIDs that a search from one instant's date to another's returns, and the messages that
-- a fetch of some UIDs returns.
pub record Mailbox : Type 0 where
  pub connect : String → String → String → Result (Unit {0})
  pub select_folder : String → Result ℕ
  pub search : DateRange → Result (List ℕ)
  pub fetch : List ℕ → Result (List (ℕ × FetchedMessage))

abbrev pub target_of : Account → String → ℕ → DateRange → Target
target_of account folder uidvalidity r = record {
  account_id = account.id;
  folder = folder;
  uidvalidity = uidvalidity;
  date_range = r;
}

-- The conversation with the server; nothing is stored before all messages are fetched.
unfoldable pub fetch_range :
    Mailbox
    → (String → Result String)
    → Account
    → String
    → DateRange
    → Result (ℕ × List (ℕ × FetchedMessage))
fetch_range mail decrypt account folder r = do
  password ← decrypt account.encrypted_password
  wide ← widened_for_imap_search r
  connected ← mail.connect account.imap_host account.email_address password
  uidvalidity ← mail.select_folder folder
  uids ← mail.search wide
  messages ← mail.fetch uids
  ok (uidvalidity, messages)

unfoldable pub fetch_and_store_range :
    Library
    → Mailbox
    → (String → Result String)
    → Store
    → Account
    → String
    → DateRange
    → ℕ
    → Outcome CollectorResult
fetch_and_store_range lib mail decrypt store account folder r now =
    and_then (store, fetch_range mail decrypt account folder r)
      (λ s fetched. store_all lib s (target_of account folder fetched.0 r) fetched.1 now)
