-- ===== src/Collector/Tests.antt =====
-- Two fetched messages, and the theorem at concrete inputs.
use heron_mail.Prelude.{List, [], none, refl, ℕ, ◌∷◌, ◌≡◌}
use heron_mail.Result.{ok}
use heron_mail.Collector.{
  CollectorResult, FetchedMessage, Library, Store, Target, store_all, store_if_in_range,
  store_raw_message, target_of,
}
use heron_mail.Storage.{insert_email_if_new}
use heron_mail.Storage.Tests.{account, some_range, two_accounts}
use heron_mail.Timeutil.{aware, contains, parse_email_date_header, to_utc_storage_string}

-- Every file can be written, and no message has headers.
abbrev pub library : Library
library = record {
  sha256 = λ s. s;
  headers = λ s. record { message_id = none; date = none; subject = none; from_address = none };
  parsedate = λ s. none;
  write = λ s. ok tt;
}

abbrev pub empty_store : Store
empty_store = record { vault = two_accounts; files = [] }

abbrev pub target : Target
target = target_of (account 1 "a@example.com") "INBOX" 7 some_range

abbrev pub message : ℕ → FetchedMessage
message at = record { raw_bytes = "abc"; internal_date = aware at }

-- One message in the range, once more the same, and one after the range.
abbrev fetched : List (ℕ × FetchedMessage)
fetched = (40, message 100_000_000) ∷ (40, message 100_000_000) ∷ (41, message 110_000_000) ∷ []

abbrev counted : CollectorResult
counted = record { fetched = 3; stored_new = 1; stored_duplicate = 1; outside_range = 1 }

stores_all : (store_all library empty_store target fetched 0).1 ≡ ok counted
unfolding store_all store_if_in_range store_raw_message insert_email_if_new to_utc_storage_string
    contains parse_email_date_header
stores_all = refl
