-- ===== src/Pages.antt =====
-- src/heron/ui/fetch_logic.py and the moves of src/heron/ui/alert_logic.py. A date is its number of days
-- since 0001-01-01; a job's status is the text that the server sent, if it sent one.
pub mod Facts
pub mod Tests
use heron_mail.Prelude.{
  Bool, List, Option, String, [], count_if, false, if◌then◌else◌, leb, length, ltb, map, none, not,
  select, some, str_eq, true, ℕ, ◌&&◌, ◌++◌, ◌+◌, ◌-◌, ◌==◌, ◌||◌, ◌∷◌,
}
use heron_mail.Result.{Result, err, ok, overflow_error, ◌>>=◌}
use heron_mail.Alerts.{
  AlertStatus, acknowledged, can_transition, false_positive, open_alert, resolved,
}
use heron_mail.Text.{concat, decimal}

-- `day - timedelta(days=n)`
abbrev pub days_before : ℕ → ℕ → Result ℕ
days_before day n = if ltb day n then err overflow_error else ok (day - n)

unfoldable pub preset_range : String → ℕ → Result (ℕ × ℕ)
preset_range preset today =
    if str_eq preset "Yesterday"
    then (days_before today 1 >>= λ day. ok (day, day))
    else if str_eq preset "Last 7 days"
    then (days_before today 6 >>= λ day. ok (day, today))
    else ok (today, today)

pub record RangeCheck : Type 0 where
  pub errors : List String
  pub warnings : List String

-- The property `ok`.
abbrev pub is_fine : RangeCheck → Bool
is_fine r = elim r.errors [ [] ↦ true | e ∷ es ↦ false ]

-- One message, if it applies.
abbrev pub message_if : Bool → String → List String
message_if true text = text ∷ []
message_if false text = []

-- With the end before the start there are no days; in Python the number is 0 or negative then.
unfoldable pub check_range : ℕ → ℕ → ℕ → RangeCheck
check_range start end today =
    let days = (end + 1) - start in
    record {
      errors =
          message_if (ltb end start) "The end date is before the start date."
          ++ message_if (ltb today end) "Mail can't be fetched for dates in the future."
          ++ message_if (ltb 366 days) "Choose at most 366 days at a time.";
      warnings =
          message_if (leb days 366 && ltb 31 days)
            (concat (decimal days ∷ " days is a lot of mail. This can take a long time." ∷ []));
    }

pub record JobReply : Type 0 where
  pub id : ℕ
  pub status : Option String
  pub error : Option String

abbrev pub is_text : String → Option String → Bool
is_text text none = false
is_text text (some s) = str_eq s text

abbrev pub status_is : String → JobReply → Bool
status_is text j = is_text text j.status

-- `s not in known`
abbrev pub is_unknown : JobReply → Bool
is_unknown j = not (status_is "running" j || (status_is "done" j || status_is "failed" j))

pub record JobsSummary : Type 0 where
  pub total : ℕ
  pub pending : ℕ
  pub running : ℕ
  pub done : ℕ
  pub failed : ℕ
  pub errors : List String

-- The properties `finished` and `fraction`, the latter as numerator and denominator.
abbrev pub is_finished : JobsSummary → Bool
is_finished s = ltb 0 s.total && (s.pending + s.running == 0)

abbrev pub fraction : JobsSummary → ℕ × ℕ
fraction s = if s.total == 0 then (0, 1) else (s.done + s.failed, s.total)

-- The texts of the errors that are there and not empty.
abbrev pub failures : List JobReply → List String
failures [] = []
failures (j ∷ jobs) = elim j.error [
  | none ↦ failures jobs
  | some text ↦
      if status_is "failed" j && not (str_eq text "") then text ∷ failures jobs else failures jobs
]

unfoldable pub summarise_jobs : List JobReply → JobsSummary
summarise_jobs jobs = record {
  total = length jobs;
  pending = count_if is_unknown jobs;
  running = count_if (status_is "running") jobs;
  done = count_if (status_is "done") jobs;
  failed = count_if (status_is "failed") jobs;
  errors = failures jobs;
}

abbrev pub is_active : JobReply → Bool
is_active j = status_is "pending" j || status_is "running" j

unfoldable pub active_job_ids : List JobReply → List ℕ
active_job_ids jobs = map (λ (j : JobReply). j.id) (select is_active jobs)

pub record Move : Type 0 where
  pub target : AlertStatus
  pub label : String
  pub help : String
  pub primary : Bool

unfoldable pub all_moves : List Move
all_moves =
    record {
      target = acknowledged;
      label = "Acknowledge";
      help = "I've seen this and I'm looking into it.";
      primary = false;
    }
    ∷ record {
      target = resolved;
      label = "Mark resolved";
      help = "This was a real threat and it's been dealt with.";
      primary = true;
    }
    ∷ record {
      target = false_positive;
      label = "Mark as false positive";
      help = "This message is fine; Heron got it wrong.";
      primary = false;
    }
    ∷ record {
      target = open_alert;
      label = "Reopen";
      help = "Put this back in the open list.";
      primary = false;
    }
    ∷ []

-- AlertStatus(status): `none` if it raises ValueError.
abbrev pub status_of : String → Option AlertStatus
status_of s =
    if str_eq s "open"
    then some open_alert
    else if str_eq s "acknowledged"
    then some acknowledged
    else if str_eq s "resolved"
    then some resolved
    else if str_eq s "false_positive"
    then some false_positive
    else none

unfoldable pub available_moves : String → List Move
unfolding all_moves
available_moves status = elim (status_of status) [
  | none ↦ []
  | some current ↦ select (λ (m : Move). can_transition current m.target) all_moves
]
