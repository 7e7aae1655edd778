-- ===== src/Pages/Facts.antt =====
-- What the pages offer and count.
use heron_mail.Prelude.{
  List, Option, String, [], any, arith, eq_iff, false, none, refl, some, str_eq, subst, sym, true,
  ◌+◌, ◌∷◌, ◌≡◌,
}
use heron_mail.Alerts.{
  AlertStatus, acknowledged, can_transition, false_positive, open_alert, resolved, status_value,
}
use heron_mail.Analyses.{alert_status_eq}
use heron_mail.Collector.Tests.{target}
use heron_mail.Pages.{JobReply, Move, available_moves, is_text, summarise_jobs}

-- A button for a target stands on the page of an alert exactly if the server allows that move.
pub available_moves-can_transition :
    (current target : AlertStatus)
    → any (λ (m : Move). alert_status_eq m.target target) (available_moves (status_value current))
      ≡ can_transition current target
unfolding available_moves can_transition
available_moves-can_transition open_alert target = ground arith
available_moves-can_transition acknowledged target = ground arith
available_moves-can_transition resolved target = ground arith
available_moves-can_transition false_positive target = ground arith

-- One text is not two.
apart :
    (o : Option String) (s t : String)
    → str_eq s t ≡ false
    → is_text s o ≡ true
    → is_text t o ≡ false
apart none s t differ e = cc
apart (some u) s t differ e = subst (λ x. str_eq x t ≡ false) (sym ((eq_iff u s).0 e)) differ

-- Every job, whatever its status, is counted once: as pending, running, done or failed.
pub summarise_jobs_total :
    (jobs : List JobReply)
    → (summarise_jobs jobs).total
      ≡ (summarise_jobs jobs).pending
        + (summarise_jobs jobs).running
        + (summarise_jobs jobs).done
        + (summarise_jobs jobs).failed
unfolding summarise_jobs
summarise_jobs_total [] = refl
summarise_jobs_total (j ∷ jobs) = ground (
  arith,
  summarise_jobs_total jobs,
  apart j.status "running" "done" refl,
  apart j.status "running" "failed" refl,
  apart j.status "done" "failed" refl,
)
