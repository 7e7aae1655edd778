-- ===== src/Scoring/Points.antt =====
-- What `_score_findings` adds up to: each rule id scores once, with its most severe finding.
use mathlib.Core.List.{Perm}
use mathlib.Core.List.Perm
use heron_mail.Prelude.{
  All, All-sort_with, Bool, Bool-cases, IsSortedDescBy, List, String, [], ap, arith, descending,
  eq_iff, false, if◌then◌else◌, inl, inr, insert_with, ltb, map, refl, select, sort_desc_by,
  sort_desc_by-IsSortedDescBy, sort_with, sort_with-perm, str_eq, subst, sym, true, ℕ, ◌∙◌, ◌∷◌,
  ◌≡◌, ◌≤◌,
}
use heron_mail.Rules.{Finding, Severity, info, level, severity_of}
use heron_mail.Scoring.{Reason, ScoringConfig, mark, points, points_of, score_findings, total}
use heron_mail.Text.{has_text}

-- The more severe of two, the first if they are as severe.
pub stronger : Severity → Severity → Severity
stronger a b = if ltb (level a) (level b) then b else a

-- The most severe finding of a rule id, `info` if it has none.
unfoldable pub strongest : String → List Finding → Severity
strongest id [] = info
strongest id (f ∷ fs) =
    if str_eq f.rule_id id then stronger f.severity (strongest id fs) else strongest id fs

-- The points that the reasons of one rule id have together.
abbrev pub points_from : String → List Reason → ℕ
points_from id reasons = total (select (λ (r : Reason). str_eq r.rule_id id) reasons)

stronger_swap : (a b c : Severity) → stronger a (stronger b c) ≡ stronger b (stronger a c)
unfolding stronger
stronger_swap a b c = ground arith

strongest-insert :
    (id : String) (before : Finding → Finding → Bool) (f : Finding) (fs : List Finding)
    → strongest id (insert_with before f fs) ≡ strongest id (f ∷ fs)
unfolding strongest
strongest-insert id before f [] = refl
strongest-insert id before f (g ∷ fs) = elim (Bool-cases (before f g)) [
  | inl e ↦ rw e
  | inr e ↦
      rw (e, strongest-insert id before f fs) (both (str_eq f.rule_id id) (str_eq g.rule_id id))
]
  where
    both :
        (p q : Bool)
        → (if q
            then stronger g.severity
                (if p then stronger f.severity (strongest id fs) else strongest id fs)
            else (if p then stronger f.severity (strongest id fs) else strongest id fs))
          ≡ (if p
              then stronger f.severity
                  (if q then stronger g.severity (strongest id fs) else strongest id fs)
              else (if q then stronger g.severity (strongest id fs) else strongest id fs))
    both true true = stronger_swap g.severity f.severity (strongest id fs)
    both true false = refl
    both false true = refl
    both false false = refl

strongest-sort :
    (id : String) (before : Finding → Finding → Bool) (fs : List Finding)
    → strongest id (sort_with before fs) ≡ strongest id fs
unfolding strongest
strongest-sort id before [] = refl
strongest-sort id before (f ∷ fs) =
    strongest-insert id before f (sort_with before fs)
    ∙ ap (λ s. if str_eq f.rule_id id then stronger f.severity s else s)
        (strongest-sort id before fs)

-- The first finding of a rule id.
abbrev first_severity : String → List Finding → Severity
first_severity id [] = info
first_severity id (f ∷ fs) = if str_eq f.rule_id id then f.severity else first_severity id fs

strongest-le :
    (id : String) (n : ℕ) (fs : List Finding)
    → All (λ g. severity_of g ≤ n) fs
    → level (strongest id fs) ≤ n
unfolding strongest stronger
strongest-le id n [] h = omega arith
strongest-le id n (f ∷ fs) h = ground (arith, strongest-le id n fs h.1, h.0)

-- In the order in which the findings are marked, the first of a rule id is its most severe one.
first_severity_sorted :
    (id : String) (fs : List Finding)
    → IsSortedDescBy severity_of fs
    → first_severity id fs ≡ strongest id fs
unfolding strongest stronger
first_severity_sorted id [] h = refl
first_severity_sorted id (f ∷ fs) h =
    ground (arith, first_severity_sorted id fs h.1, strongest-le id (severity_of f) fs h.0)

points_from-mark :
    (config : ScoringConfig) (id : String) (scored : List String) (fs : List Finding)
    → points_from id (mark config scored fs)
      ≡ (if has_text id scored then 0 else points config (first_severity id fs))
unfolding mark
points_from-mark config id scored [] = (unfold points in ground arith)
points_from-mark config id scored (f ∷ fs) =
    ground (arith, points_from-mark config id (f.rule_id ∷ scored) fs, eq_iff f.rule_id id)

total-select-insert :
    (p : Reason → Bool) (before : Reason → Reason → Bool) (r : Reason) (rs : List Reason)
    → total (select p (insert_with before r rs)) ≡ total (select p (r ∷ rs))
total-select-insert p before r [] = refl
total-select-insert p before r (s ∷ rs) = elim (Bool-cases (before r s)) [
  | inl e ↦ rw e
  | inr e ↦ rw e (ground (arith, total-select-insert p before r rs))
]

total-select-sort :
    (p : Reason → Bool) (before : Reason → Reason → Bool) (rs : List Reason)
    → total (select p (sort_with before rs)) ≡ total (select p rs)
total-select-sort p before [] = refl
total-select-sort p before (r ∷ rs) =
    total-select-insert p before r (sort_with before rs)
    ∙ ground (arith, total-select-sort p before rs)

-- All findings of one rule id together score the points of the most severe of them, however many
-- there are and in whatever order they were found.
pub score_findings_by_rule :
    (findings : List Finding) (config : ScoringConfig) (id : String)
    → points_from id (score_findings findings config) ≡ points config (strongest id findings)
unfolding score_findings
score_findings_by_rule findings config id =
    let ranked = sort_desc_by severity_of findings in
    total-select-sort (λ (r : Reason). str_eq r.rule_id id) (descending points_of)
      (mark config [] ranked)
    ∙ points_from-mark config id [] ranked
    ∙ ap (points config) (
        first_severity_sorted id ranked (sort_desc_by-IsSortedDescBy severity_of findings)
        ∙ strongest-sort id (descending severity_of) findings)

-- The finding that a reason was made from.
abbrev pub finding_of : Reason → Finding
finding_of r = record {
  rule_id = r.rule_id;
  severity = r.severity;
  title = r.title;
  detail = r.detail;
  evidence = r.evidence;
}

map-mark :
    (config : ScoringConfig) (scored : List String) (fs : List Finding)
    → map finding_of (mark config scored fs) ≡ fs
unfolding mark
map-mark config scored [] = refl
map-mark config scored (f ∷ fs) = ap (λ l. f ∷ l) (map-mark config (f.rule_id ∷ scored) fs)

-- Every finding becomes one reason, and the reasons stand with the largest contribution first.
pub score_findings-perm :
    (findings : List Finding) (config : ScoringConfig)
    → Perm (map finding_of (score_findings findings config)) findings
      × IsSortedDescBy points_of (score_findings findings config)
unfolding score_findings
score_findings-perm findings config =
    let ranked = sort_desc_by severity_of findings in
    (
      Perm.trans
          (subst (Perm (map finding_of (sort_desc_by points_of (mark config [] ranked))))
            (map-mark config [] ranked)
            (Perm.map finding_of (sort_with-perm (descending points_of) (mark config [] ranked))))
          (sort_with-perm (descending severity_of) findings),
      sort_desc_by-IsSortedDescBy points_of (mark config [] ranked),
    )

-- Where all findings are of one rule id, the total is what that rule scores.
total-select_every :
    (p : Reason → Bool) (rs : List Reason)
    → All (λ r. p r ≡ true) rs
    → total (select p rs) ≡ total rs
total-select_every p [] h = refl
total-select_every p (r ∷ rs) h = rw h.0 (omega (arith, total-select_every p rs h.1))

mark_of :
    (config : ScoringConfig) (scored : List String) (id : String) (fs : List Finding)
    → All (λ (f : Finding). f.rule_id ≡ id) fs
    → All (λ r. str_eq r.rule_id id ≡ true) (mark config scored fs)
unfolding mark
mark_of config scored id [] h = tt
mark_of config scored id (f ∷ fs) h =
    ((eq_iff f.rule_id id).1 h.0, mark_of config (f.rule_id ∷ scored) id fs h.1)

pub total_of_one_rule :
    (findings : List Finding) (config : ScoringConfig) (id : String)
    → All (λ (f : Finding). f.rule_id ≡ id) findings
    → total (score_findings findings config) ≡ points config (strongest id findings)
total_of_one_rule findings config id h =
    sym (
      total-select_every (λ (r : Reason). str_eq r.rule_id id) (score_findings findings config)
        (unfold score_findings in
          All-sort_with (descending points_of) (λ r. str_eq r.rule_id id ≡ true) _
            (mark_of config [] id _ (
              All-sort_with (descending severity_of) (λ (f : Finding). f.rule_id ≡ id) findings
                h))))
    ∙ score_findings_by_rule findings config id
