-- ===== src/Rules/LinkText/Mismatches.antt =====
-- When the link rule finds something, src/heron/rules/link_text.py.
use heron_mail.Prelude.{
  All, Bool, Bool-cases, List, Option, String, [], any, ap, arith, false, if◌then◌else◌, inl, inr,
  length, ltb, ltb→lt, or_assoc, or_false, refl, subst, suc, sym, true, ◌&&◌, ◌++◌, ◌||◌, ◌∙◌, ◌∷◌,
  ◌≡◌, ◌≤◌,
}
use heron_mail.Result.{Result, bind-ok, err, ok, ok-injective, ◌>>=◌}
use heron_mail.Email.{ExtractedUrl}
use heron_mail.Rules.{Finding, RuleContext, Severity, high, medium}
use heron_mail.Rules.LinkText.{
  LinkState, check_link_text, check_text, check_texts, check_urls, evidence_line,
  is_dangerous_target, link_findings, misleads, note_mismatch, shown_host,
}
use heron_mail.Strings.{Unicode}

and_or : (a b d : Bool) → ((a && d) || (b && d)) ≡ ((a || b) && d)
and_or a b d = ground arith

length-snoc : {A : Type 0} (xs : List A) (x : A) → length (xs ++ x ∷ []) ≡ suc (length xs)
length-snoc [] x = refl
length-snoc (y ∷ xs) x = ap suc (length-snoc xs x)

abbrev pub is_high : Severity → Bool
is_high high = true
is_high s = false

-- What a run of the loop from one state to another has done: whether it found a text that shows another
-- site, and one of a dangerous link.
record Ran (other dangerous : Bool) (s t : LinkState) : Type 0 where
  few : length s.evidence ≤ 5 → length t.evidence ≤ 5
  some_line : ltb 0 (length t.evidence) ≡ (ltb 0 (length s.evidence) || other)
  severe : is_high t.severity ≡ (is_high s.severity || dangerous)

Ran-none : (s : LinkState) → Ran false false s s
Ran-none s = record {
  few = λ h. h;
  some_line = or_false (ltb 0 (length s.evidence));
  severe = or_false (is_high s.severity);
}

Ran-then :
    (a b c d : Bool) (s t u : LinkState) → Ran a b s t → Ran c d t u → Ran (a || c) (b || d) s u
Ran-then a b c d s t u h k = record {
  few = λ l. k.few (h.few l);
  some_line = k.some_line ∙ ap (λ x. x || c) h.some_line ∙ or_assoc (ltb 0 (length s.evidence)) a c;
  severe = k.severe ∙ ap (λ x. x || d) h.severe ∙ or_assoc (is_high s.severity) b d;
}

Ran-noted :
    (text : String) (url : ExtractedUrl) (s : LinkState)
    → Ran true (is_dangerous_target url) s (note_mismatch text url s)
unfolding note_mismatch
Ran-noted text url s =
    let n = length-snoc s.evidence (evidence_line text url) in
    record {
      few = λ h. elim (Bool-cases (ltb (length s.evidence) 5)) [
        | inl e ↦ rw e (omega (arith, n, ltb→lt _ _ e))
        | inr e ↦ rw e h
      ];
      some_line = elim (Bool-cases (ltb (length s.evidence) 5)) [
        | inl e ↦ rw (e, n) (ground arith)
        | inr e ↦ rw e (ground arith)
      ];
      severe = elim (Bool-cases (is_dangerous_target url)) [
        | inl e ↦ rw e (ground arith)
        | inr e ↦ rw e (or_false (is_high s.severity))
      ];
    }

module _ (unicode : Unicode) (hostname : String → Result (Option String)) where
  abbrev pub differs : ExtractedUrl → Result (Option String) → Bool
  differs url (ok shown) = misleads unicode hostname shown url
  differs url (err e) = false

  -- The text of a link shows another site than the link leads to.
  abbrev pub shows_other : ExtractedUrl → String → Bool
  shows_other url text = differs url (shown_host unicode hostname text)

  abbrev pub has_mismatch : ExtractedUrl → Bool
  has_mismatch url = any (shows_other url) url.link_texts

  abbrev pub has_dangerous_mismatch : ExtractedUrl → Bool
  has_dangerous_mismatch url = has_mismatch url && is_dangerous_target url

  Ran-text :
      (url : ExtractedUrl) (text : String) (s t : LinkState)
      → check_text unicode hostname url text s ≡ ok t
      → Ran (shows_other url text) (shows_other url text && is_dangerous_target url) s t
  unfolding check_text
  Ran-text url text s t e = one (shown_host unicode hostname text) e
    where
      one :
          (r : Result (Option String))
          → (r >>= λ shown.
              ok (if misleads unicode hostname shown url then note_mismatch text url s else s))
            ≡ ok t
          → Ran (differs url r) (differs url r && is_dangerous_target url) s t
      one (err x) h = cc
      one (ok shown) h = elim (Bool-cases (misleads unicode hostname shown url)) [
        | inl m ↦
            subst
              (λ l.
                Ran (misleads unicode hostname shown url)
                  (misleads unicode hostname shown url && is_dangerous_target url) s l)
              (ok-injective _ _ h) (rw m (Ran-noted text url s))
        | inr m ↦
            subst
              (λ l.
                Ran (misleads unicode hostname shown url)
                  (misleads unicode hostname shown url && is_dangerous_target url) s l)
              (ok-injective _ _ h) (rw m (Ran-none s))
      ]

  Ran-texts :
      (url : ExtractedUrl) (texts : List String) (s t : LinkState)
      → check_texts unicode hostname url texts s ≡ ok t
      → Ran
          (any (shows_other url) texts)
          (any (shows_other url) texts && is_dangerous_target url)
          s
          t
  unfolding check_texts
  Ran-texts url [] s t e = subst (Ran false false s) (ok-injective _ _ e) (Ran-none s)
  Ran-texts url (text ∷ texts) s t e =
      let (u, h, k) =
        bind-ok (check_text unicode hostname url text s) (check_texts unicode hostname url texts) t
          e in
      let here = shows_other url text in
      let later = any (shows_other url) texts in
      subst (λ d. Ran (here || later) d s t) (and_or here later (is_dangerous_target url))
        (Ran-then _ _ _ _ s u t (Ran-text url text s u h) (Ran-texts url texts u t k))

  Ran-urls :
      (urls : List ExtractedUrl) (s t : LinkState)
      → check_urls unicode hostname urls s ≡ ok t
      → Ran (any has_mismatch urls) (any has_dangerous_mismatch urls) s t
  unfolding check_urls
  Ran-urls [] s t e = subst (Ran false false s) (ok-injective _ _ e) (Ran-none s)
  Ran-urls (url ∷ urls) s t e =
      let (u, h, k) =
        bind-ok (check_texts unicode hostname url url.link_texts s)
          (check_urls unicode hostname urls) t e in
      Ran-then _ _ _ _ s u t (Ran-texts url url.link_texts s u h) (Ran-urls urls u t k)

  -- What the rule reports of the links of a message.
  pub record Reports (urls : List ExtractedUrl) (findings : List Finding) : Type 0 where
    pub one : length findings ≡ (if any has_mismatch urls then 1 else 0)
    pub severe :
        any (λ (f : Finding). is_high f.severity) findings ≡ any has_dangerous_mismatch urls
    pub few : All (λ (f : Finding). length f.evidence ≤ 5) findings

  dangerous_mismatch :
      (urls : List ExtractedUrl)
      → any has_mismatch urls ≡ false
      → any has_dangerous_mismatch urls ≡ false
  dangerous_mismatch [] h = refl
  dangerous_mismatch (url ∷ urls) h = ground (arith, dangerous_mismatch urls)

  reports :
      (urls : List ExtractedUrl) (lines : List String) (severity : Severity)
      → Ran
          (any has_mismatch urls)
          (any has_dangerous_mismatch urls)
          (record { evidence = []; severity = medium })
          (record { evidence = lines; severity = severity })
      → Reports urls (link_findings (record { evidence = lines; severity = severity }))
  unfolding link_findings
  reports urls [] severity r = record {
    one = rw (sym r.some_line);
    severe = sym (dangerous_mismatch urls (sym r.some_line));
    few = tt;
  }
  reports urls (line ∷ lines) severity r =
      let found : any has_mismatch urls ≡ true = sym r.some_line ∙ ground arith in
      record {
        one = rw found;
        severe = sym (or_false (is_high severity)) ∙ r.severe;
        few = (r.few (omega arith), tt);
      }

  -- Where the rule does not raise, it reports one finding if some link's text shows another site than the
  -- link leads to, and none otherwise; the finding is of high severity exactly if such a link has a
  -- dangerous target, wherever it stands in the message, and it shows at most five of them.
  pub check_link_text-Reports :
      (ctx : RuleContext) (findings : List Finding)
      → check_link_text unicode hostname ctx ≡ ok findings
      → Reports ctx.iocs.urls findings
  unfolding check_link_text link_findings
  check_link_text-Reports ctx findings e =
      let start : LinkState = record { evidence = []; severity = medium } in
      let (t, h, k) =
        bind-ok (check_urls unicode hostname ctx.iocs.urls start) (λ s. ok (link_findings s))
          findings e in
      subst (Reports ctx.iocs.urls) (ok-injective _ _ k)
        (reports ctx.iocs.urls t.evidence t.severity (Ran-urls ctx.iocs.urls start t h))
