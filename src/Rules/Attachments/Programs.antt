-- ===== src/Rules/Attachments/Programs.antt =====
-- What the attachment rule says of programs, src/heron/rules/attachments.py.
use heron_mail.Prelude.{
  Bool, Bool-cases, Option, String, ap₂, arith, count_if, count_if-append, if◌then◌else◌, inl, inr,
  none, refl, some, str_eq, true, ◌++◌, ◌+◌, ◌||◌, ◌∙◌, ◌≡◌,
}
use heron_mail.Email.{AttachmentInfo, extension, extensions}
use heron_mail.Rules.{Finding}
use heron_mail.Rules.Attachments.{
  archive_extensions, attachment_finding, bidi_findings, check_one, disk_image_extensions,
  document_looking_extensions, hides_direction, html_extensions, is_declared_executable,
  is_executable, kind_findings, macro_extensions, program_finding, program_findings, second_last,
}
use heron_mail.Strings.{Unicode}
use heron_mail.Text.{has_text}

-- A finding that calls the attachment a program.
abbrev pub names_program : Finding → Bool
names_program f =
    str_eq f.rule_id "attachment.double_extension" || str_eq f.rule_id "attachment.executable"

module _ (unicode : Unicode) where
  program_finding_named :
      (a : AttachmentInfo) (looks : Option String)
      → names_program (program_finding unicode a looks) ≡ true
  unfolding program_finding attachment_finding
  program_finding_named a none = refl
  program_finding_named a (some looks) =
      elim (Bool-cases (has_text looks document_looking_extensions)) [
        | inl e ↦ rw e refl
        | inr e ↦ rw e refl
      ]

  bidi_unnamed : (a : AttachmentInfo) → count_if names_program (bidi_findings unicode a) ≡ 0
  unfolding bidi_findings attachment_finding
  bidi_unnamed a = elim (Bool-cases (hides_direction a)) [ inl e ↦ rw e refl | inr e ↦ rw e refl ]

  kind_unnamed : (a : AttachmentInfo) → count_if names_program (kind_findings unicode a) ≡ 0
  unfolding kind_findings attachment_finding
  kind_unnamed a = elim (Bool-cases (has_text (extension unicode a) macro_extensions)) [
    | inl e ↦ rw e refl
    | inr e ↦ elim (Bool-cases (has_text (extension unicode a) disk_image_extensions)) [
      | inl e2 ↦ rw (e, e2) refl
      | inr e2 ↦ elim (Bool-cases (has_text (extension unicode a) html_extensions)) [
        | inl e3 ↦ rw (e, e2, e3) refl
        | inr e3 ↦ elim (Bool-cases (has_text (extension unicode a) archive_extensions)) [
          | inl e4 ↦ rw (e, e2, e3, e4) refl
          | inr e4 ↦ rw (e, e2, e3, e4) refl
        ]
      ]
    ]
  ]

  programs_named :
      (a : AttachmentInfo)
      → count_if names_program (program_findings unicode a)
        ≡ (if is_executable unicode a then 1 else 0)
  unfolding program_findings attachment_finding
  programs_named a = elim (Bool-cases (is_executable unicode a)) [
    | inl e ↦ rw (e, program_finding_named a (second_last (extensions unicode a)))
    | inr e ↦ elim (Bool-cases (is_declared_executable a)) [
      | inl e2 ↦ rw (e, e2) refl
      | inr e2 ↦ rw (e, e2) refl
    ]
  ]

  -- An attachment that is executable gets exactly one of the two findings that call it a program, and any
  -- other attachment gets neither.
  pub check_one_programs :
      (a : AttachmentInfo)
      → count_if names_program (check_one unicode a) ≡ (if is_executable unicode a then 1 else 0)
  unfolding check_one
  check_one_programs a =
      let bidi = bidi_findings unicode a in
      let programs = program_findings unicode a in
      count_if-append names_program (bidi ++ programs) (kind_findings unicode a)
      ∙ ap₂ (λ m n. m + n)
          (count_if-append names_program bidi programs
            ∙ ap₂ (λ m n. m + n) (bidi_unnamed a) (programs_named a))
          (kind_unnamed a)
      ∙ omega arith
