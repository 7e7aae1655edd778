-- ===== src/Rules/Attachments.antt =====
-- src/heron/rules/attachments.py: the attachment rule. The sets of extensions are lists, in the order of the source.
pub mod Programs
pub mod Names
use Prim.Native.Char.{Char, code}
use heron_mail.Prelude.{
  Bool, List, Option, String, [], any, false, if◌then◌else◌, is_some, leb, ltb, none, not, some,
  take, ℕ, ◌%◌, ◌&&◌, ◌++◌, ◌/◌, ◌==◌, ◌||◌, ◌∷◌,
}
use heron_mail.Email.{AttachmentInfo, extension, extensions}
use heron_mail.Rules.{Finding, RuleContext, Severity, high, low, medium}
use heron_mail.Strings.{Unicode}
use heron_mail.Text.{chars, concat, from_chars, has_text}

abbrev pub executable_extensions : List String
executable_extensions =
    "exe" ∷ "scr" ∷ "com" ∷ "pif" ∷ "bat" ∷ "cmd" ∷ "msi" ∷ "msp" ∷ "js" ∷ "jse" ∷ "vbs" ∷ "vbe"
    ∷ "wsf" ∷ "wsh" ∷ "ps1" ∷ "psm1" ∷ "jar" ∷ "hta" ∷ "lnk" ∷ "cpl" ∷ "reg" ∷ "dll" ∷ "sys" ∷ "inf"
    ∷ "scf" ∷ "chm" ∷ "gadget" ∷ "url" ∷ []

abbrev pub document_looking_extensions : List String
document_looking_extensions =
    "pdf" ∷ "doc" ∷ "docx" ∷ "xls" ∷ "xlsx" ∷ "ppt" ∷ "pptx" ∷ "txt" ∷ "rtf" ∷ "csv" ∷ "jpg"
    ∷ "jpeg" ∷ "png" ∷ "gif" ∷ []

abbrev pub macro_extensions : List String
macro_extensions = "docm" ∷ "xlsm" ∷ "pptm" ∷ "dotm" ∷ "xltm" ∷ "xlam" ∷ "xlsb" ∷ []

abbrev pub disk_image_extensions : List String
disk_image_extensions = "iso" ∷ "img" ∷ "vhd" ∷ "vhdx" ∷ []

abbrev pub html_extensions : List String
html_extensions = "html" ∷ "htm" ∷ "shtml" ∷ "xhtml" ∷ []

abbrev pub archive_extensions : List String
archive_extensions = "zip" ∷ "rar" ∷ "7z" ∷ "gz" ∷ "tgz" ∷ "tar" ∷ "cab" ∷ "z" ∷ "bz2" ∷ "xz" ∷ []

abbrev pub executable_content_types : List String
executable_content_types =
    "application/x-msdownload" ∷ "application/x-dosexec" ∷ "application/x-msdos-program"
    ∷ "application/vnd.microsoft.portable-executable" ∷ "application/x-executable" ∷ []

abbrev pub max_attachments_checked : ℕ
max_attachments_checked = 20

-- `char in _BIDI_CONTROLS`
unfoldable pub is_bidi_control : Char → Bool
is_bidi_control c =
    let n = code c in
    n == 0x200e || n == 0x200f || (leb 0x202a n && leb n 0x202e) || (leb 0x2066 n && leb n 0x2069)

-- `ord` of a character in base 16, with at least four digits.
unfoldable pub hex_digit : ℕ → String
hex_digit n =
    if n == 0
    then "0"
    else if n == 1
    then "1"
    else if n == 2
    then "2"
    else if n == 3
    then "3"
    else if n == 4
    then "4"
    else if n == 5
    then "5"
    else if n == 6
    then "6"
    else if n == 7
    then "7"
    else if n == 8
    then "8"
    else if n == 9
    then "9"
    else if n == 10
    then "a"
    else if n == 11
    then "b"
    else if n == 12
    then "c"
    else if n == 13
    then "d"
    else if n == 14
    then "e"
    else "f"

-- A character has at most six digits.
unfoldable pub hex4 : ℕ → String
unfolding hex_digit
hex4 n =
    let low =
      hex_digit (n / 4096 % 16)
      ∷ hex_digit (n / 256 % 16)
      ∷ hex_digit (n / 16 % 16)
      ∷ hex_digit (n % 16)
      ∷ [] in
    concat (
      if ltb n 65536
      then low
      else if ltb n 1048576
      then hex_digit (n / 65536) ∷ low
      else "1" ∷ hex_digit (n / 65536 % 16) ∷ low)

abbrev pub is_declared_executable : AttachmentInfo → Bool
is_declared_executable a = has_text a.content_type executable_content_types

-- `a.filename and any(char in _BIDI_CONTROLS for char in a.filename)`
unfoldable pub hides_direction : AttachmentInfo → Bool
unfolding is_bidi_control
hides_direction a = elim a.filename [ none ↦ false | some name ↦ any is_bidi_control (chars name) ]

-- `len(extensions) >= 2` and `extensions[-2]`.
unfoldable pub second_last : List String → Option String
second_last [] = none
second_last (x ∷ []) = none
second_last (x ∷ y ∷ []) = some x
second_last (x ∷ y ∷ z ∷ zs) = second_last (y ∷ z ∷ zs)

module _ (unicode : Unicode) where
  -- The characters of a file name, the invisible ones written out.
  unfoldable pub written_out : List Char → List String
  unfolding is_bidi_control hex4
  written_out [] = []
  written_out (c ∷ cs) =
      (if is_bidi_control c || not (unicode.is_printable c)
        then concat ("\\u" ∷ hex4 (code c) ∷ [])
        else from_chars (c ∷ []))
      ∷ written_out cs

  unfoldable pub safe_name : Option String → String
  unfolding written_out
  safe_name none = "(no file name)"
  safe_name (some name) = concat (written_out (chars name))

  -- `_finding`
  unfoldable pub attachment_finding : String → Severity → String → String → AttachmentInfo → Finding
  unfolding safe_name
  attachment_finding kind severity title detail a = record {
    rule_id = concat ("attachment." ∷ kind ∷ []);
    severity = severity;
    title = title;
    detail = detail;
    evidence =
        concat ("file: " ∷ safe_name a.filename ∷ [])
        ∷ concat ("type: " ∷ a.content_type ∷ [])
        ∷ [];
  }

  unfoldable pub is_executable : AttachmentInfo → Bool
  unfolding extension
  is_executable a =
      has_text (extension unicode a) executable_extensions
      || (not (is_some a.filename) && is_declared_executable a)

  executable_finding : AttachmentInfo → Finding
  executable_finding a =
      attachment_finding "executable" high "Executable attachment"
        "This attachment is a program or script that runs code when opened." a

  -- The finding on an executable attachment, by the extension before the last.
  unfoldable pub program_finding : AttachmentInfo → Option String → Finding
  unfolding executable_finding extension attachment_finding
  program_finding a none = executable_finding a
  program_finding a (some looks) =
      if has_text looks document_looking_extensions
      then attachment_finding "double_extension" high "Program disguised as a document"
          (concat (
            "The file name ends in two extensions (."
            ∷ looks
            ∷ "."
            ∷ extension unicode a
            ∷ ") so a program looks like a document."
            ∷ []))
          a
      else executable_finding a

  unfoldable pub bidi_findings : AttachmentInfo → List Finding
  unfolding hides_direction attachment_finding
  bidi_findings a =
      if hides_direction a
      then attachment_finding "bidi_filename" high
          "Attachment name uses hidden text-direction characters"
          "The file name contains invisible characters that disguise its real extension." a
        ∷ []
      else []

  unfoldable pub program_findings : AttachmentInfo → List Finding
  unfolding is_executable program_finding second_last extensions attachment_finding
  program_findings a =
      if is_executable a
      then program_finding a (second_last (extensions unicode a)) ∷ []
      else if is_declared_executable a
      then attachment_finding "type_mismatch" medium "Attachment type doesn't match its name"
          "The file name looks harmless but the message declares it to be a Windows program." a
        ∷ []
      else []

  unfoldable pub kind_findings : AttachmentInfo → List Finding
  unfolding extension attachment_finding
  kind_findings a =
      let last = extension unicode a in
      if has_text last macro_extensions
      then attachment_finding "macro_document" medium "Macro-enabled Office file"
          "This Office file can contain macros, a common way to deliver malware." a
        ∷ []
      else if has_text last disk_image_extensions
      then attachment_finding "disk_image" medium "Disk image attachment"
          "Disk images are used to slip files past download protections." a
        ∷ []
      else if has_text last html_extensions
      then attachment_finding "html_file" medium "HTML attachment"
          "An HTML attachment can show a fake login page that runs from your own computer." a
        ∷ []
      else if has_text last archive_extensions
      then attachment_finding "archive" low "Archive attachment"
          "Archives can hide other files from scanners; check what is inside before opening." a
        ∷ []
      else []

  -- `_check_one`
  unfoldable pub check_one : AttachmentInfo → List Finding
  unfolding bidi_findings program_findings kind_findings
  check_one a = bidi_findings a ++ program_findings a ++ kind_findings a

  unfoldable pub check_each : List AttachmentInfo → List Finding
  check_each [] = []
  check_each (a ∷ rest) = check_one a ++ check_each rest

  unfoldable pub check_attachments : RuleContext → List Finding
  unfolding check_each check_one
  check_attachments ctx = check_each (take max_attachments_checked ctx.email.attachments)
