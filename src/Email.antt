-- ===== src/Email.antt =====
-- The records of src/heron/analysis/parser.py and src/heron/analysis/extractor.py that the rules read.
use mathlib.Core.List.{head?}
use heron_mail.Prelude.{
  Bool, List, Option, String, [], drop, if◌then◌else◌, map, none, not, select, some, str_eq, ℕ,
  ◌||◌,
}
use heron_mail.Strings.{
  Unicode, after_last, has_char, is_empty, last_or, same_char, split, strip_of,
}

pub record Address : Type 0 where
  pub display_name : String
  pub address : String

pub record AttachmentInfo : Type 0 where
  pub filename : Option String
  pub content_type : String
  pub size : ℕ
  pub sha256 : String
  pub disposition : Option String
  pub content_id : Option String

pub record ParsedEmail : Type 0 where
  pub subject : String
  pub from_addresses : List Address
  pub reply_to : List Address
  pub to : List Address
  pub cc : List Address
  pub return_path : Option Address
  pub message_id : Option String
  pub date_header : Option String
  -- every header, in order, decoded
  pub headers : List (String × String)
  pub body_text : String
  pub body_html : String
  pub body_truncated : Bool
  pub attachments : List AttachmentInfo
  pub defects : List String

pub record ExtractedUrl : Type 0 where
  pub url : String
  pub scheme : String
  pub host : String
  pub ip : Option String
  pub has_userinfo : Bool
  pub sources : List String
  pub link_texts : List String

pub record ExtractedIp : Type 0 where
  pub address : String
  pub sources : List String
  pub is_global : Bool

pub record ExtractedDomain : Type 0 where
  pub domain : String
  pub sources : List String

pub record ExtractedHash : Type 0 where
  pub algorithm : String
  pub value : String
  pub sources : List String
  pub filenames : List String

pub record Iocs : Type 0 where
  pub urls : List ExtractedUrl
  pub ips : List ExtractedIp
  pub domains : List ExtractedDomain
  pub hashes : List ExtractedHash
  pub truncated : Bool

-- `self.address.rpartition("@")[2] if "@" in self.address else ""`
unfoldable pub domain : Address → String
unfolding has_char after_last
domain a = if has_char "@" a.address then after_last "@" a.address else ""

unfoldable pub from_address : ParsedEmail → Option Address
from_address email = head? email.from_addresses

module _ (unicode : Unicode) where
  unfoldable pub header_values : String → ParsedEmail → List String
  header_values name email =
      map (λ (h : String × String). h.1)
        (select (λ (h : String × String). str_eq (unicode.lower h.0) (unicode.lower name))
          email.headers)

  -- The extensions of a file name that is given.
  unfoldable pub suffixes_of : String → List String
  unfolding strip_of has_char split is_empty
  suffixes_of name =
      let bare = strip_of (same_char ".") name in
      if is_empty name || not (has_char "." bare)
      then []
      else drop 1 (split "." (unicode.lower bare))

  unfoldable pub extensions : AttachmentInfo → List String
  unfolding suffixes_of
  extensions a = elim a.filename [ none ↦ [] | some name ↦ suffixes_of name ]

  -- `self.extensions[-1] if self.extensions else ""`
  unfoldable pub extension : AttachmentInfo → String
  unfolding extensions
  extension a = last_or "" (extensions a)
