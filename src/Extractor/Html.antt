-- ===== src/Extractor/Html.antt =====
-- `_HtmlCollector` of src/heron/analysis/extractor.py. html.parser calls its handlers: an event is a call.
use Prim.Native.Char.{Char, code}
use mathlib.Core.Option
use heron_mail.Prelude.{
  Bool, List, Option, String, [], any, drop, false, if◌then◌else◌, ltb, none, not, select, some,
  str_eq, suc, take, true, ℕ, ◌&&◌, ◌++◌, ◌-◌, ◌==◌, ◌||◌, ◌∷◌,
}
use heron_mail.Strings.{
  Unicode, begins, begins_any_case, is_empty, same_char, starts_with, strip, strip_left, until,
}
use heron_mail.Text.{chars, concat, from_chars, is_space, join}

pub data Event : Type 0 where
  start_tag : String → List (String × Option String) → Event
  end_tag : String → Event
  data_text : String → Event

pub record Link : Type 0 where
  pub target : String
  pub source : String
  pub text : Option String

pub record HtmlCollector : Type 0 where
  pub links : List Link
  -- `_text`
  pub pieces : List String
  pub skip_depth : ℕ
  pub anchor_target : Option String
  pub anchor_text : List String

abbrev pub new_collector : HtmlCollector
new_collector = record {
  links = [];
  pieces = [];
  skip_depth = 0;
  anchor_target = none;
  anchor_text = [];
}

abbrev pub visible_text : HtmlCollector → String
visible_text c = join " " c.pieces

abbrev pub href_tags : List String
href_tags = "a" ∷ "area" ∷ "link" ∷ "base" ∷ []

abbrev pub src_tags : List String
src_tags =
    "img" ∷ "iframe" ∷ "frame" ∷ "script" ∷ "embed" ∷ "source" ∷ "video" ∷ "audio" ∷ "track" ∷ []

abbrev pub allowed_schemes : List String
allowed_schemes = "http://" ∷ "https://" ∷ "ftp://" ∷ []

abbrev pub max_link_text : ℕ
max_link_text = 200

-- `[\t\r\n\x00]`
abbrev pub is_ignored : Char → Bool
is_ignored c = let n = code c in n == 9 || n == 13 || n == 10 || n == 0

-- re.sub(r"[\t\r\n\x00]", "", text).strip()
unfoldable pub cleaned : String → String
unfolding strip
cleaned s = strip (from_chars (select (λ c. not (is_ignored c)) (chars s)))

-- re.sub(r"\s+", " ", text); `inside` says that the character before was a space.
unfoldable pub one_space : Bool → List Char → List Char
one_space inside [] = []
one_space inside (c ∷ cs) =
    let after_space = one_space true cs in
    let after_other = one_space false cs in
    if is_space c then (if inside then after_space else " " ∷ after_space) else c ∷ after_other

-- `values.get(name)`: the last value that the tag gives to the name.
abbrev pub attribute : String → List (String × Option String) → Option String
attribute name [] = none
attribute name ((n, v) ∷ rest) = elim (attribute name rest) [
  | some found ↦ some found
  | none ↦ if str_eq n name then v else none
]

-- Not in `[^'\";\s]`.
abbrev pub ends_refresh : Char → Bool
ends_refresh c = same_char "'" c || same_char "\"" c || same_char ";" c || is_space c

abbrev pub without_quote : List Char → List Char
without_quote [] = []
without_quote (c ∷ cs) = if same_char "'" c || same_char "\"" c then cs else c ∷ cs

abbrev pub not_empty : List Char → Option (List Char)
not_empty [] = none
not_empty (c ∷ cs) = some (c ∷ cs)

-- The group of a match of `_META_REFRESH_RE` at the start.
unfoldable pub refresh_at : List Char → Option (List Char)
unfolding begins begins_any_case strip_left until
refresh_at cs =
    let rest = strip_left is_space (drop 3 cs) in
    if begins_any_case (chars "url") cs && begins (chars "=") rest
    then not_empty (until ends_refresh (without_quote (strip_left is_space (drop 1 rest))))
    else none

-- `_META_REFRESH_RE.search(text)`
unfoldable pub refresh_target : List Char → Option (List Char)
unfolding refresh_at
refresh_target [] = none
refresh_target (c ∷ cs) = elim (refresh_at (c ∷ cs)) [
  | some found ↦ some found
  | none ↦ refresh_target cs
]

abbrev pub some_text : String → Option String
some_text s = if is_empty s then none else some s

abbrev pub text_or_empty : Option String → String
text_or_empty none = ""
text_or_empty (some s) = s

abbrev pub is_hidden : String → Bool
is_hidden tag = str_eq tag "script" || str_eq tag "style"

module _ (unicode : Unicode) where
  unfoldable pub is_web_link : String → Bool
  unfolding cleaned starts_with
  is_web_link value =
      let lowered = unicode.lower (cleaned value) in
      any (λ s. starts_with s lowered) allowed_schemes || starts_with "www." lowered

  unfoldable pub add : String → String → Option String → HtmlCollector → HtmlCollector
  unfolding is_web_link strip
  add target source text c =
      if is_web_link target
      then record c {
        links = c.links ++ record { target = strip target; source = source; text = text } ∷ [];
      }
      else c

  -- The text of an anchor.
  unfoldable pub link_text : List String → String
  unfolding one_space strip
  link_text pieces =
      from_chars
        (take max_link_text (chars (strip (from_chars (one_space false (chars (concat pieces)))))))

  unfoldable pub finish_anchor : HtmlCollector → HtmlCollector
  unfolding add link_text is_empty
  finish_anchor c = elim c.anchor_target [
    | none ↦ c
    | some target ↦ record (add target "href" (some_text (link_text c.anchor_text)) c) {
      anchor_target = none;
      anchor_text = [];
    }
  ]

  -- `if href and _is_web_link(href): ...`
  abbrev pub begin_anchor : Option String → HtmlCollector → HtmlCollector
  begin_anchor none c = c
  begin_anchor (some href) c =
      if not (is_empty href) && is_web_link href
      then record c { anchor_target = some href; anchor_text = [] }
      else c

  abbrev pub add_present : Option String → String → HtmlCollector → HtmlCollector
  add_present none source c = c
  add_present (some target) source c = add target source none c

  -- The target of `<meta http-equiv="refresh" content="...">`.
  abbrev pub meta_target : List (String × Option String) → Option String
  meta_target attrs =
      if str_eq (unicode.lower (text_or_empty (attribute "http-equiv" attrs))) "refresh"
      then Option.map from_chars
          (refresh_target (chars (text_or_empty (attribute "content" attrs))))
      else none

  unfoldable pub handle_starttag :
      String → List (String × Option String) → HtmlCollector → HtmlCollector
  unfolding finish_anchor add is_web_link refresh_target is_empty
  handle_starttag tag attrs c0 =
      let c1 = if is_hidden tag then record c0 { skip_depth = suc c0.skip_depth } else c0 in
      let c2 =
        if str_eq tag "a" then begin_anchor (attribute "href" attrs) (finish_anchor c1) else c1 in
      let c3 =
        if any (str_eq tag) href_tags && not (str_eq tag "a")
        then add_present (attribute "href" attrs) "href" c2
        else c2 in
      let c4 =
        if any (str_eq tag) src_tags then add_present (attribute "src" attrs) "src" c3 else c3 in
      let c5 = if str_eq tag "form" then add_present (attribute "action" attrs) "form" c4 else c4 in
      if str_eq tag "meta" then add_present (meta_target attrs) "meta-refresh" c5 else c5

  unfoldable pub handle_endtag : String → HtmlCollector → HtmlCollector
  unfolding finish_anchor
  handle_endtag tag c0 =
      let c1 = if is_hidden tag then record c0 { skip_depth = c0.skip_depth - 1 } else c0 in
      if str_eq tag "a" then finish_anchor c1 else c1

  unfoldable pub handle_data : String → HtmlCollector → HtmlCollector
  handle_data text c = if ltb 0 c.skip_depth then c else (elim c.anchor_target [
    | none ↦ record c { pieces = c.pieces ++ text ∷ [] }
    | some target ↦ record c {
      pieces = c.pieces ++ text ∷ [];
      anchor_text = c.anchor_text ++ text ∷ [];
    }
  ])

  abbrev pub handle : Event → HtmlCollector → HtmlCollector
  handle (start_tag tag attrs) c = handle_starttag tag attrs c
  handle (end_tag tag) c = handle_endtag tag c
  handle (data_text text) c = handle_data text c

  -- The calls that the parser makes, up to where it gives up.
  unfoldable pub feed : List Event → HtmlCollector → HtmlCollector
  unfolding handle_starttag handle_endtag handle_data
  feed [] c = c
  feed (e ∷ es) c = feed es (handle e c)

  -- The method `collect` of a new collector, for the calls that the parser makes on the text; none for an empty text.
  unfoldable pub collect_html : List Event → HtmlCollector
  unfolding feed finish_anchor
  collect_html events = finish_anchor (feed events new_collector)
