-- ===== src/Extractor/Links.antt =====
-- The links that `_HtmlCollector` of src/heron/analysis/extractor.py collects.
use Prim.Native.Char.{Char}
use heron_mail.Prelude.{
  All, All-append, Bool, Bool-cases, List, Option, String, [], any, false, if◌then◌else◌, inl, inr,
  length, length-take-le, ltb, none, not, refl, some, str_eq, subst, suc, sym, take, true, ◌&&◌,
  ◌++◌, ◌-◌, ◌∷◌, ◌≡◌, ◌≤◌,
}
use heron_mail.Extractor.Html.{
  Event, HtmlCollector, Link, add, add_present, attribute, begin_anchor, collect_html, data_text,
  end_tag, feed, finish_anchor, handle, handle_data, handle_endtag, handle_starttag, href_tags,
  is_hidden, is_web_link, link_text, max_link_text, meta_target, new_collector, one_space,
  some_text, src_tags, start_tag,
}
use heron_mail.Strings.{Unicode, is_empty, strip}
use heron_mail.Strings.Chars.{chars-from_chars}
use heron_mail.Text.{chars, concat, from_chars}

module _ (unicode : Unicode) where
  abbrev pub IsShort : Option String → Type 0
  IsShort none = Unit
  IsShort (some text) = length (chars text) ≤ max_link_text

  -- A link that a browser opens on the web, with a text that is cut.
  pub record IsLink (l : Link) : Type 0 where
    pub value : String
    pub is_web : is_web_link unicode value ≡ true
    pub stripped : l.target ≡ strip value
    pub is_short : IsShort l.text

  -- Every link of a collector is one.
  abbrev pub HasLinks : HtmlCollector → Type 0
  HasLinks c = All IsLink c.links

  either_HasLinks :
      (b : Bool) (c d : HtmlCollector) → HasLinks c → HasLinks d → HasLinks (if b then c else d)
  either_HasLinks true c d h k = h
  either_HasLinks false c d h k = k

  add-HasLinks :
      (value source : String) (text : Option String) (c : HtmlCollector)
      → IsShort text
      → HasLinks c
      → HasLinks (add unicode value source text c)
  unfolding add
  add-HasLinks value source text c short h = elim (Bool-cases (is_web_link unicode value)) [
    | inl e ↦ rw e (
        All-append IsLink c.links _ h
          (record { value = value; is_web = e; stripped = refl; is_short = short }, tt))
    | inr e ↦ rw e h
  ]

  taken-IsShort : (cs : List Char) → IsShort (some_text (from_chars (take max_link_text cs)))
  taken-IsShort cs = elim (Bool-cases (is_empty (from_chars (take max_link_text cs)))) [
    | inl e ↦ rw e tt
    | inr e ↦ rw e (
        subst (λ l. length l ≤ max_link_text) (sym (chars-from_chars (take max_link_text cs)))
          (length-take-le max_link_text cs))
  ]

  link_text-IsShort : (pieces : List String) → IsShort (some_text (link_text unicode pieces))
  unfolding link_text
  link_text-IsShort pieces =
      taken-IsShort (chars (strip (from_chars (one_space false (chars (concat pieces))))))

  finish_anchor-HasLinks : (c : HtmlCollector) → HasLinks c → HasLinks (finish_anchor unicode c)
  unfolding finish_anchor
  finish_anchor-HasLinks c h = of_target c.anchor_target
    where
      of_target :
          (o : Option String)
          → HasLinks (elim o as (λ x. HtmlCollector) [
            | none ↦ c
            | some target ↦
                record (add unicode target "href" (some_text (link_text unicode c.anchor_text)) c) {
                  anchor_target = none;
                  anchor_text = [];
                }
          ])
      of_target none = h
      of_target (some target) = add-HasLinks target "href" _ c (link_text-IsShort c.anchor_text) h

  add_present-HasLinks :
      (o : Option String) (source : String) (c : HtmlCollector)
      → HasLinks c
      → HasLinks (add_present unicode o source c)
  add_present-HasLinks none source c h = h
  add_present-HasLinks (some value) source c h = add-HasLinks value source none c tt h

  begin_anchor-HasLinks :
      (o : Option String) (c : HtmlCollector) → HasLinks c → HasLinks (begin_anchor unicode o c)
  begin_anchor-HasLinks none c h = h
  begin_anchor-HasLinks (some href) c h =
      either_HasLinks (not (is_empty href) && is_web_link unicode href) _ c h h

  handle_starttag-HasLinks :
      (tag : String) (attrs : List (String × Option String)) (c : HtmlCollector)
      → HasLinks c
      → HasLinks (handle_starttag unicode tag attrs c)
  unfolding handle_starttag
  handle_starttag-HasLinks tag attrs c h =
      present (str_eq tag "meta") (meta_target unicode attrs) "meta-refresh" _ (
        present (str_eq tag "form") (attribute "action" attrs) "form" _ (
          present (any (str_eq tag) src_tags) (attribute "src" attrs) "src" _ (
            present (any (str_eq tag) href_tags && not (str_eq tag "a")) (attribute "href" attrs)
              "href" _
              (either_HasLinks (str_eq tag "a") _ _
                (begin_anchor-HasLinks (attribute "href" attrs) _ (finish_anchor-HasLinks _ opened))
                opened))))
    where
      opened : HasLinks (if is_hidden tag then record c { skip_depth = suc c.skip_depth } else c)
      opened = either_HasLinks (is_hidden tag) (record c { skip_depth = suc c.skip_depth }) c h h

      present :
          (b : Bool) (o : Option String) (source : String) (d : HtmlCollector)
          → HasLinks d
          → HasLinks (if b then add_present unicode o source d else d)
      present b o source d k = either_HasLinks b _ d (add_present-HasLinks o source d k) k

  handle-HasLinks : (e : Event) (c : HtmlCollector) → HasLinks c → HasLinks (handle unicode e c)
  unfolding handle_endtag handle_data
  handle-HasLinks (start_tag tag attrs) c h = handle_starttag-HasLinks tag attrs c h
  handle-HasLinks (end_tag tag) c h =
      let closed =
        either_HasLinks (is_hidden tag) (record c { skip_depth = c.skip_depth - 1 }) c h h in
      either_HasLinks (str_eq tag "a") _ _ (finish_anchor-HasLinks _ closed) closed
  handle-HasLinks (data_text piece) c h =
      either_HasLinks (ltb 0 c.skip_depth) c _ h (of_anchor c.anchor_target)
    where
      of_anchor :
          (o : Option String)
          → HasLinks (elim o as (λ x. HtmlCollector) [
            | none ↦ record c { pieces = c.pieces ++ piece ∷ [] }
            | some target ↦ record c {
              pieces = c.pieces ++ piece ∷ [];
              anchor_text = c.anchor_text ++ piece ∷ [];
            }
          ])
      of_anchor none = h
      of_anchor (some target) = h

  feed-HasLinks :
      (events : List Event) (c : HtmlCollector) → HasLinks c → HasLinks (feed unicode events c)
  unfolding feed
  feed-HasLinks [] c h = h
  feed-HasLinks (e ∷ es) c h = feed-HasLinks es (handle unicode e c) (handle-HasLinks e c h)

-- Whatever calls the HTML parser makes, in whatever order, each link that is collected comes from a value that
-- a browser opens on the web (a scheme of `_ALLOWED_SCHEMES` or "www." at the start of its cleaned form), its
-- target is that value without the spaces around it, and its text has at most 200 characters.
pub collect_html-HasLinks :
    (unicode : Unicode) (events : List Event) → HasLinks unicode (collect_html unicode events)
unfolding collect_html
collect_html-HasLinks unicode events =
    finish_anchor-HasLinks unicode _ (feed-HasLinks unicode events new_collector tt)
