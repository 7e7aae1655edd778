-- ===== src/Rules/Attachments/Names.antt =====
-- The file names that the attachment rule shows, src/heron/rules/attachments.py.
use Prim.Native.Char.{Char}
use heron_mail.Prelude.{String, any, false, ◌≡◌}
use heron_mail.Rules.Attachments.{is_bidi_control}
use heron_mail.Text.{chars}

-- No hidden direction character in a text.
abbrev pub IsPlain : String → Type 0
IsPlain s = any is_bidi_control (chars s) ≡ false
