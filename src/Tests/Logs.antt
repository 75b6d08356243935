-- ===== src/Tests/Logs.antt =====
-- Examples for the log.
use fc_qemu.Base.{◌≡◌, refl, true, false, none, some, [], ◌∷◌, ◌++◌}
use fc_qemu.Util.Text.{Text, chars}
use fc_qemu.Util.Address.RoundTrip.{Lacks}
use fc_qemu.Logging.{
  Colour, reset, bright, dim, red, backred, blue, cyan, magenta, yellow, green, Entry, info, debug,
  error, render,
}
use fc_qemu.Logging.Plain.{escape, IsAnsi}
use fc_qemu.Logging.Entries.{CleanEntry, render-file}

abbrev digits : Colour → Text
digits reset = chars "0"
digits bright = chars "1"
digits dim = chars "2"
digits red = chars "31"
digits backred = chars "41"
digits blue = chars "34"
digits cyan = chars "36"
digits magenta = chars "35"
digits yellow = chars "33"
digits green = chars "32"

abbrev ansi_body : Colour → Text
ansi_body c = b'[' ∷ digits c

abbrev ansi : Colour → Text
ansi c = escape ∷ ansi_body c ++ b'm' ∷ []

one_escape : (c : Colour) → Lacks escape (ansi_body c)
one_escape reset = refl
one_escape bright = refl
one_escape dim = refl
one_escape red = refl
one_escape backred = refl
one_escape blue = refl
one_escape cyan = refl
one_escape magenta = refl
one_escape yellow = refl
one_escape green = refl

one_end : (c : Colour) → Lacks b'm' (ansi_body c)
one_end reset = refl
one_end bright = refl
one_end dim = refl
one_end red = refl
one_end backred = refl
one_end blue = refl
one_end cyan = refl
one_end magenta = refl
one_end yellow = refl
one_end green = refl

ansi-IsAnsi : IsAnsi ansi
ansi-IsAnsi = record {
  body = ansi_body;
  whole = λ c. refl;
  one_escape = one_escape;
  one_end = one_end;
}

abbrev entry : Entry
entry = record {
  timestamp = some (chars "2026-01-01T00:00:00");
  pid = some (chars "4711");
  level = some info;
  machine = chars "test00";
  subsystem = chars "qemu";
  output = some (chars "first\nsecond");
  args = none;
  stack = none;
  exc = none;
  event = chars "start-qemu";
  logger = none;
  others = (chars "result", chars "'ok'") ∷ (chars "action", chars "'run'") ∷ [];
}

entry-CleanEntry : CleanEntry entry
entry-CleanEntry = record {
  timestamp = refl;
  pid = refl;
  machine = refl;
  subsystem = refl;
  output = refl;
  args = tt;
  stack = tt;
  exc = tt;
  event = refl;
  logger = tt;
  others = ((refl, refl), ((refl, refl), tt));
}

render-file_example :
    (render true ansi error info entry).file ≡ (render false ansi debug info entry).file
render-file_example = render-file ansi ansi-IsAnsi error debug info entry entry-CleanEntry
