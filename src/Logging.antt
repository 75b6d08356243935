-- ===== src/Logging.antt =====
-- The log lines: logging.py. The codes of the colours are those of colorama. `structlog` calls the
-- processors, of which the last is MultiConsoleRenderer, and hands its result to the loggers.
pub mod Plain
pub mod Clean
pub mod Entries
use fc_qemu.Base.{
  ℕ, zero, suc, ◌-◌, Bool, true, false, Option, none, some, List, [], ◌∷◌, ◌++◌, map, length,
  is_empty, ltb, ◌==◌, if◌then◌else◌,
}
use fc_qemu.Util.Text.{Text, chars}
use fc_qemu.Util.Replace.{replace}
use fc_qemu.Util.Parse.{Dict, get}
use fc_qemu.Config.Words.{text_le}

pub data Colour : Type 0 where
  reset bright dim red backred blue cyan magenta yellow green : Colour

-- In the order of `write`.
abbrev pub colours : List Colour
colours = reset ∷ bright ∷ dim ∷ red ∷ backred ∷ blue ∷ cyan ∷ magenta ∷ yellow ∷ green ∷ []

-- A text that is put together of colours and other texts.
pub data Piece : Type 0 where
  colour : Colour → Piece
  shown : Text → Piece

abbrev pub Markup : Type 0
Markup = List Piece

-- The colours as they are, or empty where there is no terminal.
abbrev pub palette : Bool → (Colour → Text) → Colour → Text
palette true code c = code c
palette false code c = []

unfoldable pub weave : (Colour → Text) → Markup → Text
weave p [] = []
weave p (colour c ∷ ps) = p c ++ weave p ps
weave p (shown s ∷ ps) = s ++ weave p ps

unfoldable pub erase : (Colour → Text) → List Colour → Text → Text
erase code [] line = line
erase code (c ∷ cs) line = erase code cs (replace (code c) [] line)

-- What one `write` adds to the file.
abbrev pub log_line : Bool → (Colour → Text) → Text → Text
log_line true code line = erase code colours line
log_line false code line = line

unfoldable pub spaces : ℕ → Text
spaces zero = []
spaces (suc n) = b' ' ∷ spaces n

unfoldable pub first : ℕ → Text → Text
first zero s = []
first (suc n) [] = []
first (suc n) (c ∷ s) = c ∷ first n s

-- `_pad`, which is also `ljust`, and `rjust`.
abbrev pub pad : Text → ℕ → Text
pad s n = s ++ spaces (n - length s)

abbrev pub rjust : Text → ℕ → Text
rjust s n = spaces (n - length s) ++ s

unfoldable pub prefix : Text → Text → Text
prefix p line = p ++ (chars ">\t" ++ replace (b'\n' ∷ []) (b'\n' ∷ p ++ chars ">\t") line)

pub data Level : Type 0 where
  exception critical error warn warning info debug : Level

-- `LEVELS.index`
abbrev pub index : Level → ℕ
index exception = 0
index critical = 1
index error = 2
index warn = 3
index warning = 4
index info = 5
index debug = 6

abbrev pub colour_of : Level → Colour
colour_of exception = red
colour_of critical = red
colour_of error = red
colour_of warn = yellow
colour_of warning = yellow
colour_of info = green
colour_of debug = green

abbrev pub letter : Level → Text
letter exception = chars "E"
letter critical = chars "C"
letter error = chars "E"
letter warn = chars "W"
letter warning = chars "W"
letter info = chars "I"
letter debug = chars "D"

-- The event's dict, with `machine` and `subsystem` empty where they are missing, and the values of the
-- other keys as `format_value` gives them.
pub record Entry : Type 0 where
  pub timestamp : Option Text
  pub pid : Option Text
  pub level : Option Level
  pub machine : Text
  pub subsystem : Text
  pub output : Option Text
  pub args : Option Text
  pub stack : Option Text
  pub exc : Option Text
  pub event : Text
  pub logger : Option Text
  pub others : Dict Text

-- `if value is not None`
abbrev pub if_some : {A : Type 0} → Option A → (A → List Markup) → List Markup
if_some none f = []
if_some (some a) f = f a

abbrev pub if_filled : Text → List Markup → List Markup
if_filled s ms = if is_empty s then [] else ms

unfoldable pub insert_key : Text × Text → Dict Text → Dict Text
insert_key e [] = e ∷ []
insert_key (k, v) ((j, w) ∷ d) =
    let rest = insert_key (k, v) d in if text_le k j then (k, v) ∷ (j, w) ∷ d else (j, w) ∷ rest

unfoldable pub sorted : Dict Text → Dict Text
sorted [] = []
sorted (e ∷ d) = insert_key e (sorted d)

abbrev pub key_value : Text → Text → Markup
key_value k v =
    colour cyan
    ∷ shown k
    ∷ colour reset
    ∷ shown (chars "=")
    ∷ colour magenta
    ∷ shown v
    ∷ colour reset
    ∷ []

-- Joined by blanks.
unfoldable pub key_values : Dict Text → Markup
key_values [] = []
key_values ((k, v) ∷ []) = key_value k v
key_values ((k, v) ∷ e ∷ d) = key_value k v ++ shown (chars " ") ∷ key_values (e ∷ d)

abbrev pub dimmed : Text → Markup
dimmed s = colour dim ∷ shown s ∷ colour reset ∷ []

-- What is written for an event that has a name.
abbrev pub event_lines : Entry → List Markup
event_lines e =
    (colour bright ∷ shown (pad e.event 30) ∷ colour reset ∷ shown (chars " ") ∷ [])
      ∷ if_some e.logger (λ name.
        (shown (chars "[")
          ∷ colour blue
          ∷ colour bright
          ∷ shown name
          ∷ colour reset
          ∷ shown (chars "] ")
          ∷ [])
        ∷ [])
    ++ key_values (sorted e.others)
      ∷ if_some e.args (λ args.
        (shown (chars "\n") ∷ dimmed (prefix e.machine (e.event ++ (chars " " ++ args)))) ∷ [])

abbrev pub end_lines : Entry → List Markup
end_lines e =
    if_some e.output (λ output. (shown (chars "\n") ∷ dimmed (prefix e.machine output)) ∷ [])
    ++ (if_some e.stack (λ stack.
          (shown (chars "\n") ∷ shown (prefix e.machine stack) ∷ [])
          ∷ if_some e.exc (λ exc.
            (shown (chars "\n\n") ∷ shown (prefix e.machine (rule 79 ++ chars "\n")) ∷ []) ∷ []))
        ++ if_some e.exc (λ exc. (shown (chars "\n") ∷ shown (prefix e.machine exc) ∷ []) ∷ []))
  where
    rule : ℕ → Text
    rule zero = []
    rule (suc n) = b'=' ∷ rule n

-- The calls of `write`, in their order.
unfoldable pub lines : Entry → List Markup
lines e =
    if_some e.timestamp (λ ts. (dimmed ts ++ shown (chars " ") ∷ []) ∷ [])
    ++ (if_some e.pid (λ pid. (dimmed pid ++ shown (chars " ") ∷ []) ∷ [])
        ++ (if_some e.level (λ level.
              (colour (colour_of level)
                ∷ colour bright
                ∷ shown (letter level)
                ∷ colour reset
                ∷ shown (chars " ")
                ∷ [])
              ∷ [])
            ++ (if_filled e.machine ((shown (pad e.machine 10 ++ chars " ") ∷ []) ∷ [])
                ++ (if_filled (e.machine ++ e.subsystem)
                      ((shown (first 10 (rjust e.subsystem 10) ++ chars " ") ∷ []) ∷ [])
                    ++ (if_filled e.event (event_lines e) ++ end_lines e)))))

unfoldable pub concat : List Text → Text
concat [] = []
concat (s ∷ ss) = s ++ concat ss

pub record Rendered : Type 0 where
  pub console : Text
  pub file : Text

-- `MultiConsoleRenderer.__call__`: `tty` says whether the output is coloured.
unfoldable pub render : Bool → (Colour → Text) → Level → Level → Entry → Rendered
render tty code min_level method e =
    let written = map (weave (palette tty code)) (lines e) in
    record {
      console = if ltb (index min_level) (index method) then [] else concat written;
      file = concat (map (log_line tty code) written);
    }

-- `MultiOptimisticLogger.msg`: each logger with its name, and whether its `msg` goes well, and what is
-- written.
unfoldable pub msg : List (Text × Bool) → Dict Text → Dict Text
msg [] event_dict = []
msg ((name, works) ∷ loggers) event_dict =
    let rest = msg loggers event_dict in
    elim (get name event_dict) [
      | none ↦ rest
      | some [] ↦ rest
      | some line ↦ if works then (name, line) ∷ rest else rest
    ]
