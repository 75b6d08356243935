-- ===== src/Logging/Entries.antt =====
-- The log file does not depend on the console.
use fc_qemu.Base.{◌≡◌, refl, true, false, Option, none, some, List, [], ◌∷◌, ◌++◌, map, All}
use fc_qemu.Util.Text.{Text, chars}
use fc_qemu.Logging.{
  Colour, Markup, palette, weave, log_line, first, pad, rjust, letter, Level, exception, critical,
  error, warn, warning, info, debug, Entry, if_some, if_filled, sorted, event_lines, end_lines,
  lines, concat, render,
}
use fc_qemu.Logging.Plain.{IsAnsi, IsClean, log_line-weave}
use fc_qemu.Logging.Clean.{
  Clean, CleanOption, CleanPair, both-Clean, first-Clean, prefix-Clean, pad-Clean, rjust-Clean,
  sorted-Clean, key_values-IsClean,
}

-- What is logged has no escape sequences.
pub record CleanEntry (e : Entry) : Type 0 where
  pub timestamp : CleanOption e.timestamp
  pub pid : CleanOption e.pid
  pub machine : Clean e.machine
  pub subsystem : Clean e.subsystem
  pub output : CleanOption e.output
  pub args : CleanOption e.args
  pub stack : CleanOption e.stack
  pub exc : CleanOption e.exc
  pub event : Clean e.event
  pub logger : CleanOption e.logger
  pub others : All CleanPair e.others

AllClean : List Markup → Type 0
AllClean ms = All IsClean ms

all-append : (ms ns : List Markup) → AllClean ms → AllClean ns → AllClean (ms ++ ns)
unfolding AllClean
all-append [] ns h k = k
all-append (m ∷ ms) ns h k = (h.0, all-append ms ns h.1 k)

if_some-Clean :
    (o : Option Text) (f : Text → List Markup)
    → CleanOption o
    → ((s : Text) → Clean s → AllClean (f s))
    → AllClean (if_some o f)
unfolding AllClean
if_some-Clean none f h k = tt
if_some-Clean (some s) f h k = k s h

level_clean :
    (o : Option Level) (f : Level → List Markup)
    → ((l : Level) → AllClean (f l))
    → AllClean (if_some o f)
unfolding AllClean
level_clean none f h = tt
level_clean (some l) f h = h l

if_filled-Clean : (s : Text) (ms : List Markup) → AllClean ms → AllClean (if_filled s ms)
unfolding AllClean
if_filled-Clean [] ms h = tt
if_filled-Clean (c ∷ s) ms h = h

letter-Clean : (l : Level) → Clean (letter l)
letter-Clean exception = refl
letter-Clean critical = refl
letter-Clean error = refl
letter-Clean warn = refl
letter-Clean warning = refl
letter-Clean info = refl
letter-Clean debug = refl

event_lines-Clean : (e : Entry) → CleanEntry e → AllClean (event_lines e)
unfolding AllClean
event_lines-Clean e h = (
  (pad-Clean e.event 30 h.event, (refl, tt)),
  all-append _ _ (if_some-Clean e.logger _ h.logger (λ name c. ((refl, (c, (refl, tt))), tt))) (
    key_values-IsClean (sorted e.others) (sorted-Clean e.others h.others),
    if_some-Clean e.args _ h.args (λ args c. (
      (
        refl,
        (
          prefix-Clean e.machine (e.event ++ (chars " " ++ args)) h.machine
              (both-Clean e.event (chars " " ++ args) h.event (both-Clean (chars " ") args refl c)),
          tt,
        ),
      ),
      tt,
    )),
  ),
)

end_lines-Clean : (e : Entry) → CleanEntry e → AllClean (end_lines e)
unfolding AllClean
end_lines-Clean e h =
    all-append _ _
      (if_some-Clean e.output _ h.output
        (λ s c. ((refl, (prefix-Clean e.machine s h.machine c, tt)), tt)))
      (all-append _ _
        (if_some-Clean e.stack _ h.stack (λ s c. (
          (refl, (prefix-Clean e.machine s h.machine c, tt)),
          if_some-Clean e.exc _ h.exc
              (λ x d. ((refl, (prefix-Clean e.machine _ h.machine refl, tt)), tt)),
        )))
        (if_some-Clean e.exc _ h.exc
          (λ x d. ((refl, (prefix-Clean e.machine x h.machine d, tt)), tt))))

lines-Clean : (e : Entry) → CleanEntry e → AllClean (lines e)
unfolding lines AllClean
lines-Clean e h =
    all-append _ _ (if_some-Clean e.timestamp _ h.timestamp (λ s c. ((c, (refl, tt)), tt))) (
      all-append _ _ (if_some-Clean e.pid _ h.pid (λ s c. ((c, (refl, tt)), tt))) (
        all-append _ _ (level_clean e.level _ (λ l. ((letter-Clean l, (refl, tt)), tt))) (
          all-append _ _
            (if_filled-Clean e.machine _ (
              (
                both-Clean (pad e.machine 10) (chars " ") (pad-Clean e.machine 10 h.machine) refl,
                tt,
              ),
              tt,
            ))
            (all-append _ _
              (if_filled-Clean (e.machine ++ e.subsystem) _ (
                (
                  both-Clean (first 10 (rjust e.subsystem 10)) (chars " ")
                      (first-Clean 10 _ (rjust-Clean e.subsystem 10 h.subsystem)) refl,
                  tt,
                ),
                tt,
              ))
              (all-append _ _ (if_filled-Clean e.event _ (event_lines-Clean e h))
                (end_lines-Clean e h))))))

module _ (code : Colour → Text) (ansi : IsAnsi code) where
  file_same :
      (ms : List Markup)
      → All IsClean ms
      → concat (map (log_line true code) (map (weave (palette true code)) ms))
        ≡ concat (map (log_line false code) (map (weave (palette false code)) ms))
  unfolding concat
  file_same [] h = refl
  file_same (m ∷ ms) h = rw (log_line-weave code ansi m h.0, file_same ms h.1) refl

  -- What an event adds to the log file does not depend on the console: it is the same where the console is coloured and
  -- where it is not, and whatever the console shows, for an event without escape sequences of its own.
  pub render-file :
      (a b method : Level) (e : Entry)
      → CleanEntry e
      → (render true code a method e).file ≡ (render false code b method e).file
  unfolding render AllClean
  render-file a b method e h = file_same (lines e) (lines-Clean e h)
