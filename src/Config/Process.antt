-- ===== src/Config/Process.antt =====
-- The process of a VM behind its PID file.
use mathlib.Core.List.{append-nil}
use fc_qemu.Base.{
  ℕ, ◌≡◌, refl, sym, ap, ◌∙◌, Bool, true, false, not, ◌||◌, Option, some, List, [], ◌∷◌, ◌++◌,
  Result, ok, err, stuck, arith, any, Bool-cases, inl, inr,
}
use fc_qemu.Util.Text.{Text, chars, same, starts_with, int}
use fc_qemu.Util.Address.{decimal}
use fc_qemu.Util.Address.RoundTrip.{Lacks, int-decimal, decimal-lacking}
use fc_qemu.Util.Parse.{Dict}
use fc_qemu.Util.Parse.LastWins.{same_refl, same-path}
use fc_qemu.Config.Template.{render, format, in_text}
use fc_qemu.Config.Template.Escaped.{Braceless, is_brace, render-Braceless}
use fc_qemu.Config.Words.{words, word, is_blank, filter}
use fc_qemu.Config.Bind.{bind_ok}
use fc_qemu.Config.Memory.{Values, HasValues, generated, generate_args-HasValues}
use fc_qemu.Config.{
  ◌>>=◌, format_all, generate_args, RunFiles, run_files, local_settings, prepare_config, command,
  marker, proc, first_line, pid_in,
}
use fc_qemu.Config.Words.Members.{
  has, any-append, any-lacking, has-any, has-filter, words_from-append, words_from-lacking,
  has-join,
}

-- A name without blanks and braces.
abbrev pub IsSimple : Text → Type 0
IsSimple name = (any is_blank name ≡ false) × Braceless name

name_arg : Text → Text
name_arg name = chars "-name " ++ marker name

marker-lacking :
    (p : ℕ → Bool) (name : Text)
    → any p (chars ",process=kvm.") ≡ false
    → any p name ≡ false
    → any p (marker name) ≡ false
marker-lacking p name h k = any-lacking p name _ k (any-lacking p (chars ",process=kvm.") name h k)

has_self :
    (m : Text)
    → any is_blank m ≡ false
    → (word m [] ≡ m ∷ [])
    → has m (words is_blank (chars "-name " ++ m)) ≡ true
unfolding words
has_self m h e =
    rw (words_from-append is_blank b' ' [] (chars "-name") m refl)
      (rw (words_from-lacking is_blank [] m h) (rw e (rw any-append (ground (arith, same_refl m)))))

both_ok :
    (r : Result Text) (rs : Result (List Text)) {us : List Text}
    → (r >>= λ x. rs >>= λ xs. ok (x ∷ xs)) ≡ ok us
    → (x : Text) × ((xs : List Text) × ((r ≡ ok x) × (rs ≡ ok xs) × (us ≡ x ∷ xs)))
both_ok (ok x) (ok xs) h = (x, (xs, (refl, refl, cc)))
both_ok (ok x) (err e) h = cc
both_ok (ok x) stuck h = cc
both_ok (err e) rs h = cc
both_ok stuck rs h = cc

format_all-has :
    (d : Dict Text) (t u : Text) (ts us : List Text)
    → format_all ts d ≡ ok us
    → has t ts ≡ true
    → format t d ≡ ok u
    → has u us ≡ true
unfolding format_all
format_all-has d t u [] us h k e = cc
format_all-has d t u (s ∷ ts) us h k e =
    at_parts (both_ok (format s d) (format_all ts d) h) (format_all-has d t u ts)
  where
    at_parts :
        ((x : Text) × ((xs : List Text) × ((format s d ≡ ok x)
              × (format_all ts d ≡ ok xs)
              × (us ≡ x ∷ xs))))
        → ((vs : List Text)
            → format_all ts d ≡ ok vs
            → has t ts ≡ true
            → format t d ≡ ok u
            → has u vs ≡ true)
        → has u us ≡ true
    at_parts (x, (xs, (p, q, r))) rest = rw r (elim (Bool-cases (same t s)) [
      | inl here ↦
          let same_text : format s d ≡ ok u = rw (← same-path t s here) e in
          let u_is_x : u ≡ x = cc in rw (← u_is_x) (ground (arith, same_refl u))
      | inr more ↦ ground (arith, rest xs)
    ])

has-generated : (v : Values) → has (name_arg v.name) (generated v) ≡ true
unfolding name_arg
has-generated v = rw (append-nil v.name) (rw (same_refl (name_arg v.name)) refl)

-- A text without braces reads as it is.
format-Braceless : (d : Dict Text) (s : Text) → Braceless s → format s d ≡ ok s
unfolding format render
format-Braceless d s h =
    ap (render d in_text) (sym (append-nil s)) ∙ render-Braceless d s [] h ∙ ap ok (append-nil s)

name_arg-Braceless : (name : Text) → Braceless name → Braceless (name_arg name)
unfolding name_arg
name_arg-Braceless name h =
    any-lacking is_brace (chars "-name ") (marker name) refl (marker-lacking is_brace name refl h)

word-marker : (name : Text) → word (marker name) [] ≡ marker name ∷ []
word-marker [] = refl
word-marker (c ∷ name) = refl

or-true : (b : Bool) → (b || true) ≡ true
or-true true = refl
or-true false = refl

-- The words of the command have the marker.
has-command :
    (executable : Text) (local_args extra : List Text) (name : Text)
    → any is_blank name ≡ false
    → has (name_arg name) local_args ≡ true
    → has (marker name) (words is_blank (command executable local_args extra name)) ≡ true
unfolding command name_arg
has-command executable local_args extra name h k =
    let kept = filter (λ y. not (same y (chars "-daemonize"))) (local_args ++ extra) in
    let logged = filter (λ y. not (starts_with y (chars "-D "))) kept in
    let in_kept : has (name_arg name) kept ≡ true =
      has-filter (λ y. not (same y (chars "-daemonize"))) (name_arg name) (local_args ++ extra)
        (rw (any-append (same (name_arg name)) local_args extra) (rw k refl)) refl in
    let in_logged : has (name_arg name) logged ≡ true =
      has-filter (λ y. not (starts_with y (chars "-D "))) (name_arg name) kept in_kept refl in
    let found : any (λ t. has (marker name) (words is_blank t)) logged ≡ true =
      has-any (λ t. has (marker name) (words is_blank t)) (name_arg name) logged in_logged
        (has_self (marker name) (marker-lacking is_blank name refl h) (word-marker name)) in
    has-join (marker name)
      (executable ∷ logged ++ (chars "-D /var/log/vm/" ++ name ++ chars ".qemu.internal.log") ∷ [])
      (rw (any-append (λ t. has (marker name) (words is_blank t)) logged)
        (rw found (or-true (has (marker name) (words is_blank executable)))))

-- The local arguments are the arguments with the settings of the host put in.
local_args-prepare_config :
    (monitor_port vnc : Text) (cfg : Dict Text) (args : List Text) (config : Text)
    (files : RunFiles)
    → prepare_config monitor_port vnc cfg args config ≡ ok files
    → (d : Dict Text) × (format_all args d ≡ ok files.local_args)
unfolding prepare_config
local_args-prepare_config monitor_port vnc cfg args config files h =
    let (d, (_, h1)) =
      bind_ok (local_settings monitor_port vnc cfg)
        (λ d. format_all args d >>= λ ls. format config d >>= λ c. ok (run_files args config ls c))
        h in
    let (ls, (p, h2)) =
      bind_ok (format_all args d) (λ ls. format config d >>= λ c. ok (run_files args config ls c))
        h1 in
    let (c, (_, h3)) = bind_ok (format config d) (λ c. ok (run_files args config ls c)) h2 in
    (d, p ∙ ap (λ (r : Result RunFiles). r >>= λ f. ok f.local_args) h3)

first_line-lacking : (s t : Text) → Lacks b'\n' s → first_line (s ++ b'\n' ∷ t) ≡ s
unfolding first_line
first_line-lacking [] t h = refl
first_line-lacking (c ∷ s) t h = ground (arith, first_line-lacking s t)

-- The pid that is read from the file.
pid_in-first_line :
    (pid : ℕ) (garbage : Text)
    → pid_in (int (first_line (decimal pid ++ b'\n' ∷ garbage))) ≡ some pid
pid_in-first_line pid garbage =
    ap (λ l. pid_in (int l))
      (first_line-lacking (decimal pid) garbage (decimal-lacking b'\n' pid refl))
    ∙ ap pid_in (int-decimal pid)

proc_found :
    (name text : Text) (table : ℕ → Option (List Text)) (pid : ℕ) (cmdline : List Text)
    → pid_in (int (first_line text)) ≡ some pid
    → table pid ≡ some cmdline
    → has (marker name) cmdline ≡ true
    → proc name (some text) table ≡ some pid
unfolding proc
proc_found name text table pid cmdline p q h = rw (proc, p, q, h) refl

-- `proc` finds the process of a VM that runs the command made for it, by the first line of the PID
-- file, where the name has no blank and no brace.
pub proc-prepare_config :
    (cfg : Dict Text) (v : Values) (config vnc monitor_port executable : Text) (extra : List Text)
    (files : RunFiles) (pid : ℕ) (garbage : Text) (table : ℕ → Option (List Text))
    → HasValues cfg v
    → IsSimple v.name
    → (generate_args cfg >>= λ args. prepare_config monitor_port vnc cfg args config) ≡ ok files
    → table pid ≡ some (words is_blank (command executable files.local_args extra v.name))
    → proc v.name (some (decimal pid ++ b'\n' ∷ garbage)) table ≡ some pid
proc-prepare_config cfg v config vnc monitor_port executable extra files pid garbage table hv simple
      h here =
    let (args, (ga, pc)) =
      bind_ok (generate_args cfg) (λ args. prepare_config monitor_port vnc cfg args config) h in
    let (d, p) = local_args-prepare_config monitor_port vnc cfg args config files pc in
    let same_args : args ≡ generated v = cc (generate_args-HasValues cfg v hv) in
    let local =
      format_all-has d (name_arg v.name) (name_arg v.name) args files.local_args p
        (rw same_args (has-generated v))
        (format-Braceless d _ (name_arg-Braceless v.name simple.1)) in
    proc_found v.name _ table pid _ (pid_in-first_line pid garbage) here
      (has-command executable files.local_args extra v.name simple.0 local)
