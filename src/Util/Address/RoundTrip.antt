-- ===== src/Util/Address/RoundTrip.antt =====
-- `parse_address` and addresses that are written.
use fc_qemu.Base.{
  ℕ, zero, suc, ◌+◌, ◌*◌, ◌/◌, ◌%◌, ◌<◌, ◌≡◌, refl, ap, ◌∙◌, Bool, true, false, some, [], ◌∷◌, ◌++◌,
  ok, any, all, ◌==◌, arith, inl, inr, Bool-cases,
}
use fc_qemu.Util.Text.{
  Text, pos, is_digit, is_space, lstrip, rstrip, strip, split, split_pair, push, number, int,
}
use fc_qemu.Util.Address.{parse_address, host_and_port, decimal_onto, decimal, format_address}

-- Texts without the character `c`.
abbrev pub Lacks : ℕ → Text → Type 0
Lacks c s = any (λ d. d == c) s ≡ false

pub split-lacking : (c : ℕ) (s : Text) → Lacks c s → split c s ≡ s ∷ []
unfolding split push
split-lacking c [] h = refl
split-lacking c (d ∷ s) h = ground (arith, split-lacking c s)

pub split-parts : (c : ℕ) (s t : Text) → Lacks c s → split c (s ++ (c ∷ t)) ≡ s ∷ split c t
unfolding split push
split-parts c [] t h = ground arith
split-parts c (d ∷ s) t h = ground (arith, split-parts c s t)

split_pair-lacking : (a b : ℕ) (s : Text) → Lacks a s → split_pair a b s ≡ s ∷ []
unfolding split_pair push
split_pair-lacking a b [] h = refl
split_pair-lacking a b (c ∷ []) h = refl
split_pair-lacking a b (c ∷ d ∷ s) h = ground (arith, split_pair-lacking a b (d ∷ s))

split_pair-parts :
    (a b : ℕ) (s t : Text) → Lacks a s → split_pair a b (s ++ (a ∷ b ∷ t)) ≡ s ∷ split_pair a b t
unfolding split_pair push
split_pair-parts a b [] t h = ground arith
split_pair-parts a b (c ∷ []) t h = ground arith
split_pair-parts a b (c ∷ d ∷ s) t h = ground (arith, split_pair-parts a b (d ∷ s) t)

abbrev Digits : Text → Type 0
Digits s = all is_digit s ≡ true

Digits-lstrip : (s : Text) → Digits s → lstrip is_space s ≡ s
unfolding lstrip
Digits-lstrip [] h = refl
Digits-lstrip (c ∷ s) h = ground arith

Digits-rstrip : (s : Text) → Digits s → rstrip is_space s ≡ s
unfolding rstrip
Digits-rstrip [] h = refl
Digits-rstrip (c ∷ s) h = ground (arith, Digits-rstrip s)

Digits-strip : (s : Text) → Digits s → strip is_space s ≡ s
Digits-strip s h = ap (rstrip is_space) (Digits-lstrip s h) ∙ Digits-rstrip s h

Digits-decimal_onto :
    (fuel n : ℕ) (rest : Text) → n < suc fuel → Digits rest → Digits (decimal_onto fuel n rest)
unfolding decimal_onto
Digits-decimal_onto zero n rest h d = ground arith
Digits-decimal_onto (suc fuel) n rest h d =
    ground (arith, Digits-decimal_onto fuel (n / 10) ((b'0' + n % 10) ∷ rest))

Digits-lacking : (c : ℕ) → is_digit c ≡ false → (s : Text) → Digits s → Lacks c s
Digits-lacking c n [] h = refl
Digits-lacking c n (d ∷ s) h = ground (arith, Digits-lacking c n s)

number-digit :
    (n m : ℕ) (b : Bool) (rest : Text)
    → m < 10
    → number n b ((b'0' + m) ∷ rest) ≡ number (n * 10 + m) true rest
unfolding number
number-digit n m b rest h = ground arith

number-decimal_onto :
    (fuel n : ℕ) (rest : Text)
    → n < suc fuel
    → number 0 false (decimal_onto fuel n rest) ≡ number n true rest
unfolding decimal_onto
number-decimal_onto zero n rest h = ground (arith, number-digit 0 n false rest)
number-decimal_onto (suc fuel) n rest h = ground (
  arith,
  number-digit 0 n false rest,
  number-decimal_onto fuel (n / 10) ((b'0' + n % 10) ∷ rest),
  number-digit (n / 10) (n % 10) true rest,
)

int_nonempty :
    (c : ℕ) (s : Text) (n : ℕ)
    → Digits (c ∷ s)
    → number 0 false (c ∷ s) ≡ some n
    → int (c ∷ s) ≡ some (pos n)
unfolding int
int_nonempty c s n d h = rw (Digits-strip (c ∷ s) d) (ground (arith, h))

int-Digits : (s : Text) (n : ℕ) → Digits s → number 0 false s ≡ some n → int s ≡ some (pos n)
unfolding number
int-Digits [] n d h = ground arith
int-Digits (c ∷ s) n d h = int_nonempty c s n d h

Digits-decimal : (n : ℕ) → Digits (decimal n)
unfolding decimal
Digits-decimal n = Digits-decimal_onto n n [] (omega arith) refl

pub int-decimal : (n : ℕ) → int (decimal n) ≡ some (pos n)
unfolding decimal number
int-decimal n =
    int-Digits (decimal n) n (Digits-decimal n) (number-decimal_onto n n [] (omega arith))

-- The brackets of a host are those that `parse_address` looks for.
abbrev pub Plain : Text → Type 0
Plain host = (any (λ c. c == b'[') host ≡ false) × (any (λ c. c == b']') host ≡ false)

parse-colon :
    (host : Text) (t : Text)
    → any (λ c. c == b'[') host ≡ false
    → parse_address (host ++ (b':' ∷ t)) ≡ host_and_port (split b':' (host ++ (b':' ∷ t)))
unfolding parse_address
parse-colon [] t h = refl
parse-colon (c ∷ host) t h = ground arith

pair_of : (host : Text) (port : ℕ) → host_and_port (host ∷ decimal port ∷ []) ≡ ok (host, pos port)
pair_of host port = rw (int-decimal port, host_and_port) refl

pub decimal-lacking : (c : ℕ) (port : ℕ) → is_digit c ≡ false → Lacks c (decimal port)
decimal-lacking c port h = Digits-lacking c h (decimal port) (Digits-decimal port)

parts :
    (host : Text) (port : ℕ)
    → Lacks b':' host
    → split b':' (host ++ (b':' ∷ decimal port)) ≡ host ∷ decimal port ∷ []
parts host port h =
    split-parts b':' host (decimal port) h
    ∙ ap (λ ws. host ∷ ws) (split-lacking b':' (decimal port) (decimal-lacking b':' port refl))

pair_parts :
    (host : Text) (port : ℕ)
    → Lacks b']' host
    → split_pair b']' b':' (host ++ (b']' ∷ b':' ∷ decimal port)) ≡ host ∷ decimal port ∷ []
pair_parts host port h =
    split_pair-parts b']' b':' host (decimal port) h
    ∙ ap (λ ws. host ∷ ws)
        (split_pair-lacking b']' b':' (decimal port) (decimal-lacking b']' port refl))

bracketed :
    (host : Text) (port : ℕ)
    → Lacks b']' host
    → parse_address (b'[' ∷ host ++ (b']' ∷ b':' ∷ decimal port))
      ≡ host_and_port (host ∷ decimal port ∷ [])
unfolding parse_address
bracketed host port h = ap host_and_port (pair_parts host port h)

-- Parsing a written address gives the host and the port back, where the host has no bracket of its
-- own.
pub parse_address-format_address :
    (host : Text) (port : ℕ)
    → Plain host
    → parse_address (format_address host port) ≡ ok (host, pos port)
unfolding format_address
parse_address-format_address host port (no_open, no_close) =
    elim (Bool-cases (any (λ c. c == b':') host)) [
      | inl colon ↦ rw colon (bracketed host port no_close ∙ pair_of host port)
      | inr none_there ↦ rw none_there (
          parse-colon host (decimal port) no_open
          ∙ ap host_and_port (parts host port none_there)
          ∙ pair_of host port)
    ]
