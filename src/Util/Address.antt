-- ===== src/Util/Address.antt =====
-- `parse_address`
pub mod RoundTrip
use fc_qemu.Base.{
  ℕ, zero, suc, ◌+◌, ◌*◌, ◌/◌, ◌%◌, Option, none, some, List, [], ◌∷◌, ◌++◌, Result, ok, err,
  value_error, ltb, any, if◌then◌else◌, ◌==◌,
}
use fc_qemu.Util.Text.{Text, ℤ, pos, int, split, split_pair}

-- `host, port = parts` and `int(port)`
abbrev pub host_and_port : List Text → Result (Text × ℤ)
host_and_port (host ∷ port ∷ []) = elim (int port) [
  | some n ↦ ok (host, n)
  | none ↦ err value_error
]
host_and_port _ = err value_error

unfoldable pub parse_address : Text → Result (Text × ℤ)
parse_address [] = host_and_port (split b':' [])
parse_address (c ∷ addr) =
    if c == b'['
    then host_and_port (split_pair b']' b':' addr)
    else host_and_port (split b':' (c ∷ addr))

-- The decimal digits of a number, before `rest`; `n < suc fuel`.
unfoldable pub decimal_onto : ℕ → ℕ → Text → Text
decimal_onto zero n rest = (b'0' + n) ∷ rest
decimal_onto (suc fuel) n rest =
    if ltb n 10 then (b'0' + n) ∷ rest else decimal_onto fuel (n / 10) ((b'0' + n % 10) ∷ rest)

unfoldable pub decimal : ℕ → Text
unfolding decimal_onto
decimal n = decimal_onto n n []

-- An address, with the host in brackets where it has a colon.
pub format_address : Text → ℕ → Text
format_address host port =
    if any (λ c. c == b':') host
    then b'[' ∷ host ++ (b']' ∷ b':' ∷ decimal port)
    else host ++ (b':' ∷ decimal port)
