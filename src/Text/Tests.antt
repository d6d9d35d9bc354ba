-- ===== src/Text/Tests.antt =====
-- Runs of the lib/basics.h theorems.
use dumboss.Base.{◌≤◌, ◌≡◌, true, List, [], ◌∷◌, length, ℕ, arith}
use dumboss.Base.Int.{negsuc}
use dumboss.Text.{Bytes, Str, Any, unsigned, signed, fmt}
use dumboss.Text.Digits.{decimal, parse, all_digits, decimal-parse}
use dumboss.Text.Format.{AllAny, render, Prints, fmt-Prints}

abbrev out : Str
out = record { address = 1000; count = 4 }

abbrev blank : Bytes
blank = λ p. 0

-- "a%f%%%f" with 42 and -7.
abbrev template : List ℕ
template = b'a' ∷ b'%' ∷ b'f' ∷ b'%' ∷ b'%' ∷ b'%' ∷ b'f' ∷ []

abbrev values : List Any
values = unsigned 42 ∷ signed (negsuc 6) ∷ []

values-AllAny : AllAny values
values-AllAny = (_, (omega arith, _))

fmt-Prints_example :
    Prints out blank values (render template values) (fmt out template values blank)
fmt-Prints_example = fmt-Prints out blank template values values-AllAny

decimal-parse_example :
    (parse 0 (decimal 1234) ≡ 1234)
    × (all_digits (decimal 1234) ≡ true)
    × (length (decimal 1234) ≤ 20)
decimal-parse_example = decimal-parse 1234 (omega arith)
