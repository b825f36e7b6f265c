-- ===== src/Common/Decimal.antt =====
-- `%d` of a natural number in Go's package fmt.
use Prim.Native.Nat.{ℕ, zero, suc, ◌/◌, ◌%◌}
use Prim.Native.String.{String}
use tsgonest.Common.Tests.{nat_eq, ltb, if◌then◌else◌}
use tsgonest.Common.Texts.{◌<>◌}

unfoldable pub digit : ℕ → String
digit d =
    if nat_eq d 0
    then "0"
    else if nat_eq d 1
    then "1"
    else if nat_eq d 2
    then "2"
    else if nat_eq d 3
    then "3"
    else if nat_eq d 4
    then "4"
    else if nat_eq d 5
    then "5"
    else if nat_eq d 6
    then "6"
    else if nat_eq d 7
    then "7"
    else if nat_eq d 8
    then "8"
    else "9"

-- One round for each digit, the last one first.
unfoldable pub decimal_from : ℕ → ℕ → String → String
unfolding digit
decimal_from zero n text = text
decimal_from (suc fuel) n text =
    let more = decimal_from fuel (n / 10) (digit (n % 10) <> text) in
    if ltb n 10 then digit n <> text else more

unfoldable pub decimal : ℕ → String
unfolding decimal_from
decimal n = decimal_from (suc n) n ""
