-- ===== src/Tests/Amounts.antt =====
-- Amounts of money at concrete inputs.
use my_finance.Common.{◌≡◌, some, arith}
use my_finance.Common.Int.{negsuc}
use my_finance.Text.{codes}
use my_finance.Money.{Amount, parse, parse_ok, to_string}
use my_finance.Money.RoundTrip.{InRange, parse-to_string, parse-InRange}

abbrev debt : Amount
debt = negsuc 149999999

debt-InRange : InRange debt
debt-InRange = omega arith

parse-to_string_example : parse (to_string debt) ≡ some debt
parse-to_string_example = parse-to_string debt debt-InRange

parse-InRange_example : InRange (negsuc 1249999999)
parse-InRange_example = parse-InRange (codes "-12.50") (negsuc 1249999999) parse_ok
