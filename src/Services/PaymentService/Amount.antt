-- ===== src/Services/PaymentService/Amount.antt =====
-- The amount in the note of a settled invoice, `f"{amount_minor / 100:,.2f}"` in
-- src/app/business/services/payment_service.py, and how it reads back.

use Prim.Native.String.{[], ◌∷◌, ◌++◌}
use python_workflow_service.Prelude.{
  ℕ, zero, suc, ◌/◌, ◌%◌, String, ltb, str_eq, if◌then◌else◌, ℤ, pos_part,
}
use python_workflow_service.Prelude.Text.{digit, decimal}

abbrev pub two_digits : ℕ → String
two_digits n = digit (n / 10 % 10) ∷ digit (n % 10) ∷ []

abbrev pub three_digits : ℕ → String
three_digits n = digit (n / 100 % 10) ∷ two_digits n

-- `f"{n:,}"`, with a fuel above the number of the groups of three digits.
unfoldable pub grouped_from : ℕ → ℕ → String
grouped_from zero n = []
grouped_from (suc fuel) n =
    let rest = grouped_from fuel (n / 1000) in
    if ltb n 1000 then decimal n else rest ++ ("," ++ three_digits n)

unfoldable pub grouped : ℕ → String
unfolding grouped_from
grouped n = grouped_from (suc n) n

unfoldable pub amount_text : ℕ → String
unfolding grouped
amount_text minor = grouped (minor / 100) ++ ("." ++ two_digits minor)

-- `amount_text` with its currency.
unfoldable pub money_text : String → ℤ → String
unfolding amount_text
money_text currency minor =
    let text = amount_text (pos_part minor) in
    if str_eq currency "INR" then "₹" ++ text else currency ++ (" " ++ text)
