-- ===== src/Money/Input.antt =====
-- prototype/atomic-money.mjs: the error codes, and the checks of amounts, basis points and weights.
use skill_asset_protocol.Base.{
  ℕ, ◌*◌, ◌/◌, ltb, if◌then◌else◌, Result, ok, err, ◌>>=◌, Value, bigint, number, pos, negsuc,
}

-- The codes of `MoneyInputError`. The last two are the plain errors of broken invariants; the
-- model adds `out_of_fuel`, which the recursion over the ancestry could end with.
pub data MoneyError : Type 0 where
  atomic_type atomic_negative bps_integer bps_range display_type display_format : MoneyError
  weight_negative weight_integer weights_zero bps_total : MoneyError
  allocations_empty allocation_key allocation_duplicate : MoneyError
  allocation_policy_unsupported skill_unknown parent_duplicate : MoneyError
  ancestry_depth ancestry_cycle ancestry_nodes ancestry_visits : MoneyError
  gross_insufficient recipient_required employer_award_recipient : MoneyError
  internal_journal_gross internal_journal_kind internal_journal_mismatch : MoneyError
  remainder_not_exhausted credits_not_pool out_of_fuel : MoneyError

abbrev pub usdc_decimals : ℕ
usdc_decimals = 6

abbrev pub atomic_per_usdc : ℕ
atomic_per_usdc = 1_000_000

abbrev pub bps_denominator : ℕ
bps_denominator = 10_000

unfoldable pub assert_atomic : Value → Result MoneyError ℕ
assert_atomic (bigint (pos n)) = ok n
assert_atomic (bigint (negsuc n)) = err atomic_negative
assert_atomic _ = err atomic_type

unfoldable pub assert_bps : Value → Result MoneyError ℕ
assert_bps (number (pos n)) = if ltb 10_000 n then err bps_range else ok n
assert_bps (number (negsuc n)) = err bps_range
assert_bps _ = err bps_integer

unfoldable pub floor_bps : Value → Value → Result MoneyError ℕ
floor_bps amount bps = do a ← assert_atomic amount; b ← assert_bps bps; ok (a * b / bps_denominator)

unfoldable pub weight_to_bigint : Value → Result MoneyError ℕ
weight_to_bigint (bigint (pos n)) = ok n
weight_to_bigint (bigint (negsuc n)) = err weight_negative
weight_to_bigint (number (pos n)) = ok n
weight_to_bigint _ = err weight_integer
