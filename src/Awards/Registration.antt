-- ===== src/Awards/Registration.antt =====
-- spikes/internal-invocation-awards/src/schema.mjs: the scope of a receipt sequence, the end of a
-- period, and the registrations of Skill versions.
use skill_asset_protocol.Base.{
  ℕ, [], ◌∷◌, ◌++◌, Bool, true, false, not, ◌&&◌, Option, none, some, JsString, js, text_eq,
  includes, length, all, ltb, leb, ◌==◌, Result, ok, err, ◌>>=◌, ◌>>◌, fail_if, decimal, is_digit,
  value, if◌then◌else◌,
}
use skill_asset_protocol.Kernel.Patterns.{hash_pattern, before, behind}
use skill_asset_protocol.Kernel.Platform.{Platform}
use skill_asset_protocol.Kernel.Canonical.{join_comma}
use skill_asset_protocol.Awards.Errors.{
  AwardError, Calendar, period_format, scope_scale, hash_format, registration_version,
  registration_status, registration_creator, registration_window, registration_revoked,
  registration_not_effective, registration_expired,
}
use skill_asset_protocol.Awards.Schema.{parse_utc, require_string, require_strings}

abbrev is_dash : ℕ → Bool
is_dash c = c == b'-'

-- The months from 01 to 12 of `/^\d{4}-(0[1-9]|1[0-2])$/`, the year and the month as numbers.
unfoldable pub period_parts : JsString → Option (ℕ × ℕ)
period_parts s =
    let year = before is_dash s in
    let month = behind is_dash s in
    if length year == 4
      && all is_digit year
      && length month == 2
      && all is_digit month
      && leb 1 (value 0 month)
      && leb (value 0 month) 12
    then some (value 0 year, value 0 month)
    else none

unfoldable pub period_end : Calendar → Option (ℕ × ℕ) → Result AwardError JsString
period_end calendar none = err period_format
period_end calendar (some (year, month)) =
    ok (calendar.iso_string (calendar.month_start year month))

unfoldable pub period_end_exclusive : Calendar → JsString → Result AwardError JsString
period_end_exclusive calendar period = period_end calendar (period_parts period)

unfoldable pub receipt_sequence_scope :
    Platform → JsString → JsString → JsString → ℕ → Result AwardError JsString
receipt_sequence_scope p employer_id creator_id currency atomic_scale = do
  require_strings (employer_id ∷ creator_id ∷ currency ∷ [])
  fail_if (ltb 18 atomic_scale) scope_scale
  ok (
      b'['
      ∷ (join_comma (
            p.json_string employer_id
            ∷ p.json_string creator_id
            ∷ p.json_string currency
            ∷ decimal atomic_scale
            ∷ [])
          ++ b']' ∷ []))

unfoldable pub skill_registration_key : JsString → JsString → Result AwardError JsString
skill_registration_key skill_id skill_version_hash = do
  _ ← require_string skill_id
  fail_if (not (hash_pattern skill_version_hash)) hash_format
  ok (skill_id ++ b'@' ∷ skill_version_hash)

pub record SkillRegistration : Type 0 where
  pub schema_version : ℕ
  pub registration_id : JsString
  pub skill_id : JsString
  pub skill_version_hash : JsString
  pub creator_id : JsString
  pub employer_id : JsString
  pub status : JsString
  pub effective_at : JsString
  pub expires_at : JsString

-- The checks that `allowInactive` leaves out.
unfoldable pub require_active : Bool → SkillRegistration → ℕ → ℕ → ℕ → Result AwardError (Unit {0})
require_active true r effective_at expires_at at = ok tt
require_active false r effective_at expires_at at = do
  fail_if (not (text_eq r.status (js "active"))) registration_revoked
  fail_if (ltb at effective_at) registration_not_effective
  fail_if (leb expires_at at) registration_expired

unfoldable pub validate_skill_registration :
    Calendar → SkillRegistration → JsString → Bool → Result AwardError SkillRegistration
validate_skill_registration calendar r now allow_inactive = do
  fail_if (not (r.schema_version == 1)) registration_version
  require_strings (r.registration_id ∷ r.skill_id ∷ r.creator_id ∷ r.employer_id ∷ [])
  _ ← skill_registration_key r.skill_id r.skill_version_hash
  fail_if (not (includes r.status (js "active" ∷ js "revoked" ∷ []))) registration_status
  fail_if (text_eq r.creator_id r.employer_id) registration_creator
  effective_at ← parse_utc calendar r.effective_at
  expires_at ← parse_utc calendar r.expires_at
  fail_if (leb expires_at effective_at) registration_window
  at ← parse_utc calendar now
  require_active allow_inactive r effective_at expires_at at
  ok r
