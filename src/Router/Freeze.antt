-- ===== src/Router/Freeze.antt =====
-- src/features/router/freeze.rs: when a limited key recovers, and the identity of a key's state.
-- Times are milliseconds since the epoch. The patterns of the reset times and the HTTP date are read
-- by libraries (`regex`, `chrono`, `httpdate`), so their readers are parameters.
use llm_provider_router.Prelude.{
  ℕ, ◌+◌, ◌*◌, max, Text, text, Bool, not, ◌&&◌, ◌||◌, Option, none, some, [], ◌∷◌, ◌++◌,
  contains_text, or_option, trim, parse_u64, if◌then◌else◌,
}
use llm_provider_router.Config.{KeyRef}
use llm_provider_router.Router.Selection.{Sampler}

-- The libraries that the router calls, at one call: sampling, the local calendar, the lower case
-- of a text, and the readers of dates.
pub record Env : Type 0 where
  pub sampler : Sampler
  pub local_midnight : ℕ → ℕ
  pub to_lowercase : Text → Text
  pub parse_http_date : Text → Option ℕ
  pub reset_timestamp_offset : Text → Option ℕ
  pub reset_timestamp_cn : Text → Option ℕ

unfoldable pub parse_retry_after : Env → ℕ → Option Text → Option ℕ
unfolding trim parse_u64
parse_retry_after env now none = none
parse_retry_after env now (some value) = elim (parse_u64 (trim value)) [
  | some seconds ↦ some (now + max seconds 1 * 1000)
  | none ↦ env.parse_http_date (trim value)
]

parse_reset_timestamp : Env → Text → Option ℕ
parse_reset_timestamp env body =
    or_option (env.reset_timestamp_offset body) (env.reset_timestamp_cn body)

is_five_hour : Text → Bool
unfolding text contains_text
is_five_hour lowered =
    contains_text (text "you have exceeded the 5-hour usage quota") lowered
    || contains_text (text "5 小时使用上限") lowered
    || contains_text (text "5小时使用上限") lowered

is_monthly : Text → Bool
unfolding text contains_text is_five_hour
is_monthly lowered =
    contains_text (text "you have exceeded the monthly usage quota") lowered
    || (contains_text (text "使用上限") lowered && not (is_five_hour lowered))

is_weekly : Text → Bool
unfolding text contains_text
is_weekly lowered = contains_text (text "you have exceeded the weekly usage quota") lowered

quota_reason : Text → Text
unfolding text is_weekly is_monthly
quota_reason lowered =
    if is_weekly lowered
    then text "weekly_quota"
    else if is_monthly lowered
    then text "monthly_quota"
    else text "five_hour_quota"

-- The recovery time of a quota text: its own timestamp, else the fallback of its window.
unfoldable pub parse_quota_reset : Env → ℕ → Text → ℕ → ℕ → Option (ℕ × Text)
unfolding is_five_hour is_monthly is_weekly quota_reason parse_reset_timestamp
parse_quota_reset env now body monthly_fallback five_hour_fallback =
    let lowered = env.to_lowercase body in
    if not (is_monthly lowered) && not (is_five_hour lowered) && not (is_weekly lowered)
    then none
    else elim (parse_reset_timestamp env body) [
      | some reset_at ↦ some (reset_at, quota_reason lowered)
      | none ↦ some (
        now + (if is_five_hour lowered then five_hour_fallback else monthly_fallback),
        quota_reason lowered,
      )
    ]

-- `provider/name`, or the bare name of a key without a provider.
unfoldable pub key_state_id : KeyRef → Text
key_state_id key = elim key.provider [ [] ↦ key.name | c ∷ cs ↦ (c ∷ cs) ++ b'/' ∷ key.name ]
