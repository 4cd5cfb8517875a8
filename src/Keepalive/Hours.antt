-- ===== src/Keepalive/Hours.antt =====
-- `resolveHoursEnv` of whatsapp-bridge/hours_env.go, which reads the interval of the keepalive.
-- `strconv.Atoi` is Go's library: `atoi` gives the number, `none` on an error.
use whatsapp_mcp.Prelude.{
  ℕ, ◌*◌, ◌≤◌, ◌&&◌, ◌≡◌, ◌⊎◌, inl, inr, Option, none, some, arith, Bool-cases, ltb, if◌then◌else◌,
}
use whatsapp_mcp.Prelude.Int.{ℤ, pos, negsuc}
use whatsapp_mcp.Prelude.Text.{Text, trim_space, is_empty}

abbrev pub hour_ns : ℕ
hour_ns = 3600 * 1000000000

-- `math.MaxInt64`, the longest duration.
abbrev pub max_duration : ℕ
max_duration = 9223372036854775807

unfoldable pub hours_of : ℕ → ℤ → Option ℕ
hours_of max_hours (negsuc n) = none
hours_of max_hours (pos hours) =
    if ltb 2562047 hours
    then none
    else if ltb 0 max_hours && ltb max_hours hours
    then none
    else some (hours * hour_ns)

unfoldable pub parsed_hours : ℕ → Option ℤ → Option ℕ
unfolding hours_of
parsed_hours max_hours none = none
parsed_hours max_hours (some hours) = hours_of max_hours hours

hours_of-within :
    (max_hours d : ℕ) (h : ℤ)
    → hours_of max_hours h ≡ some d
    → (d ≤ max_duration) × ((max_hours ≡ 0) ⊎ (d ≤ max_hours * hour_ns))
unfolding hours_of
hours_of-within max_hours d (negsuc n) h = cc
hours_of-within max_hours d (pos hours) h = elim (Bool-cases (ltb 0 max_hours)) [
  | inl y ↦ (ground arith, inr (ground arith))
  | inr n ↦ (ground arith, inl (ground arith))
]

parsed_hours-within :
    (max_hours d : ℕ) (o : Option ℤ)
    → parsed_hours max_hours o ≡ some d
    → (d ≤ max_duration) × ((max_hours ≡ 0) ⊎ (d ≤ max_hours * hour_ns))
unfolding parsed_hours
parsed_hours-within max_hours d none h = cc
parsed_hours-within max_hours d (some x) h = hours_of-within max_hours d x h

module _ (atoi : Text → Option ℤ) where
  unfoldable pub resolve_hours : Text → ℕ → ℕ → Option ℕ
  resolve_hours value default max_hours =
      if is_empty (trim_space value)
      then some default
      else parsed_hours max_hours (atoi (trim_space value))

  -- A setting in hours that is accepted is the default or an interval that a duration can hold and
  -- that is within the bound of its variable, where it has one.
  resolve_hours-within :
      (value : Text) (default max_hours d : ℕ)
      → resolve_hours value default max_hours ≡ some d
      → (d ≡ default) ⊎ ((d ≤ max_duration) × ((max_hours ≡ 0) ⊎ (d ≤ max_hours * hour_ns)))
  unfolding resolve_hours
  resolve_hours-within value default max_hours d h =
      elim (Bool-cases (is_empty (trim_space value))) [
        | inl e ↦ inl (ground arith)
        | inr e ↦ inr (parsed_hours-within max_hours d (atoi (trim_space value)) (ground arith))
      ]
