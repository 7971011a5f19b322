-- ===== src/License/Operations.antt =====
-- `license_manager_init`, `license_manager_tick` and `license_manager_activate` of
-- src/license_manager.c. The signature check and the identity of the machine are parameters.
use flux_wan.Base.{
  ℕ, ◌-◌, ◌/◌, List, [], ◌∷◌, ◌++◌, Bool, true, false, not, ◌&&◌, Option, none, some, u32, ltb, leb,
  ◌==◌, if◌then◌else◌, take,
}
use flux_wan.License.{
  none_given, expired, tampered, grace, Info, Payload, State, default_grace_sec, Parsed, verified,
  parse_and_verify, same_text, later, rolled_back, days_left, ended, update_status, is_grace,
  is_days,
}

-- The line that `fgets` reads.
unfoldable pub first_line : List ℕ → List ℕ
first_line [] = []
first_line (c ∷ cs) = if c == 10 then c ∷ [] else c ∷ first_line cs

-- The seconds since the last tick, with the new time of the last tick.
unfoldable pub elapsed : ℕ → ℕ → ℕ × ℕ
elapsed last now_ms =
    let sec = u32 ((now_ms - last) / 1000) in
    if ltb 0 last && ltb last now_ms then (sec, if ltb 0 sec then now_ms else last) else (0, now_ms)

-- The grace period runs down.
unfoldable pub tick_grace : ℕ → Info → Info
tick_grace sec info =
    let left : Info = record info {
      grace_seconds_remaining = info.grace_seconds_remaining - sec;
    } in
    let over : Info = record info { grace_seconds_remaining = 0; status = none_given } in
    if not info.is_valid && is_grace info.status && ltb 0 sec
    then (if ltb sec info.grace_seconds_remaining then left else over)
    else info

abbrev pub counted_down : ℕ → Info → Info
counted_down rem_sec info = record info {
  active_seconds_remaining = rem_sec;
  days_remaining = days_left rem_sec;
}

-- A subscription is checked against the clock.
unfoldable pub tick_days : ℕ → ℕ → Info → Info × ℕ
tick_days now_ts wm info =
    if info.is_valid && is_days info.type
    then (if rolled_back wm now_ts
        then (record info { status = tampered; is_valid = false }, wm)
        else (
          if leb info.expires_at now_ts
              then ended expired info
              else counted_down (info.expires_at - now_ts) info,
          later wm now_ts,
        ))
    else (info, wm)

unfoldable pub tick : ℕ → ℕ → State → State
tick now_ms now_ts st =
    let (sec, last) = elapsed st.last_tick_ms now_ms in
    let (info, wm) = tick_days now_ts st.watermark (tick_grace sec st.info) in
    record st { info = info; watermark = wm; last_tick_ms = last }

abbrev pub with_grace : State → State
with_grace st =
    let i = st.info in
    let granted : Info = record i { status = grace; grace_seconds_remaining = default_grace_sec } in
    record st { info = if i.is_valid then i else granted }

pub data Activation : Type 0 where
  activated no_key rejected wrong_machine already_expired : Activation

abbrev pub is_empty : List ℕ → Bool
is_empty [] = true
is_empty (c ∷ cs) = false

module _ (verify : List ℕ → List ℕ → Bool) (local_hwid : List ℕ) where
  abbrev pub apply_parsed : ℕ → State → Parsed → State
  apply_parsed now_ts st (verified p) =
      let (info, wm) = update_status local_hwid now_ts p st.info st.watermark in
      record st { info = info; watermark = wm }
  apply_parsed now_ts st _ = st

  abbrev pub load_key : ℕ → State → Option (List ℕ) → State
  load_key now_ts st none = st
  load_key now_ts st (some key) =
      apply_parsed now_ts st (parse_and_verify verify (take 1023 (first_line key)))

  -- The state before it is the initial value of the global with `hwid` set.
  unfoldable pub init : ℕ → State → State
  init now_ts st = with_grace (load_key now_ts (record st { last_tick_ms = 0 }) st.key_file)

  -- The activation of a verified payload.
  unfoldable pub activate_payload : List ℕ → ℕ → State → Payload → State × Activation
  activate_payload key now_ts st p =
      let wm = later st.watermark now_ts in
      let (info, wm') = update_status local_hwid now_ts p st.info wm in
      if not (same_text p.hwid local_hwid)
      then (st, wrong_machine)
      else (if p.type == 1 && leb p.expires_at now_ts then (st, already_expired) else (
        record st { info = info; watermark = wm'; key_file = some (key ++ 10 ∷ []) },
        activated,
      ))

  abbrev pub activate_parsed : List ℕ → ℕ → State → Parsed → State × Activation
  activate_parsed key now_ts st (verified p) = activate_payload key now_ts st p
  activate_parsed key now_ts st _ = (st, rejected)

  unfoldable pub activate : List ℕ → ℕ → State → State × Activation
  activate key now_ts st =
      if is_empty key
      then (st, no_key)
      else activate_parsed key now_ts st (parse_and_verify verify key)
