-- ===== src/License/Grace.antt =====
-- The grace period of src/license_manager.c.
use flux_wan.Base.{ℕ, ◌≡◌, refl, inl, inr, List, Bool, true, false, Bool-cases, arith}
use flux_wan.License.{Info, State, is_authorized}
use flux_wan.License.Operations.{init, with_grace, load_key, tick, tick_days, tick_grace, elapsed}

with_grace-authorized : (st : State) → is_authorized (with_grace st).info ≡ true
unfolding is_authorized
with_grace-authorized st = elim (Bool-cases st.info.is_valid) [
  | inl a ↦ rw a refl
  | inr a ↦ rw a refl
]

-- Every start authorizes the system, whatever the key file, the signature check and the clock are.
pub init-authorized :
    (verify : List ℕ → List ℕ → Bool) (local_hwid : List ℕ) (now_ts : ℕ) (st : State)
    → is_authorized (init verify local_hwid now_ts st).info ≡ true
unfolding init
init-authorized verify local_hwid now_ts st =
    with_grace-authorized
      (load_key verify local_hwid now_ts (record st { last_tick_ms = 0 }) st.key_file)

-- An info that a tick leaves unauthorized stays so.
tick_grace-denied :
    (sec : ℕ) (info : Info)
    → is_authorized info ≡ false
    → is_authorized (tick_grace sec info) ≡ false
unfolding is_authorized tick_grace
tick_grace-denied sec info h = ground arith

tick_days-denied :
    (now_ts wm : ℕ) (info : Info)
    → is_authorized info ≡ false
    → is_authorized (tick_days now_ts wm info).0 ≡ false
unfolding is_authorized tick_days
tick_days-denied now_ts wm info h = ground arith

-- A tick never authorizes a system that is not authorized.
pub tick-denied :
    (now_ms now_ts : ℕ) (st : State)
    → is_authorized st.info ≡ false
    → is_authorized (tick now_ms now_ts st).info ≡ false
unfolding tick
tick-denied now_ms now_ts st h =
    let sec = (elapsed st.last_tick_ms now_ms).0 in
    tick_days-denied now_ts st.watermark (tick_grace sec st.info) (tick_grace-denied sec st.info h)
