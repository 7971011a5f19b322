-- ===== src/WanManager/Health.antt =====
-- `wan_manager_on_health_update` (src/wan_manager.c).
use flux_wan.Base.{
  ℕ, ◌≡◌, refl, ◌∙◌, subst, inl, inr, ◌≢◌, List, [], ◌∷◌, ◌++◌, Bool, true, false, ◌&&◌, ◌||◌,
  Option, none, some, ◌==◌, if◌then◌else◌, Bool-cases, get_elem?, set, arith,
}
use flux_wan.Config.{WanState, down, degraded, healthy, draining, Wan, Metrics, Telegram}
use flux_wan.Maglev.{Member}
use flux_wan.WanManager.{
  Ctx, Effect, Code, log_state_change, telegram_failover, telegram_recovery, rebalance, with_wans,
}

-- The values of the `enum`.
abbrev pub state_code : WanState → ℕ
state_code down = 0
state_code degraded = 1
state_code healthy = 2
state_code draining = 3

abbrev pub same_state : WanState → WanState → Bool
same_state a b = state_code a == state_code b

unfoldable pub telegram : Telegram → ℕ → WanState → List Effect
telegram t idx s =
    let bad = same_state s down || same_state s degraded in
    if t.enabled
    then (if bad && t.notify_on_failover
        then telegram_failover idx s ∷ []
        else (if same_state s healthy && t.notify_on_recovery
            then telegram_recovery idx ∷ []
            else []))
    else []

abbrev pub put_wan : Ctx → ℕ → Wan → Ctx
put_wan ctx i w = with_wans ctx (set ctx.config.wans i w)

abbrev pub measured : Wan → Option Metrics → Wan
measured w none = w
measured w (some m) = record w { metrics = m }

abbrev pub before_effects :
    List Effect → Option (Ctx × List Effect × Code) → Option (Ctx × List Effect)
before_effects es none = none
before_effects es (some (ctx, fs, code)) = some (ctx, es ++ fs)

-- What an update of the WAN `w` at an index does.
unfoldable pub update_wan :
    ℕ → (ℕ → Member) → Bool → Ctx → ℕ → WanState → Wan → Option (Ctx × List Effect)
update_wan size stale authorized ctx i s w =
    let changed = put_wan ctx i (record w { state = s }) in
    if same_state w.state draining
    then some (put_wan ctx i w, [])
    else (if same_state w.state s
        then some (changed, [])
        else before_effects (log_state_change i s ∷ telegram ctx.config.telegram i s)
            (rebalance size stale authorized changed))

abbrev pub update_found :
    ℕ
    → (ℕ → Member)
    → Bool
    → Ctx
    → ℕ
    → WanState
    → Option Metrics
    → Option Wan
    → Option (Ctx × List Effect)
update_found size stale authorized ctx i s m none = some (ctx, [])
update_found size stale authorized ctx i s m (some w) =
    update_wan size stale authorized ctx i s (measured w m)

unfoldable pub on_health_update :
    ℕ → (ℕ → Member) → Bool → Ctx → ℕ → WanState → Option Metrics → Option (Ctx × List Effect)
on_health_update size stale authorized ctx i s m =
    update_found size stale authorized ctx i s m (get_elem? ctx.config.wans i)

pub same_state_refl : (s : WanState) → same_state s s ≡ true
same_state_refl down = refl
same_state_refl _ = refl

pub same_state→eq : (a b : WanState) → same_state a b ≡ true → a ≡ b
same_state→eq a b h = ground arith

pub same_state-ne : (a b : WanState) → a ≢ b → same_state a b ≡ false
same_state-ne a b h = ground arith

measured-state : (w : Wan) (m : Option Metrics) → (measured w m).state ≡ w.state
measured-state w none = refl
measured-state w (some m) = refl

module _ (size : ℕ) (stale : ℕ → Member) (authorized : Bool) (ctx : Ctx) (i : ℕ)
    (s : WanState) where
  -- A WAN that is draining keeps its state, whatever is reported, and nothing is sent out.
  pub on_health_update-draining :
      (m : Option Metrics) {w : Wan}
      → get_elem? ctx.config.wans i ≡ some w
      → w.state ≡ draining
      → on_health_update size stale authorized ctx i s m ≡ some (put_wan ctx i (measured w m), [])
  unfolding on_health_update update_wan
  on_health_update-draining none {w} there d = rw there (rw d)
  on_health_update-draining (some m) {w} there d = rw there (rw d)

  update_wan_same :
      (w : Wan) → update_wan size stale authorized ctx i w.state w ≡ some (put_wan ctx i w, [])
  unfolding update_wan
  update_wan_same w = elim (Bool-cases (same_state w.state draining)) [
    | inl b ↦ rw b
    | inr b ↦ rw (b, same_state_refl w.state)
  ]

  -- A report of the state that the WAN already has only stores the metrics.
  pub on_health_update_same :
      (m : Option Metrics) {w : Wan}
      → get_elem? ctx.config.wans i ≡ some w
      → w.state ≡ s
      → on_health_update size stale authorized ctx i s m ≡ some (put_wan ctx i (measured w m), [])
  unfolding on_health_update
  on_health_update_same m {w} there d = rw there (
      subst
        (λ x.
          update_wan size stale authorized ctx i x (measured w m)
          ≡ some (put_wan ctx i (measured w m), []))
        (measured-state w m ∙ d) (update_wan_same (measured w m)))

  -- A report of another state for a WAN that is not draining stores it and rebalances.
  pub on_health_update-rebalance :
      (m : Option Metrics) {w : Wan}
      → get_elem? ctx.config.wans i ≡ some w
      → w.state ≢ draining
      → w.state ≢ s
      → on_health_update size stale authorized ctx i s m
        ≡ before_effects
            (log_state_change i s ∷ telegram ctx.config.telegram i s)
            (rebalance size stale authorized (put_wan ctx i (record (measured w m) { state = s })))
  unfolding on_health_update update_wan
  on_health_update-rebalance m {w} there nd ns =
      rw (there, measured-state w m, same_state-ne w.state draining nd, same_state-ne w.state s ns)
