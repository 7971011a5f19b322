-- ===== src/License/Status.antt =====
-- When a licence is valid, and what the watermark does (src/license_manager.c).
use flux_wan.Base.{
  ℕ, ◌≤◌, ◌≡◌, refl, inl, inr, List, Bool, not, ◌&&◌, ◌||◌, leb, ◌==◌, Bool-cases, arith,
}
use flux_wan.License.{
  Info, Payload, State, same_text, later, rolled_back, update_status, is_days, Parsed, verified,
  bad_length, bad_magic, bad_signature, parse_and_verify,
}
use flux_wan.License.Operations.{
  tick, tick_days, tick_grace, elapsed, activate, activate_payload, activate_parsed, is_empty,
}

module _ (local_hwid : List ℕ) (now_ts : ℕ) (p : Payload) (info : Info) (wm : ℕ) where
  -- A payload makes the licence valid exactly if it is for this machine and is either for life, or
  -- not expired while the clock has not been turned back by more than five minutes.
  pub update_status-valid :
      let timely = not (rolled_back wm now_ts) && not (leb p.expires_at now_ts) in
      (update_status local_hwid now_ts p info wm).0.is_valid
      ≡ (same_text p.hwid local_hwid && (p.type == 2 || timely))
  unfolding update_status
  update_status-valid = elim (Bool-cases (same_text p.hwid local_hwid)) [
    | inr a ↦ rw a refl
    | inl a ↦ rw a (elim (Bool-cases (p.type == 2)) [
      | inl b ↦ rw b refl
      | inr b ↦ rw b (elim (Bool-cases (rolled_back wm now_ts)) [
        | inl c ↦ rw c refl
        | inr c ↦
            rw c (elim (Bool-cases (leb p.expires_at now_ts)) [
              | inl d ↦ rw d refl
              | inr d ↦ rw d refl
            ])
      ])
    ])
  ]

  pub update_status-watermark : wm ≤ (update_status local_hwid now_ts p info wm).1
  unfolding update_status
  update_status-watermark = elim (Bool-cases (same_text p.hwid local_hwid)) [
    | inr a ↦ rw a (omega arith)
    | inl a ↦ rw a (elim (Bool-cases (p.type == 2)) [
      | inl b ↦ rw b (omega arith)
      | inr b ↦ rw b (elim (Bool-cases (rolled_back wm now_ts)) [
        | inl c ↦ rw c (omega arith)
        | inr c ↦ rw c (ground arith)
      ])
    ])
  ]

tick_days-watermark : (now_ts wm : ℕ) (info : Info) → wm ≤ (tick_days now_ts wm info).1
unfolding tick_days
tick_days-watermark now_ts wm info = elim (Bool-cases (info.is_valid && is_days info.type)) [
  | inr a ↦ rw a (omega arith)
  | inl a ↦ rw a (elim (Bool-cases (rolled_back wm now_ts)) [
    | inl b ↦ rw b (omega arith)
    | inr b ↦ rw b (ground arith)
  ])
]

module _ (verify : List ℕ → List ℕ → Bool) (local_hwid : List ℕ) where
  activate_payload-watermark :
      (key : List ℕ) (now_ts : ℕ) (st : State) (p : Payload)
      → st.watermark ≤ (activate_payload verify local_hwid key now_ts st p).0.watermark
  unfolding activate_payload
  activate_payload-watermark key now_ts st p =
      let wm = later st.watermark now_ts in
      let grows = update_status-watermark local_hwid now_ts p st.info wm in
      let start : st.watermark ≤ wm = ground arith in
      elim (Bool-cases (same_text p.hwid local_hwid)) [
        | inr a ↦ rw a (omega arith)
        | inl a ↦ rw a (elim (Bool-cases (p.type == 1 && leb p.expires_at now_ts)) [
          | inl b ↦ rw b (omega arith)
          | inr b ↦ rw b (omega (arith, grows, start))
        ])
      ]

  activate_parsed-watermark :
      (key : List ℕ) (now_ts : ℕ) (st : State) (r : Parsed)
      → st.watermark ≤ (activate_parsed verify local_hwid key now_ts st r).0.watermark
  activate_parsed-watermark key now_ts st (verified p) = activate_payload-watermark key now_ts st p
  activate_parsed-watermark key now_ts st bad_length = omega arith
  activate_parsed-watermark key now_ts st bad_magic = omega arith
  activate_parsed-watermark key now_ts st bad_signature = omega arith

  -- Neither a tick nor an activation moves the watermark back.
  pub watermark_mono :
      (key : List ℕ) (now_ms now_ts : ℕ) (st : State)
      → (st.watermark ≤ (tick now_ms now_ts st).watermark)
        × (st.watermark ≤ (activate verify local_hwid key now_ts st).0.watermark)
  unfolding tick activate
  watermark_mono key now_ms now_ts st = (
    tick_days-watermark now_ts st.watermark (tick_grace (elapsed st.last_tick_ms now_ms).0 st.info),
    elim (Bool-cases (is_empty key)) [
      | inl a ↦ rw a (omega arith)
      | inr a ↦ rw a (activate_parsed-watermark key now_ts st (parse_and_verify verify key))
    ],
  )
