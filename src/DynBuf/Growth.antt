-- ===== src/DynBuf/Growth.antt =====
-- The growing buffer of src/dyn_buf.c has room for what is appended.
use flux_wan.Base.{
  ℕ, zero, suc, ◌+◌, ◌*◌, ◌^◌, ◌≤◌, ◌<◌, ◌≡◌, refl, sym, ap, inl, inr, List, [], ◌∷◌, ◌++◌, Bool,
  true, false, ◌&&◌, ◌⊎◌, none, some, Bool-cases, u32, u64, ltb, leb, ◌==◌, if◌then◌else◌, length,
  length-append, append-nil, arith,
}
use flux_wan.DynBuf.{minus_one, DynBuf, double, enough, first_cap, grow, appended, append_len, cstr}

-- The text and its zero byte fit; a null pointer comes with an empty text and no capacity.
abbrev pub is_sound : DynBuf → Bool
is_sound buf =
    if buf.has_data
    then leb (length buf.text + 1) buf.capacity
    else length buf.text == 0 && buf.capacity == 0

-- A size doubled again and again.
reach : ℕ → ℕ → ℕ
reach zero new_cap = new_cap
reach (suc n) new_cap = reach n (new_cap * 2)

-- The loop ends, and with enough.
double-ends :
    (fuel new_cap needed : ℕ)
    → needed ≤ 2 ^ 63
    → needed ≤ reach fuel new_cap
    → (c : ℕ) × (double (suc fuel) new_cap needed ≡ some c) × (needed ≤ c)
unfolding double reach
double-ends zero new_cap needed b h = (new_cap, ground arith, h)
double-ends (suc fuel) new_cap needed b h = elim (Bool-cases (ltb new_cap needed)) [
  | inl e ↦
      (let same : u64 (new_cap * 2) ≡ new_cap * 2 = ground arith in
        let (c, r, l) = double-ends fuel (new_cap * 2) needed b h in (c, rw (e, same) r, l))
  | inr e ↦ (new_cap, rw e refl, ground arith)
]

double-enough :
    (new_cap needed : ℕ)
    → 0 < new_cap
    → needed ≤ 2 ^ 63
    → (c : ℕ) × (double enough new_cap needed ≡ some c) × (needed ≤ c)
double-enough new_cap needed p b = double-ends 63 new_cap needed b (unfold reach in omega arith)

-- What `grow` gives is the text with room for `needed` bytes more, or none without memory.
Grown : Bool → DynBuf → ℕ → Type 0
Grown room buf needed =
    ((c : ℕ) × (length buf.text + needed + 1 ≤ c)
      × (grow room buf needed ≡ some (record buf { capacity = c; has_data = true })))
    ⊎ (room ≡ false) × (grow room buf needed ≡ none)

reallocated-Grown :
    (room : Bool) (buf : DynBuf) (needed c : ℕ)
    → leb (u64 (length buf.text + needed + 1)) buf.capacity ≡ false
    → u64 (length buf.text + needed + 1) ≡ length buf.text + needed + 1
    → length buf.text + needed + 1 ≤ c
    → double enough (first_cap buf.capacity) (length buf.text + needed + 1) ≡ some c
    → Grown room buf needed
unfolding Grown grow
reallocated-Grown true buf needed c h s l e = inl (c, l, rw h (rw s (rw e refl)))
reallocated-Grown false buf needed c h s l e = inr (refl, rw h (rw s (rw e refl)))

grow-Grown :
    (room : Bool) (buf : DynBuf) (needed : ℕ)
    → is_sound buf ≡ true
    → buf.capacity < 2 ^ 63
    → length buf.text + needed + 1 ≤ 2 ^ 63
    → Grown room buf needed
grow-Grown room buf needed v k b =
    let s : u64 (length buf.text + needed + 1) ≡ length buf.text + needed + 1 = omega arith in
    elim (Bool-cases (leb (u64 (length buf.text + needed + 1)) buf.capacity)) [
      | inl e ↦
          (let l : length buf.text + needed + 1 ≤ buf.capacity = ground arith in
            let d : buf.has_data ≡ true = ground arith in
            unfold Grown grow in inl (buf.capacity, l, rw e (rw d refl)))
      | inr e ↦
          (let (c, r, l) =
              double-enough (first_cap buf.capacity) (length buf.text + needed + 1) (ground arith)
                b in
            reallocated-Grown room buf needed c e s l r)
    ]

-- A null pointer stands for the empty text.
null_empty :
    (buf : DynBuf) (t : List ℕ)
    → buf.text ≡ t
    → is_sound buf ≡ true
    → (if buf.has_data then t else []) ≡ t
null_empty buf [] e v = ground arith
null_empty buf (x ∷ t) e v = let d : buf.has_data ≡ true = ground arith in rw d refl

cstr_sound : (buf : DynBuf) → is_sound buf ≡ true → cstr buf ≡ buf.text
unfolding cstr
cstr_sound buf v = null_empty buf buf.text refl v

appended-cases :
    (room : Bool) (buf : DynBuf) (str : List ℕ)
    → is_sound buf ≡ true
    → Grown room buf (length str)
    → (((cstr (appended buf str (grow room buf (length str))).0 ≡ cstr buf ++ str)
          × ((appended buf str (grow room buf (length str))).1 ≡ u32 (length str)))
        ⊎ (room ≡ false) × (appended buf str (grow room buf (length str)) ≡ (buf, minus_one)))
      × (is_sound (appended buf str (grow room buf (length str))).0 ≡ true)
unfolding Grown cstr
appended-cases room buf str v (inl (c, l, e)) =
    let old : cstr buf ≡ buf.text = cstr_sound buf v in
    rw e (inl (ap (λ t. t ++ str) (sym old), refl), ground (arith, length-append buf.text str))
appended-cases room buf str v (inr (r, e)) = rw e (inr (r, refl), v)

-- On a buffer whose text and zero byte fit, or a null one, an append of a text within 2^63 bytes in
-- all adds it behind what was there and returns the low 32 bits of its length, or without memory
-- returns -1 and changes nothing; with memory it does not fail. In each case the text and its zero
-- byte fit again.
pub append_len-cstr :
    (room : Bool) (buf : DynBuf) (str : List ℕ)
    → is_sound buf ≡ true
    → buf.capacity < 2 ^ 63
    → length buf.text + length str + 1 ≤ 2 ^ 63
    → (((cstr (append_len room buf str).0 ≡ cstr buf ++ str)
          × ((append_len room buf str).1 ≡ u32 (length str)))
        ⊎ (room ≡ false) × (append_len room buf str ≡ (buf, minus_one)))
      × (is_sound (append_len room buf str).0 ≡ true)
append_len-cstr room buf [] v k b =
    unfold append_len in (inl (sym (append-nil (cstr buf)), refl), v)
append_len-cstr room buf (x ∷ str) v k b =
    let full : (length (x ∷ str) == 0) ≡ false = ground arith in
    let more : append_len room buf (x ∷ str)
        ≡ appended buf (x ∷ str) (grow room buf (length (x ∷ str))) =
      unfold append_len in rw full refl in
    rw more (appended-cases room buf (x ∷ str) v (grow-Grown room buf (length (x ∷ str)) v k b))
