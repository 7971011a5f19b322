-- ===== src/DynBuf.antt =====
-- src/dyn_buf.c: a text buffer that grows. Whether `malloc` and `realloc` succeed is an input, and
-- so is what `vsnprintf` formats.
pub mod Growth
use flux_wan.Base.{
  ℕ, zero, suc, ◌+◌, ◌*◌, List, [], ◌∷◌, ◌++◌, Bool, true, false, not, Option, none, some, u32, u64,
  ltb, leb, ◌==◌, if◌then◌else◌, length,
}

-- `dyn_buf_t`: `len` is the length of the text; `has_data` is false for a null pointer. A zero byte
-- stands behind the text.
pub record DynBuf : Type 0 where
  pub text : List ℕ
  pub capacity : ℕ
  pub has_data : Bool

abbrev pub default_capacity : ℕ
default_capacity = 2048

-- The buffer and the `int` that a call returns, as its 32 bits.
abbrev pub Result : Type 0
Result = DynBuf × ℕ

-- -1
abbrev pub minus_one : ℕ
minus_one = 0xFFFFFFFF

-- The loop of `dyn_buf_grow`, on fuel: none if it has run out.
unfoldable pub double : ℕ → ℕ → ℕ → Option ℕ
double zero new_cap needed = none
double (suc fuel) new_cap needed =
    let more = double fuel (u64 (new_cap * 2)) needed in
    if ltb new_cap needed then more else some new_cap

-- Doublings of a positive size that reach 2 ^ 63.
abbrev pub enough : ℕ
enough = 64

abbrev pub first_cap : ℕ → ℕ
first_cap capacity = if capacity == 0 then default_capacity else u64 (capacity * 2)

abbrev pub reallocated : Bool → DynBuf → Option ℕ → Option DynBuf
reallocated room buf none = none
reallocated room buf (some new_cap) =
    if room then some (record buf { capacity = new_cap; has_data = true }) else none

-- `dyn_buf_grow`: none for -1.
unfoldable pub grow : Bool → DynBuf → ℕ → Option DynBuf
grow room buf needed =
    let total = u64 (length buf.text + needed + 1) in
    if leb total buf.capacity
    then some buf
    else reallocated room buf (double enough (first_cap buf.capacity) total)

-- `dyn_buf_init`.
unfoldable pub init : Bool → ℕ → DynBuf
init room initial_capacity =
    let cap = if initial_capacity == 0 then default_capacity else initial_capacity in
    record { text = []; capacity = if room then cap else 0; has_data = room }

-- `(int)len` keeps the low 32 bits.
abbrev pub appended : DynBuf → List ℕ → Option DynBuf → Result
appended old str none = (old, minus_one)
appended old str (some buf) = (record buf { text = buf.text ++ str }, u32 (length str))

-- `dyn_buf_append_len` and `dyn_buf_append`, which finds the length of a text.
unfoldable pub append_len : Bool → DynBuf → List ℕ → Result
unfolding grow double
append_len room buf str =
    if length str == 0 then (buf, 0) else appended buf str (grow room buf (length str))

-- `dyn_buf_printf` and `dyn_buf_vprintf`, where `vsnprintf` gives a text or fails.
unfoldable pub printf : Bool → DynBuf → Option (List ℕ) → Result
unfolding grow double
printf room buf none = (buf, minus_one)
printf room buf (some str) = appended buf str (grow room buf (length str))

-- `dyn_buf_free`.
unfoldable pub free : DynBuf → DynBuf
free buf = record { text = []; capacity = 0; has_data = false }

-- `dyn_buf_cstr`.
unfoldable pub cstr : DynBuf → List ℕ
cstr buf = if buf.has_data then buf.text else []
