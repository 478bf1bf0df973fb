-- ===== src/Staging/Json.antt =====
-- JSON values, as `serde_json::Value` holds them, and the accessors that the staging of blocks uses
-- (src/grpc/mod.rs). An object lists its members in the order they were written.
use llm.Base.{ℕ, ◌-◌, ◌^◌, ◌%◌, String, Bool, Option, none, some, ltb, leb, if◌then◌else◌, u64_max}
use text.Mathlib.Text.{◌==◌ as str_eq}

pub data ℤ : Type 0 where
  pos negsuc : ℕ → ℤ

mutual
  pub data Value : Type 0 where
    null : Value
    bool : Bool → Value
    -- An integer of the text; `float` stands for every other number, by its bits.
    number : ℤ → Value
    float : ℕ → Value
    string : String → Value
    array : Items → Value
    object : Fields → Value

  pub data Items : Type 0 where
    nil : Items
    cons : Value → Items → Items

  pub data Fields : Type 0 where
    end : Fields
    field : String → Value → Fields → Fields

-- The cast of a wider number to `u32`.
abbrev pub as_u32 : ℕ → ℕ
as_u32 n = n % 2 ^ 32

-- The cast of an `i64` to `i32`.
abbrev pub as_i32 : ℤ → ℤ
as_i32 (pos n) = let r = n % 2 ^ 32 in if ltb r (2 ^ 31) then pos r else negsuc (2 ^ 32 - 1 - r)
as_i32 (negsuc n) = let r = n % 2 ^ 32 in if ltb r (2 ^ 31) then negsuc r else pos (2 ^ 32 - 1 - r)

abbrev pub get : String → Fields → Option Value
get k end = none
get k (field j v fs) = if str_eq j k then some v else get k fs

-- `and_then`
abbrev pub bind {ℓ κ} : {A : Type ℓ} {B : Type κ} → Option A → (A → Option B) → Option B
bind none f = none
bind (some a) f = f a

abbrev pub as_u64 : Value → Option ℕ
as_u64 (number (pos n)) = if leb n u64_max then some n else none
as_u64 v = none

abbrev pub as_i64 : Value → Option ℤ
as_i64 (number (pos n)) = if ltb n (2 ^ 63) then some (pos n) else none
as_i64 (number (negsuc n)) = if ltb n (2 ^ 63) then some (negsuc n) else none
as_i64 v = none

abbrev pub as_str : Value → Option String
as_str (string s) = some s
as_str v = none

abbrev pub as_bool : Value → Option Bool
as_bool (bool b) = some b
as_bool v = none

abbrev pub as_object : Value → Option Fields
as_object (object fs) = some fs
as_object v = none

abbrev pub as_array : Value → Option Items
as_array (array xs) = some xs
as_array v = none
