-- ===== src/Error.antt =====
-- The error codes of include/wimlib.h, and a result that is a value or a code. Where the source
-- returns 0, the model returns `ok`.

-- enum wimlib_error_code, the codes that the modelled functions return.
pub data Error : Type 0 where
  image_count invalid_header invalid_integrity_table invalid_metadata_resource : Error
  invalid_part_number invalid_utf8_string invalid_utf16_string nomem not_a_wim_file read : Error
  resource_order unexpected_end_of_file unknown_version write : Error

pub data Result {ℓ} (A : Type ℓ) : Type ℓ where
  ok : A → Result A
  err : Error → Result A

infixl 5 ◌>>=◌
abbrev pub ◌>>=◌ {ℓ κ} : {A : Type ℓ} {B : Type κ} → Result A → (A → Result B) → Result B
ok a >>= f = f a
err e >>= f = err e
