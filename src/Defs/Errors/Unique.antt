-- ===== src/Defs/Errors/Unique.antt =====
-- The codes of src/defs/errors.ts are distinct.
use smpp_js.Prelude.{
  ℕ, ◌≡◌, refl, true, some, String, string_eq, nat_eq, find, every, every-find, is_name, is_name_eq,
}
use smpp_js.Defs.Errors.{errors, error_name_by_id}

named_back : every (λ name code. is_name (error_name_by_id code) name) errors ≡ true
unfolding error_name_by_id errors
named_back = refl

-- Every name of the table is found again by its code, so no two names share a code.
pub error_name_by_id-errors :
    (name : String) (code : ℕ) → find name errors ≡ some code → error_name_by_id code ≡ some name
error_name_by_id-errors name code e =
    is_name_eq _ name
      (every-find (λ name code. is_name (error_name_by_id code) name) errors name code named_back e)
