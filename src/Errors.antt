-- ===== src/Errors.antt =====
-- The exceptions that the program's code throws, or that the C++ library throws into it.
use piconaut.Prelude.{Str}

pub data Error : Type 0 where
  invalid_argument runtime_error : Str → Error
  out_of_range length_error bad_function_call system_error : Error
