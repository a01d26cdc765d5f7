-- ===== src/Errors/Tests.antt =====
-- errors.go at concrete errors.
use onelog.Prelude.{◌≡◌, refl, some, codes}
use onelog.Errors.{sentinel, buffer_full, wrapped, wrap_error}

wrapped_once :
    wrap_error (some (sentinel buffer_full)) (codes "x")
    ≡ some (wrapped (codes "x") (sentinel buffer_full))
unfolding wrap_error
wrapped_once = refl
