-- ===== src/Errors.antt =====
-- The errors of errors.go, internal/vclpoll/cgo.go and of Go's library, by what callers test, and
-- results.
use vclnet.Base.{ℕ, ◌+◌, ◌-◌, ℤ, pos, negsuc, int_eq, Bool, false, ◌==◌}

-- `closed` is `vclnet.ErrClosed`, `poll_closed` is `vclpoll.ErrClosed`, `net_closed` is Go's
-- `net.ErrClosed`. `errno` is a `*VCLError` with its number; `bad_option`
-- is an initialisation that is refused. `panicked`
-- stands for a Go panic.
pub data Error : Type 0 where
  closed poll_closed net_closed wait_canceled eof timeout : Error
  ownership handles_exhausted zero_write unknown_peer connected_peer missing_peer : Error
  missing_cert partial_cert : Error
  unknown_network dns_error addr_error bad_option : Error
  panicked : Error
  errno : ℕ → Error

pub data Result {ℓ} (A : Type ℓ) : Type ℓ where
  ok : A → Result A
  err : Error → Result A

-- Linux numbers; `EWOULDBLOCK` is `EAGAIN`.
abbrev pub eagain : ℕ
eagain = 11

abbrev pub etimedout : ℕ
etimedout = 110

abbrev pub einprogress : ℕ
einprogress = 115

-- `isAgainError`, by `VCLError.Is`
unfoldable pub is_again_error : Error → Bool
is_again_error (errno n) = n == eagain
is_again_error _ = false

-- `vppErr`; it is called with negative values only.
unfoldable pub vpp_err : ℤ → Error
vpp_err (pos n) = panicked
vpp_err (negsuc n) = errno (n + 1)

-- `isAgain`
unfoldable pub is_again : ℤ → Bool
is_again rv = int_eq.beq rv (negsuc (eagain - 1))

-- `isInProgress`
unfoldable pub is_in_progress : ℤ → Bool
is_in_progress rv = int_eq.beq rv (negsuc (einprogress - 1))
