-- ===== src/Resp/Outcome.antt =====
-- src/resp.h: `resp_status_t` and what the parser hands out.
use redis_in_c.Prelude.{ℕ, Bytes, List}

-- `resp_status_t`: RESP_OK comes with the values that it writes. The other two write nothing.
pub data Outcome {ℓ} (A : Type ℓ) : Type ℓ where
  parsed : A → Outcome A
  need_more : Outcome A
  protocol_err : Outcome A

-- `if (st != RESP_OK) return st;`
infixl 5 ◌>>=◌
abbrev pub ◌>>=◌ {ℓ κ} : {A : Type ℓ} {B : Type κ} → Outcome A → (A → Outcome B) → Outcome B
parsed a >>= f = f a
need_more >>= f = need_more
protocol_err >>= f = protocol_err

-- `resp_request_t`. A slice is the bytes that it borrows, and `argc` is the number of slices.
pub record Request : Type 0 where
  pub args : List Bytes
  pub bytes_consumed : ℕ

abbrev pub max_argc : ℕ
max_argc = 32

abbrev pub max_bulk_len : ℕ
max_bulk_len = 536870912

abbrev pub max_inline_len : ℕ
max_inline_len = 8192
