-- ===== src/Resp/Replies.antt =====
-- src/resp.c: the reply serializers. Each appends to the output buffer, and stops at the first
-- append that fails.
use redis_in_c.Prelude.{ℕ, some, Bytes, [], ◌∷◌, ◌++◌, length, codes, crlf}
use redis_in_c.Prelude.Int.{ℤ}
use redis_in_c.Heap.{Heap, Rc, ok, fail}
use redis_in_c.Bytebuf.{Bytebuf, append, appendf}
use redis_in_c.Decimal.{print_nat, print_int}

-- A function that appends to `*out` and returns 0 or -1.
abbrev pub Writer : Type 0
Writer = Heap → Bytebuf → Rc × Bytebuf × Heap

abbrev pub next_write : Writer → Rc × Bytebuf × Heap → Rc × Bytebuf × Heap
next_write k (ok, b, h) = k h b
next_write k (fail, b, h) = (fail, b, h)

-- `if (m < 0) return -1;` and then `k`
infixr 5 ◌>>◌
unfoldable pub ◌>>◌ : Writer → Writer → Writer
◌>>◌ m k h b = next_write k (m h b)

unfoldable pub emit : Bytes → Writer
emit bytes h b = append h b bytes

-- `bytebuf_appendf` with `%zu` and `%PRId64`, for which `vsnprintf` cannot fail.
unfoldable pub emitf : Bytes → Writer
emitf text h b = appendf h b (some text)

unfoldable pub reply_simple_string : Bytes → Writer
reply_simple_string s = emit (b'+' ∷ []) >> emit s >> emit crlf

unfoldable pub reply_error : Bytes → Writer
reply_error msg = emit (b'-' ∷ []) >> emit msg >> emit crlf

unfoldable pub reply_integer : ℤ → Writer
reply_integer n = emitf (b':' ∷ (print_int n ++ crlf))

unfoldable pub reply_bulk : Bytes → Writer
reply_bulk bytes = emitf (b'$' ∷ (print_nat (length bytes) ++ crlf)) >> emit bytes >> emit crlf

unfoldable pub reply_nil : Writer
reply_nil = emit (codes "$-1" ++ crlf)

unfoldable pub reply_array_header : ℕ → Writer
reply_array_header n = emitf (b'*' ∷ (print_nat n ++ crlf))
