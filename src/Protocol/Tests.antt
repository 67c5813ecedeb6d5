-- ===== src/Protocol/Tests.antt =====
-- Requests that come whole and in parts.
use commit_redis.Prelude.{
  ℕ, ◌≡◌, refl, Bool, true, false, none, some, List, [], ◌∷◌, ◌++◌, inl, arith,
}
use commit_redis.Protocol.Defs.{
  Client, process_multibulk_buffer, read_mbulk_len, mbulk_line, read_bulk_len, bulk_line, bulk_loop,
  read_bulk, expected_dollar,
}
use commit_redis.Protocol.Input.{process_inline_buffer, split_spaces, input_loop, execute}
use commit_redis.Util.Number.{string2ll, parse_number, parse_digits, in_range}
use commit_redis.Protocol.Chunks.{with_bytes, process_multibulk_buffer-resumed}
use commit_redis.Protocol.Rounds.{IsUsable, input_loop_lem}

abbrev line_end : List ℕ
line_end = b'\r' ∷ b'\n' ∷ []

abbrev client : List ℕ → Client
client buf = record {
  querybuf = buf;
  reqtype = none;
  multibulklen = 0;
  bulklen = none;
  argv = [];
  errors = [];
  closing = false;
  blocked = false;
}

abbrev ping : List ℕ
ping = b'P' ∷ b'I' ∷ b'N' ∷ b'G' ∷ []

-- "*1\r\n$4\r\nPI"
abbrev early_bytes : List ℕ
early_bytes = (b'*' ∷ b'1' ∷ line_end) ++ ((b'$' ∷ b'4' ∷ line_end) ++ (b'P' ∷ b'I' ∷ []))

abbrev late_bytes : List ℕ
late_bytes = b'N' ∷ b'G' ∷ line_end

abbrev waiting : Client
waiting = record (client (b'P' ∷ b'I' ∷ [])) { multibulklen = 1; bulklen = some 4 }

early_bytes_wait : process_multibulk_buffer (client early_bytes) ≡ some (false, waiting)
unfolding process_multibulk_buffer read_mbulk_len mbulk_line read_bulk_len bulk_line bulk_loop
    read_bulk string2ll parse_number parse_digits in_range
early_bytes_wait = refl

process_multibulk_buffer-resumed_example :
    process_multibulk_buffer (with_bytes late_bytes waiting)
    ≡ process_multibulk_buffer (with_bytes late_bytes (client early_bytes))
process_multibulk_buffer-resumed_example =
    process_multibulk_buffer-resumed (client early_bytes) waiting late_bytes early_bytes_wait refl
      (omega arith)

no_dollar :
    process_multibulk_buffer (client ((b'*' ∷ b'1' ∷ line_end) ++ (b'x' ∷ line_end)))
    ≡ some (
      false,
      record (client (b'x' ∷ line_end)) {
        multibulklen = 1;
        errors = expected_dollar b'x' ∷ [];
        closing = true;
      },
    )
unfolding process_multibulk_buffer read_mbulk_len mbulk_line read_bulk_len bulk_line bulk_loop
    read_bulk string2ll parse_number parse_digits in_range
no_dollar = refl

inline_words :
    process_inline_buffer (client ((b'a' ∷ b' ' ∷ b' ' ∷ b'b' ∷ line_end) ++ (b'x' ∷ [])))
    ≡ (true, record (client (b'x' ∷ [])) { argv = (b'a' ∷ []) ∷ (b'b' ∷ []) ∷ [] })
unfolding process_inline_buffer split_spaces
inline_words = refl

-- Each request is kept, the newest first.
abbrev keep : List (List (List ℕ)) → Client → List (List (List ℕ)) × Bool × Client
keep x c = (c.argv ∷ x, true, c)

two_requests :
    input_loop keep 30 [] (client ((early_bytes ++ late_bytes) ++ (b'a' ∷ line_end)))
    ≡ some (((b'a' ∷ []) ∷ []) ∷ (ping ∷ []) ∷ [], client [])
unfolding input_loop execute process_multibulk_buffer read_mbulk_len mbulk_line read_bulk_len
    bulk_line bulk_loop read_bulk string2ll parse_number parse_digits in_range process_inline_buffer
    split_spaces
two_requests = refl

input_loop_example :
    (x' : List (List (List ℕ))) × (c' : Client) × (input_loop keep 30 []
        (client ((early_bytes ++ late_bytes) ++ (b'a' ∷ line_end)))
      ≡ some (x', c'))
    × IsUsable c'
input_loop_example =
    input_loop_lem keep (λ x c. refl) (λ x c e. cc) 30 []
      (client ((early_bytes ++ late_bytes) ++ (b'a' ∷ line_end))) (inl ((λ e. refl), λ e. cc))
      (omega arith)
