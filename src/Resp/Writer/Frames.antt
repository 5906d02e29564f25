-- ===== src/Resp/Writer/Frames.antt =====
-- The frames on a connection that takes every byte, under both dialects.
use cachemoney.Base.{ℕ, ◌*◌, ◌≡◌, false, none, List, [], ◌∷◌, ◌++◌, length}
use cachemoney.Base.Int.{ℤ, pos}
use cachemoney.Resp.Writer.{
  Writer, Double, write_bytes, write_header, write_line, write_bulk, format_int, crlf, is_resp3,
  write_map_header, write_array_header, write_double, write_big_number, append_double,
}
use mathlib.Core.List.{append_assoc}

-- A Writer that has taken `out` and meets no failure.
abbrev pub clean : List ℕ → ℤ → Writer
clean out p = record { out = out; failure = none; answers = []; proto = p }

abbrev pub header_frame : ℕ → ℤ → List ℕ
header_frame tag n = tag ∷ (format_int n ++ crlf)

abbrev pub line_frame : ℕ → List ℕ → List ℕ
line_frame tag s = tag ∷ (s ++ crlf)

abbrev pub bulk_frame : List ℕ → List ℕ
bulk_frame b = header_frame b'$' (pos (length b)) ++ (b ++ crlf)

module _ (out : List ℕ) (p : ℤ) where
  pub write_header-clean :
      (tag : ℕ) (n : ℤ) → write_header tag n (clean out p) ≡ clean (out ++ header_frame tag n) p
  unfolding write_header write_bytes
  write_header-clean tag n = simp append_assoc

  pub write_line-clean :
      (tag : ℕ) (s : List ℕ) → write_line tag s (clean out p) ≡ clean (out ++ line_frame tag s) p
  unfolding write_line write_bytes
  write_line-clean tag s = simp append_assoc

  pub write_bulk-clean : (b : List ℕ) → write_bulk b (clean out p) ≡ clean (out ++ bulk_frame b) p
  unfolding write_bulk write_header write_bytes
  write_bulk-clean b = simp append_assoc

-- Under RESP2 a map header of `n` pairs is the array header of `2n` elements, and a double
-- or a big number is the bulk string of its text.
pub resp2_downgrades :
    (w : Writer)
    → is_resp3 w ≡ false
    → ((n : ℕ) → write_map_header n w ≡ write_array_header (pos (2 * n)) w)
      × ((d : Double) → write_double d w ≡ write_bulk (append_double d) w)
      × ((x : ℤ) → write_big_number x w ≡ write_bulk (format_int x) w)
unfolding write_map_header write_double write_array_header write_bulk write_big_number
resp2_downgrades w two = (λ n. rw two, λ d. rw two, λ x. rw two)
