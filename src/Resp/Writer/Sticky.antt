-- ===== src/Resp/Writer/Sticky.antt =====
-- The sticky error, for every method that writes or flushes at once.
use cachemoney.Base.{
  ℕ, ◌*◌, ◌≡◌, refl, ◌∙◌, ap, Bool, Option, none, some, List, [], ◌∷◌, ◌++◌, if◌then◌else◌, length,
  true, false, ◌&&◌, take,
}
use cachemoney.Base.Int.{ℤ, pos}
use cachemoney.Resp.Writer.{
  Writer, Double, write_bytes, write_header, write_line, write_len_prefixed, write_simple_string,
  write_error, write_int, write_bulk, write_null, write_array_header, write_map_header, write_bool,
  write_double, write_big_number, flush, is_resp3, unless_failed, bufio_write,
}
use mathlib.Core.List.{append-nil, append_assoc}

-- A call of one of the methods that write or flush: all but SetProto.
pub data Call : Type 0 where
  simple_string error_line bulk : List ℕ → Call
  int array_header big_number : ℤ → Call
  null flushed : Call
  map_header : ℕ → Call
  boolean : Bool → Call
  double : Double → Call

unfoldable pub perform : Call → Writer → Writer
perform (Call.simple_string s) w = write_simple_string s w
perform (Call.error_line s) w = write_error s w
perform (Call.bulk b) w = write_bulk b w
perform (Call.int n) w = write_int n w
perform (Call.array_header n) w = write_array_header n w
perform (Call.big_number x) w = write_big_number x w
perform Call.null w = write_null w
perform Call.flushed w = flush w
perform (Call.map_header n) w = write_map_header n w
perform (Call.boolean b) w = write_bool b w
perform (Call.double d) w = write_double d w

unfoldable pub perform_all : List Call → Writer → Writer
perform_all [] w = w
perform_all (c ∷ cs) w = perform_all cs (perform c w)

-- The relation of a Writer before and after calls: nothing taken is lost, the dialect stays, and a
-- Writer that had failed is the same.
pub record Extends (w v : Writer) : Type 0 where
  pub suffix : List ℕ
  pub appended : v.out ≡ w.out ++ suffix
  pub dialect : v.proto ≡ w.proto
  pub stuck : (e : ℕ) → w.failure ≡ some e → v ≡ w

Extends-refl : (w : Writer) → Extends w w
Extends-refl w = record {
  suffix = [];
  appended = rw append-nil;
  dialect = refl;
  stuck = λ e h. refl;
}

Extends-trans : {u v w : Writer} → Extends u v → Extends v w → Extends u w
Extends-trans {u} {v} {w} a b = record {
  suffix = a.suffix ++ b.suffix;
  appended = b.appended ∙ ap (λ t. t ++ b.suffix) a.appended ∙ append_assoc u.out a.suffix b.suffix;
  dialect = b.dialect ∙ a.dialect;
  stuck = λ e h.
      let same : v ≡ u = a.stuck e h in b.stuck e (ap (λ (x : Writer). x.failure) same ∙ h) ∙ same;
}

bufio_write-Extends :
    (bs : List ℕ) (w : Writer) (f : Option ℕ) (answers : List (Option (ℕ × ℕ)))
    → w.failure ≡ f
    → Extends w (unless_failed f w (bufio_write bs answers w))
unfolding unless_failed bufio_write
bufio_write-Extends bs w (some e) answers h = Extends-refl w
bufio_write-Extends bs w none [] h = record {
  suffix = bs;
  appended = refl;
  dialect = refl;
  stuck = λ e h'. cc;
}
bufio_write-Extends bs w none (none ∷ rest) h = record {
  suffix = bs;
  appended = refl;
  dialect = refl;
  stuck = λ e h'. cc;
}
bufio_write-Extends bs w none (some (x, taken) ∷ rest) h = record {
  suffix = take taken bs;
  appended = refl;
  dialect = refl;
  stuck = λ e h'. cc;
}

write_bytes-Extends : (bs : List ℕ) (w : Writer) → Extends w (write_bytes bs w)
unfolding write_bytes
write_bytes-Extends bs w = bufio_write-Extends bs w w.failure w.answers refl

then_write : {w v : Writer} (bs : List ℕ) → Extends w v → Extends w (write_bytes bs v)
then_write {w} {v} bs h = Extends-trans h (write_bytes-Extends bs v)

write_line-Extends : (tag : ℕ) (s : List ℕ) (w : Writer) → Extends w (write_line tag s w)
unfolding write_line
write_line-Extends tag s w = then_write _ (then_write s (write_bytes-Extends _ w))

write_header-Extends : (tag : ℕ) (n : ℤ) (w : Writer) → Extends w (write_header tag n w)
unfolding write_header
write_header-Extends tag n w = then_write _ (then_write _ (write_bytes-Extends _ w))

write_len_prefixed-Extends :
    (tag : ℕ) (body : List ℕ) (w : Writer) → Extends w (write_len_prefixed tag body w)
unfolding write_len_prefixed
write_len_prefixed-Extends tag body w =
    then_write _ (then_write body (write_header-Extends tag (pos (length body)) w))

if-Extends :
    (b : Bool) {w u v : Writer} → Extends w u → Extends w v → Extends w (if b then u else v)
if-Extends true h k = h
if-Extends false h k = k

-- Every method that writes or flushes only adds bytes behind those taken, keeps the dialect, and leaves a
-- Writer whose error is set exactly as it was.
pub perform-Extends : (c : Call) (w : Writer) → Extends w (perform c w)
unfolding perform write_simple_string write_error write_int write_bulk write_null write_array_header
    write_map_header write_bool write_double write_big_number flush
perform-Extends (Call.simple_string s) w = write_line-Extends b'+' s w
perform-Extends (Call.error_line s) w = write_line-Extends b'-' s w
perform-Extends (Call.bulk b) w = write_len_prefixed-Extends b'$' b w
perform-Extends (Call.int n) w = write_header-Extends b':' n w
perform-Extends (Call.array_header n) w = write_header-Extends b'*' n w
perform-Extends (Call.big_number x) w =
    if-Extends (is_resp3 w) (write_line-Extends _ _ w) (write_len_prefixed-Extends _ _ w)
perform-Extends Call.null w =
    if-Extends (is_resp3 w) (write_bytes-Extends _ w) (write_bytes-Extends _ w)
perform-Extends Call.flushed w = write_bytes-Extends [] w
perform-Extends (Call.map_header n) w =
    if-Extends (is_resp3 w) (write_header-Extends b'%' (pos n) w)
      (write_header-Extends b'*' (pos (2 * n)) w)
perform-Extends (Call.boolean b) w = if-Extends (is_resp3 w && b) (write_bytes-Extends _ w) (
    if-Extends (is_resp3 w) (write_bytes-Extends _ w)
      (if-Extends b (write_bytes-Extends _ w) (write_bytes-Extends _ w)))
perform-Extends (Call.double d) w =
    if-Extends (is_resp3 w) (write_line-Extends _ _ w) (write_len_prefixed-Extends _ _ w)

-- However the connection fails, also in the middle of a text, any run of writes and flushes only adds
-- bytes behind those taken and keeps the dialect; once the first failure is recorded, no later write or
-- flush changes the Writer.
pub perform_all-Extends : (cs : List Call) (w : Writer) → Extends w (perform_all cs w)
unfolding perform_all
perform_all-Extends [] w = Extends-refl w
perform_all-Extends (c ∷ cs) w =
    Extends-trans (perform-Extends c w) (perform_all-Extends cs (perform c w))
