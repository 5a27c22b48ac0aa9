-- ===== src/Output/Lines.antt =====
-- internal/master/output.go: a line that fits a fragment is logged whole, and `flush` leaves
-- nothing behind.
use mathlib.Core.List.{append_assoc, append-nil}
use open_ctrl.Base.{
  ℕ, ◌+◌, ◌<◌, ◌≡◌, ap, ◌∙◌, arith, List, [], ◌∷◌, ◌++◌, length, length-append, ◌==◌, if◌then◌else◌,
}
use open_ctrl.Output.{ProcessLog, log_fragment_size, emit, flush, write}
use open_ctrl.Output.Pieces.{put_byte, put_bytes, put_byte_plain}
use open_ctrl.Output.Bytes.{write-put_bytes}
use open_ctrl.Output.Content.{IsPlain, trim_newline-line, trim_newline-plain}

-- A log with one more line and nothing pending.
abbrev pub logged : ProcessLog → List ℕ → ProcessLog
logged p line = record { pending = []; sent = p.sent ++ line ∷ [] }

put_bytes_line :
    (p : ProcessLog) (size : ℕ) (line : List ℕ)
    → IsPlain line
    → length p.pending + length line < size
    → put_bytes size p (line ++ 0x0a ∷ []) ≡ logged p (p.pending ++ line)
unfolding put_bytes
put_bytes_line p size [] h k =
    unfold put_byte emit in rw (trim_newline-line p.pending, append-nil p.pending)
put_bytes_line p size (b ∷ line) h k =
    ap (λ q. put_bytes size q (line ++ 0x0a ∷ [])) (put_byte_plain size p b h.0 (omega arith))
    ∙ put_bytes_line (record p { pending = p.pending ++ b ∷ [] }) size line h.1
        (omega (arith, length-append p.pending (b ∷ [])))
    ∙ ap (logged p) (append_assoc p.pending (b ∷ []) line)

-- A line that fits a fragment together with what is pending is sent whole by one `Write`, without
-- its newline, as one log line, and nothing is left pending.
pub write_line :
    (p : ProcessLog) (line : List ℕ)
    → IsPlain line
    → length p.pending + length line < log_fragment_size
    → write p (line ++ 0x0a ∷ []) ≡ logged p (p.pending ++ line)
write_line p line h k =
    write-put_bytes p (line ++ 0x0a ∷ []) (omega arith)
    ∙ put_bytes_line p log_fragment_size line h k

-- A flush sends what is pending, if anything is, and leaves nothing pending.
pub flush_lem :
    (p : ProcessLog)
    → IsPlain p.pending
    → flush p ≡ (if length p.pending == 0 then p else logged p p.pending)
unfolding flush emit
flush_lem p h = ground (arith, trim_newline-plain p.pending h)
