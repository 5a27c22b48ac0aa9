-- ===== src/Output.antt =====
-- internal/master/output.go: `processLog`, which cuts a process's output into log lines. The lines
-- that `emit` hands to `sendTelemetryLog` are collected in `sent`, oldest first; the locks are not
-- modelled, since every method holds the only one from its first statement to its last.
mod Utf8
pub mod Pieces
pub mod Bytes
pub mod Content
pub mod Lines
pub mod Text
use Utf8.{rune_start, full_rune}
use open_ctrl.Base.{
  ℕ, zero, suc, ◌+◌, ◌-◌, min, Bool, true, false, not, Option, none, some, List, [], ◌∷◌, ◌++◌,
  ◌==◌, if◌then◌else◌, length, take, drop,
}

-- const logFragmentSize
abbrev pub log_fragment_size : ℕ
log_fragment_size = 16384

pub record ProcessLog : Type 0 where
  pub pending : List ℕ
  pub sent : List (List ℕ)

-- bytes.IndexByte
unfoldable pub index_byte : ℕ → List ℕ → Option ℕ
index_byte b [] = none
index_byte b (x ∷ xs) =
    let rest : Option ℕ = elim (index_byte b xs) [ none ↦ none | some i ↦ some (suc i) ] in
    if x == b then some 0 else rest

-- bytes.TrimSuffix(data, "\n")
unfoldable pub trim_newline : List ℕ → List ℕ
trim_newline [] = []
trim_newline (x ∷ []) = if x == 0x0a then [] else x ∷ []
trim_newline (x ∷ y ∷ r) = x ∷ trim_newline (y ∷ r)

-- (*processLog).emit
unfoldable pub emit : ProcessLog → ProcessLog
emit p = record { pending = []; sent = p.sent ++ trim_newline p.pending ∷ [] }

-- (*processLog).flush
unfoldable pub flush : ProcessLog → ProcessLog
flush p = if length p.pending == 0 then p else emit p

-- The first byte of `drop i xs`; the source indexes in range only.
unfoldable pub byte_at : ℕ → List ℕ → ℕ
byte_at i [] = 0
byte_at zero (x ∷ xs) = x
byte_at (suc i) (x ∷ xs) = byte_at i xs

-- for last > 0 && !utf8.RuneStart(p.pending[last]) { last-- }
unfoldable pub last_start : ℕ → List ℕ → ℕ
unfolding byte_at rune_start
last_start zero xs = zero
last_start (suc i) xs = elim (rune_start (byte_at (suc i) xs)) [
  | true ↦ suc i
  | false ↦ last_start i xs
]

-- The branch of `Write` at a full fragment: a rune that is not whole waits for its other bytes.
unfoldable pub cut : ProcessLog → ProcessLog
cut p =
    let last = last_start (length p.pending - 1) p.pending in
    let tail = drop last p.pending in
    if not (full_rune tail)
    then record (emit (record p { pending = take last p.pending })) { pending = tail }
    else emit p

-- The body of the loop in `Write`: the log after it, and the data left.
unfoldable pub round : ℕ → ProcessLog → List ℕ → ProcessLog × List ℕ
round size p bytes =
    let limit : ℕ = min (length bytes) (size - length p.pending) in
    elim (index_byte 0x0a (take limit bytes)) [
      | some i ↦ (emit (record p { pending = p.pending ++ take (suc i) bytes }), drop (suc i) bytes)
      | none ↦
          let p' : ProcessLog = record p { pending = p.pending ++ take limit bytes } in
          (if length p'.pending == size then cut p' else p', drop limit bytes)
    ]

-- for len(data) > 0 { … }, on fuel.
unfoldable pub write_loop : ℕ → ℕ → ProcessLog → List ℕ → ProcessLog
write_loop zero size p bytes = p
write_loop (suc fuel) size p [] = p
write_loop (suc fuel) size p (x ∷ xs) =
    write_loop fuel size (round size p (x ∷ xs)).0 (round size p (x ∷ xs)).1

-- (*processLog).Write. Each round takes at least one byte, so the length is fuel enough.
unfoldable pub write : ProcessLog → List ℕ → ProcessLog
unfolding write_loop
write p bytes = write_loop (length bytes) log_fragment_size p bytes
