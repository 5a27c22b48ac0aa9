-- ===== src/Output/Bytes.antt =====
-- `Write` takes its data in pieces; here it is proved to do what feeding single bytes does.

use open_ctrl.Base.{
  ℕ, zero, suc, ◌≤◌, ◌<◌, ◌≡◌, refl, sym, ap, ◌∙◌, arith, List, [], ◌∷◌, ◌++◌, length, take, drop,
  length-append, length-drop, length-take, take-append-drop, Option-cases, inl, inr,
}
use open_ctrl.Output.{ProcessLog, log_fragment_size, index_byte, emit, round, write_loop, write}
use open_ctrl.Output.Pieces.{
  put_bytes, put_bytes-append, length-cut, length-put_bytes, extend, put_line, settle, put_piece,
  limit_of, round_line, round_piece,
}

put_bytes-split :
    (size n : ℕ) (p : ProcessLog) (bs : List ℕ)
    → put_bytes size p bs ≡ put_bytes size (put_bytes size p (take n bs)) (drop n bs)
put_bytes-split size n p bs =
    ap (put_bytes size p) (sym (take-append-drop n bs))
    ∙ put_bytes-append size p (take n bs) (drop n bs)

-- One round feeds the bytes that it takes.
put_bytes-round :
    (size : ℕ) (p : ProcessLog) (bs : List ℕ)
    → 0 < length bs
    → length p.pending < size
    → put_bytes size p bs ≡ put_bytes size (round size p bs).0 (round size p bs).1
put_bytes-round size p bs k h = elim (Option-cases (index_byte 0x0a (take limit bs))) [
  | inl e ↦
      put_bytes-split size limit p bs
      ∙ ap (λ q. put_bytes size q (drop limit bs))
          (put_piece size p (take limit bs) (omega (arith, length-take limit bs)) e
            (omega (arith, length-take limit bs)))
      ∙ ap (λ r. put_bytes size r.0 r.1) (sym (round_piece size p bs e))
  | inr (i, e) ↦
      put_bytes-split size (suc i) p bs
      ∙ ap (λ q. put_bytes size q (drop (suc i) bs)) (put_line size limit i p bs e (omega arith))
      ∙ ap (λ r. put_bytes size r.0 r.1) (sym (round_line size i p bs e))
]
  where
    limit : ℕ
    limit = limit_of size p bs

length-round :
    (size : ℕ) (p : ProcessLog) (bs : List ℕ)
    → 0 < length bs
    → length p.pending < size
    → length (round size p bs).1 < length bs
length-round size p bs k h = elim (Option-cases (index_byte 0x0a (take limit bs))) [
  | inl e ↦ rw (round_piece size p bs e) (omega (arith, length-drop limit bs))
  | inr (i, e) ↦ rw (round_line size i p bs e) (omega (arith, length-drop (suc i) bs))
]
  where
    limit : ℕ
    limit = limit_of size p bs

length-settle :
    (size : ℕ) (p : ProcessLog)
    → 3 < size
    → length p.pending ≤ size
    → length (settle size p).pending < size
unfolding settle
length-settle size p h k = ground (arith, length-cut p)

length-round_pending :
    (size : ℕ) (p : ProcessLog) (bs : List ℕ)
    → 3 < size
    → length p.pending < size
    → length (round size p bs).0.pending < size
length-round_pending size p bs k h = elim (Option-cases (index_byte 0x0a (take limit bs))) [
  | inl e ↦ rw (round_piece size p bs e) (
      length-settle size (extend p (take limit bs)) k (
        unfold extend in
        omega (arith, length-append p.pending (take limit bs), length-take limit bs)))
  | inr (i, e) ↦ rw (round_line size i p bs e) (unfold emit in omega arith)
]
  where
    limit : ℕ
    limit = limit_of size p bs

write_loop-put_bytes :
    (fuel size : ℕ) (p : ProcessLog) (bs : List ℕ)
    → 3 < size
    → length p.pending < size
    → length bs ≤ fuel
    → write_loop fuel size p bs ≡ put_bytes size p bs
unfolding write_loop
write_loop-put_bytes zero size p [] h k f = unfold put_bytes in refl
write_loop-put_bytes zero size p (x ∷ xs) h k f = absurd (omega arith)
write_loop-put_bytes (suc fuel) size p [] h k f = unfold put_bytes in refl
write_loop-put_bytes (suc fuel) size p (x ∷ xs) h k f =
    write_loop-put_bytes fuel size (round size p (x ∷ xs)).0 (round size p (x ∷ xs)).1 h
      (length-round_pending size p (x ∷ xs) h k)
      (omega (arith, length-round size p (x ∷ xs) (omega arith) k))
    ∙ sym (put_bytes-round size p (x ∷ xs) (omega arith) k)

-- A pending fragment is always shorter than a full one.
abbrev pub IsPartial : ProcessLog → Type 0
IsPartial p = length p.pending < log_fragment_size

-- `Write` does to a log with a partial fragment what feeding its data byte by byte does: a byte is
-- appended, a newline sends the line, and a full fragment is cut.
pub write-put_bytes :
    (p : ProcessLog) (bs : List ℕ) → IsPartial p → write p bs ≡ put_bytes log_fragment_size p bs
unfolding write
write-put_bytes p bs h =
    write_loop-put_bytes (length bs) log_fragment_size p bs (omega arith) h (omega arith)

-- A `Write` to a log with a partial fragment leaves a partial fragment: less than 16384 bytes.
pub write-IsPartial : (p : ProcessLog) (bs : List ℕ) → IsPartial p → IsPartial (write p bs)
write-IsPartial p bs h =
    rw (write-put_bytes p bs h) (length-put_bytes log_fragment_size p bs (omega arith) h)

-- How a process's output is split over calls of `Write` does not change the log, if the fragment
-- pending at first is partial.
pub write-append :
    (p : ProcessLog) (xs ys : List ℕ) → IsPartial p → write p (xs ++ ys) ≡ write (write p xs) ys
write-append p xs ys h =
    write-put_bytes p (xs ++ ys) h
    ∙ put_bytes-append log_fragment_size p xs ys
    ∙ ap (λ q. put_bytes log_fragment_size q ys) (sym (write-put_bytes p xs h))
    ∙ sym (write-put_bytes (write p xs) ys (write-IsPartial p xs h))
