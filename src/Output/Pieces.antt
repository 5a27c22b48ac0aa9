-- ===== src/Output/Pieces.antt =====
-- Feeding single bytes to a log of internal/master/output.go, and what it does to the piece that a
-- round of `Write` takes.
use mathlib.Core.List.{append_assoc}
use open_ctrl.Base.{
  ℕ, zero, suc, ◌+◌, ◌-◌, ◌≤◌, ◌<◌, ◌≡◌, ◌≢◌, refl, ap, ◌∙◌, min, arith, none, some, List, [], ◌∷◌,
  ◌++◌, ◌==◌, if◌then◌else◌, length, take, drop, length-append, length-take,
}
use open_ctrl.Output.Utf8.{length-le_of_full_rune}
use open_ctrl.Output.{ProcessLog, index_byte, emit, last_start, cut, round}

-- One byte.
unfoldable pub put_byte : ℕ → ProcessLog → ℕ → ProcessLog
put_byte size p b =
    let p' : ProcessLog = record p { pending = p.pending ++ b ∷ [] } in
    if b == 0x0a then emit p' else if length p'.pending == size then cut p' else p'

unfoldable pub put_bytes : ℕ → ProcessLog → List ℕ → ProcessLog
put_bytes size p [] = p
put_bytes size p (b ∷ bs) = put_bytes size (put_byte size p b) bs

pub put_bytes-append :
    (size : ℕ) (p : ProcessLog) (xs ys : List ℕ)
    → put_bytes size p (xs ++ ys) ≡ put_bytes size (put_bytes size p xs) ys
unfolding put_bytes
put_bytes-append size p [] ys = refl
put_bytes-append size p (x ∷ xs) ys = put_bytes-append size (put_byte size p x) xs ys

-- What a cut leaves is less than a whole rune.
pub length-cut : (p : ProcessLog) → length (cut p).pending ≤ 3
unfolding cut emit
length-cut p =
    ground
      (arith, length-le_of_full_rune (drop (last_start (length p.pending - 1) p.pending) p.pending))

pub length-put_byte :
    (size : ℕ) (p : ProcessLog) (b : ℕ)
    → 3 < size
    → length p.pending < size
    → length (put_byte size p b).pending < size
unfolding put_byte emit
length-put_byte size p b h k = ground (
  arith,
  length-cut (record p { pending = p.pending ++ b ∷ [] }),
  length-append p.pending (b ∷ []),
)

pub length-put_bytes :
    (size : ℕ) (p : ProcessLog) (bs : List ℕ)
    → 3 < size
    → length p.pending < size
    → length (put_bytes size p bs).pending < size
unfolding put_bytes
length-put_bytes size p [] h k = k
length-put_bytes size p (b ∷ bs) h k =
    length-put_bytes size (put_byte size p b) bs h (length-put_byte size p b h k)

pub put_byte_plain :
    (size : ℕ) (p : ProcessLog) (b : ℕ)
    → b ≢ 0x0a
    → length p.pending + 1 < size
    → put_byte size p b ≡ record p { pending = p.pending ++ b ∷ [] }
unfolding put_byte
put_byte_plain size p b h k = ground (arith, length-append p.pending (b ∷ []))

unfoldable pub extend : ProcessLog → List ℕ → ProcessLog
extend p bs = record p { pending = p.pending ++ bs }

extend-extend :
    (p : ProcessLog) (b : ℕ) (bs : List ℕ) → extend (extend p (b ∷ [])) bs ≡ extend p (b ∷ bs)
unfolding extend
extend-extend p b bs = rw append_assoc

index_byte-zero : (b x : ℕ) (xs : List ℕ) → index_byte b (x ∷ xs) ≡ some 0 → x ≡ b
unfolding index_byte
index_byte-zero b x xs h = ground arith

index_byte-suc :
    (b x i : ℕ) (xs : List ℕ)
    → index_byte b (x ∷ xs) ≡ some (suc i)
    → (x ≢ b) × (index_byte b xs ≡ some i)
unfolding index_byte
index_byte-suc b x i xs h = (ground arith, ground arith)

index_byte-none :
    (b x : ℕ) (xs : List ℕ) → index_byte b (x ∷ xs) ≡ none → (x ≢ b) × (index_byte b xs ≡ none)
unfolding index_byte
index_byte-none b x xs h = (ground arith, ground arith)

index_byte-lt : (b i : ℕ) (xs : List ℕ) → index_byte b xs ≡ some i → i < length xs
unfolding index_byte
index_byte-lt b i [] h = cc
index_byte-lt b zero (x ∷ xs) h = omega arith
index_byte-lt b (suc i) (x ∷ xs) h =
    omega (arith, index_byte-lt b i xs (index_byte-suc b x i xs h).1)

put_byte_newline :
    (size : ℕ) (p : ProcessLog) (b : ℕ) → b ≡ 0x0a → put_byte size p b ≡ emit (extend p (b ∷ []))
unfolding put_byte extend
put_byte_newline size p b h = ground arith

put_bytes_plain :
    (size : ℕ) (p : ProcessLog) (b : ℕ) (bs : List ℕ)
    → b ≢ 0x0a
    → length p.pending + 1 < size
    → put_bytes size p (b ∷ bs) ≡ put_bytes size (extend p (b ∷ [])) bs
unfolding put_bytes extend
put_bytes_plain size p b bs h k = ap (λ q. put_bytes size q bs) (put_byte_plain size p b h k)

length-extend : (p : ProcessLog) (b : ℕ) → length (extend p (b ∷ [])).pending ≡ length p.pending + 1
unfolding extend
length-extend p b = omega (arith, length-append p.pending (b ∷ []))

-- A piece that holds a newline ends with it.
pub put_line :
    (size l i : ℕ) (p : ProcessLog) (bs : List ℕ)
    → index_byte 0x0a (take l bs) ≡ some i
    → length p.pending + l ≤ size
    → put_bytes size p (take (suc i) bs) ≡ emit (extend p (take (suc i) bs))
put_line size zero i p bs h k = absurd (omega (arith, index_byte-lt 0x0a i [] h))
put_line size (suc l) i p [] h k = absurd (omega (arith, index_byte-lt 0x0a i [] h))
put_line size (suc l) zero p (b ∷ bs) h k =
    unfold put_bytes in put_byte_newline size p b (index_byte-zero 0x0a b (take l bs) h)
put_line size (suc l) (suc i) p (b ∷ bs) h k =
    let (other, later) = index_byte-suc 0x0a b i (take l bs) h in
    let early = index_byte-lt 0x0a i (take l bs) later in
    put_bytes_plain size p b (take (suc i) bs) other (omega (arith, length-take l bs))
    ∙ put_line size l i (extend p (b ∷ [])) bs later (omega (arith, length-extend p b))
    ∙ ap emit (extend-extend p b (take (suc i) bs))

-- The end of a round that met no newline.
unfoldable pub settle : ℕ → ProcessLog → ProcessLog
settle size p = if length p.pending == size then cut p else p

-- A piece with no newline is appended, and cut if it fills the fragment.
put_plain :
    (size : ℕ) (p : ProcessLog) (b : ℕ) (bs : List ℕ)
    → index_byte 0x0a (b ∷ bs) ≡ none
    → length p.pending + length (b ∷ bs) ≤ size
    → put_bytes size p (b ∷ bs) ≡ settle size (extend p (b ∷ bs))
put_plain size p b [] h k =
    unfold put_bytes put_byte extend settle in ground (arith, index_byte-none 0x0a b [] h)
put_plain size p b (c ∷ bs) h k =
    let (other, later) = index_byte-none 0x0a b (c ∷ bs) h in
    put_bytes_plain size p b (c ∷ bs) other (omega arith)
    ∙ put_plain size (extend p (b ∷ [])) c bs later (omega (arith, length-extend p b))
    ∙ ap (settle size) (extend-extend p b (c ∷ bs))

pub put_piece :
    (size : ℕ) (p : ProcessLog) (bs : List ℕ)
    → 0 < length bs
    → index_byte 0x0a bs ≡ none
    → length p.pending + length bs ≤ size
    → put_bytes size p bs ≡ settle size (extend p bs)
put_piece size p [] h e k = absurd (omega arith)
put_piece size p (b ∷ bs) h e k = put_plain size p b bs e k

abbrev pub limit_of : ℕ → ProcessLog → List ℕ → ℕ
limit_of size p bs = min (length bs) (size - length p.pending)

pub round_line :
    (size i : ℕ) (p : ProcessLog) (bs : List ℕ)
    → index_byte 0x0a (take (limit_of size p bs) bs) ≡ some i
    → round size p bs ≡ (emit (extend p (take (suc i) bs)), drop (suc i) bs)
unfolding round extend
round_line size i p bs h = rw (h, round)

pub round_piece :
    (size : ℕ) (p : ProcessLog) (bs : List ℕ)
    → index_byte 0x0a (take (limit_of size p bs) bs) ≡ none
    → round size p bs
      ≡ (settle size (extend p (take (limit_of size p bs) bs)), drop (limit_of size p bs) bs)
unfolding round extend settle
round_piece size p bs h = rw (h, round)
